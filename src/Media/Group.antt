-- ===== src/Media/Group.antt =====
-- media.cpp (server/src/server): the processes of the group of the application, and which of them run
-- Steam.
use steamos_containerized.Common.{
  Bool-cases, value_or, In, Text, text, ◌=?◌, =?_iff, ◌≡◌, refl, sym, ap, subst, ◌∙◌, ◌≢◌, ◌↔◌, inl,
  inr, ⊎_elim, Bool, true, false, ◌&&◌, ◌||◌, List, [], ◌∷◌, arith,
}
use steamos_containerized.Common.Int.{ℤ, pos, negsuc, ltb_ℤ}
use steamos_containerized.Media.Processes.{
  Host, eq_ℤ, in_group, group_pids, named, steam_pids, steam_gone,
}

eq_ℤ_refl : (a : ℤ) → eq_ℤ a a ≡ true
eq_ℤ_refl (pos n) = ground arith
eq_ℤ_refl (negsuc n) = ground arith

eq_ℤ-eq : (a b : ℤ) → eq_ℤ a b ≡ true → a ≡ b
eq_ℤ-eq (pos n) (pos m) h = ap pos (ground arith)
eq_ℤ-eq (negsuc n) (negsuc m) h = ap negsuc (ground arith)
eq_ℤ-eq (pos n) (negsuc m) h = absurd (ground arith)
eq_ℤ-eq (negsuc n) (pos m) h = absurd (ground arith)

true_not_false : true ≡ false → ⊥
true_not_false e = cc e

module _ (H : Host) where
  -- A process of the group: /proc has a directory for it, and the kernel says which group it is in.
  abbrev pub Member : ℤ → H.State → ℤ → Type 0
  Member pgid st p =
      In p (value_or (H.proc_entries st) []) × ((ltb_ℤ (pos 0) p ≡ true) × (H.getpgid p st ≡ pgid))

  -- The processes of the group that run a Steam client.
  abbrev pub IsClients : ℤ → H.State → List ℤ → Type 0
  IsClients pgid st ps = (p : ℤ) → In p ps ↔ (Member pgid st p × (H.proc_comm p st ≡ text "steam"))

  -- No process of the group runs the client or its helper.
  abbrev pub NoClient : ℤ → H.State → Type 0
  NoClient pgid st =
      (p : ℤ)
      → Member pgid st p
      → (H.proc_comm p st ≢ text "steam") × (H.proc_comm p st ≢ text "steamwebhelper")

  kept :
      (pgid : ℤ) (st : H.State) (q : ℤ)
      → (ltb_ℤ (pos 0) q && eq_ℤ (H.getpgid q st) pgid) ≡ true
      → (ltb_ℤ (pos 0) q ≡ true) × (H.getpgid q st ≡ pgid)
  kept pgid st q t = (ground arith, eq_ℤ-eq (H.getpgid q st) pgid (ground arith))

  not_kept :
      (pgid : ℤ) (st : H.State) (q : ℤ)
      → (ltb_ℤ (pos 0) q && eq_ℤ (H.getpgid q st) pgid) ≡ false
      → (ltb_ℤ (pos 0) q ≡ true) × (H.getpgid q st ≡ pgid)
      → ⊥
  not_kept pgid st q f (t, e) =
      absurd (ground (arith, eq_ℤ_refl (H.getpgid q st), ap (eq_ℤ (H.getpgid q st)) e))

  In-in_group :
      (pgid : ℤ) (st : H.State) (ps : List ℤ) (p : ℤ)
      → In p (in_group H pgid st ps)
        ↔ (In p ps × ((ltb_ℤ (pos 0) p ≡ true) × (H.getpgid p st ≡ pgid)))
  In-in_group pgid st [] p = (λ h. absurd h, λ h. h.0)
  In-in_group pgid st (q ∷ ps) p =
      let rest = In-in_group pgid st ps p in
      elim (Bool-cases (ltb_ℤ (pos 0) q && eq_ℤ (H.getpgid q st) pgid)) [
        | inr f ↦ rw f (
          λ h. (inr (rest.0 h).0, (rest.0 h).1),
          λ h.
              ⊎_elim
                (λ e. absurd (
                  not_kept pgid st q f
                    (subst (λ x. (ltb_ℤ (pos 0) x ≡ true) × (H.getpgid x st ≡ pgid)) e h.1)))
                (λ m. rest.1 (m, h.1)) h.0,
        )
        | inl t ↦ rw t (
          ⊎_elim
              (λ e. (
                inl e,
                subst (λ x. (ltb_ℤ (pos 0) x ≡ true) × (H.getpgid x st ≡ pgid)) (sym e)
                    (kept pgid st q t),
              ))
              (λ m. (inr (rest.0 m).0, (rest.0 m).1)),
          λ h. ⊎_elim (λ e. inl e) (λ m. inr (rest.1 (m, h.1))) h.0,
        )
      ]

  In-named :
      (test : Text → Bool) (st : H.State) (ps : List ℤ) (p : ℤ)
      → In p (named H test st ps) ↔ (In p ps × (test (H.proc_comm p st) ≡ true))
  In-named test st [] p = (λ h. absurd h, λ h. h.0)
  In-named test st (q ∷ ps) p =
      let rest = In-named test st ps p in
      elim (Bool-cases (test (H.proc_comm q st))) [
        | inr f ↦ rw f (
          λ h. (inr (rest.0 h).0, (rest.0 h).1),
          λ h.
              ⊎_elim
                (λ e. absurd (true_not_false (sym h.1 ∙ ap (λ x. test (H.proc_comm x st)) e ∙ f)))
                (λ m. rest.1 (m, h.1)) h.0,
        )
        | inl t ↦ rw t (
          ⊎_elim (λ e. (inl e, ap (λ x. test (H.proc_comm x st)) e ∙ t))
              (λ m. (inr (rest.0 m).0, (rest.0 m).1)),
          λ h. ⊎_elim (λ e. inl e) (λ m. inr (rest.1 (m, h.1))) h.0,
        )
      ]

  pub steam_pids-IsClients : (pgid : ℤ) (st : H.State) → IsClients pgid st (steam_pids H pgid st)
  unfolding steam_pids group_pids
  steam_pids-IsClients pgid st p =
      let entries = value_or (H.proc_entries st) [] in
      let of_group = In-in_group pgid st entries p in
      let of_name = In-named (λ c. c =? text "steam") st (in_group H pgid st entries) p in
      let same = =?_iff (H.proc_comm p st) (text "steam") in
      (
        λ h. (of_group.0 (of_name.0 h).0, same.0 (of_name.0 h).1),
        λ h. of_name.1 (of_group.1 h.0, same.1 h.1),
      )

  none_in : (ps : List ℤ) → (elim ps [ [] ↦ true | (p ∷ rest) ↦ false ]) ≡ true → ps ≡ []
  none_in [] h = refl
  none_in (p ∷ ps) h = cc h

  pub steam_gone-NoClient :
      (pgid : ℤ) (st : H.State) → steam_gone H pgid st ≡ true → NoClient pgid st
  unfolding steam_gone group_pids
  steam_gone-NoClient pgid st g p m =
      let entries = value_or (H.proc_entries st) [] in
      let test : Text → Bool = λ c. c =? text "steam" || c =? text "steamwebhelper" in
      let left = named H test st (in_group H pgid st entries) in
      let inside = In-in_group pgid st entries p in
      let of_name = In-named test st (in_group H pgid st entries) p in
      let nobody : test (H.proc_comm p st) ≡ true → ⊥ =
        λ t. subst (In p) (none_in left g) (of_name.1 (inside.1 m, t)) in
      let comm = H.proc_comm p st in
      (
        λ e. nobody (ground (arith, (=?_iff comm (text "steam")).1 e)),
        λ e. nobody (ground (arith, (=?_iff comm (text "steamwebhelper")).1 e)),
      )
