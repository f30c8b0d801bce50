-- ===== src/Media/Signals.antt =====
-- media.cpp (server/src/server): in which order, and for how long, `stop` signals and waits.
use steamos_containerized.Common.{
  Bool-cases, replicate, ℕ, zero, suc, ◌≤◌, ◌<◌, ◌≡◌, refl, ap, inl, inr, Bool, true, false, List,
  ◌∷◌, ◌++◌, arith, subst, ◌∙◌,
}
use steamos_containerized.Common.Int.{ℤ}
use steamos_containerized.Media.Processes.{
  Host, Act, terminate_group, kill_whole_group, slept, poll_until, is_dead, stop_group, unless_dead,
}

module _ (H : Host) where
  -- After so many sleeps.
  abbrev pub ticks : ℕ → H.State → H.State
  ticks zero st = st
  ticks (suc n) st = ticks n (H.sleep st)

  -- It was not so at any of the first `k` polls.
  abbrev pub NotBefore : (H.State → Bool) → ℕ → H.State → Type 0
  NotBefore done k st = (i : ℕ) → i < k → done (ticks i st) ≡ false

  -- How a loop of polls ends: after `k` sleeps, at the first poll that says yes or with none left.
  pub record Polled (done : H.State → Bool) (n : ℕ) (st : H.State) (found : Bool) (after : H.State)
      (acts : List Act) : Type 0 where
    pub turns : ℕ
    pub turns_le : turns ≤ n
    pub ends_at : after ≡ ticks turns st
    pub only_sleeps : acts ≡ replicate turns slept
    pub not_before : NotBefore done turns st
    pub is_found : found ≡ true → done after ≡ true
    pub ran_out : found ≡ false → turns ≡ n

  NotBefore-suc :
      (done : H.State → Bool) (k : ℕ) (st : H.State)
      → done st ≡ false
      → NotBefore done k (H.sleep st)
      → NotBefore done (suc k) st
  NotBefore-suc done k st f h zero lt = f
  NotBefore-suc done k st f h (suc i) lt = h i (omega arith)

  pub poll_until-Polled :
      (done : H.State → Bool) (n : ℕ) (st : H.State)
      → Polled done n st
          (poll_until H done n st).0
          (poll_until H done n st).1.0
          (poll_until H done n st).1.1
  unfolding poll_until
  poll_until-Polled done zero st = record {
    turns = 0;
    turns_le = omega arith;
    ends_at = refl;
    only_sleeps = refl;
    not_before = λ i lt. absurd (omega arith);
    is_found = λ e. absurd (ground arith);
    ran_out = λ e. refl;
  }
  poll_until-Polled done (suc n) st =
      let rest = poll_until-Polled done n (H.sleep st) in
      elim (Bool-cases (done st)) [
        | inl t ↦ rw t (record {
          turns = 0;
          turns_le = omega arith;
          ends_at = refl;
          only_sleeps = refl;
          not_before = λ i lt. absurd (omega arith);
          is_found = λ e. t;
          ran_out = λ e. absurd (ground arith);
        })
        | inr f ↦ rw f (record {
          turns = suc rest.turns;
          turns_le = omega (arith, rest.turns_le);
          ends_at = rest.ends_at;
          only_sleeps = ap (λ l. slept ∷ l) rest.only_sleeps;
          not_before = NotBefore-suc done rest.turns st f rest.not_before;
          is_found = rest.is_found;
          ran_out = λ e. ap suc (rest.ran_out e);
        })
      ]

  -- What is done to the group, from the state that the end of the Steam clients left.
  pub data Swept (pid : ℤ) (st : H.State) : Bool → H.State → List Act → Type 0 where
    -- It was gone at some poll, which comes before the fiftieth sleep: it is not killed.
    went :
        (k : ℕ)
        → k ≤ 50
        → NotBefore (is_dead H pid) k (H.term_group pid st)
        → is_dead H pid (ticks k (H.term_group pid st)) ≡ true
        → Swept pid st true
            (ticks k (H.term_group pid st))
            (terminate_group pid ∷ replicate k slept)
    -- It was there at all fifty polls: it is killed, and awaited for at most twenty sleeps.
    killed :
        (gone : Bool) (k : ℕ)
        → k ≤ 20
        → NotBefore (is_dead H pid) 50 (H.term_group pid st)
        → (gone ≡ true
            → is_dead H pid (ticks k (H.kill_group pid (ticks 50 (H.term_group pid st)))) ≡ true)
        → Swept pid st gone
            (ticks k (H.kill_group pid (ticks 50 (H.term_group pid st))))
            (terminate_group pid ∷ (replicate 50 slept ++ kill_whole_group pid ∷ replicate k slept))

  Swept-killed :
      (pid : ℤ) (st waited : H.State) (waits : List Act) (gone : Bool) (after : H.State)
      → (more : List Act) → waited ≡ ticks 50 (H.term_group pid st)
      → waits ≡ replicate 50 slept
      → NotBefore (is_dead H pid) 50 (H.term_group pid st)
      → Polled (is_dead H pid) 20 (H.kill_group pid waited) gone after more
      → Swept pid st gone after (terminate_group pid ∷ (waits ++ kill_whole_group pid ∷ more))
  Swept-killed pid st waited waits gone after more e l never q =
      rw (q.only_sleeps, l)
        (rw (q.ends_at, e)
          (killed gone q.turns q.turns_le never (λ g.
            subst (λ s. is_dead H pid s ≡ true)
              (q.ends_at ∙ ap (λ s. ticks q.turns (H.kill_group pid s)) e) (q.is_found g))))

  Swept-unless_dead :
      (pid : ℤ) (st : H.State) (dead : Bool) (waited : H.State) (waits : List Act)
      → Polled (is_dead H pid) 50 (H.term_group pid st) dead waited waits
      → Swept pid st
          (unless_dead H pid dead waited waits).0
          (unless_dead H pid dead waited waits).1.0
          (terminate_group pid ∷ (unless_dead H pid dead waited waits).1.1)
  Swept-unless_dead pid st true waited waits p =
      rw (p.ends_at, p.only_sleeps)
        (went p.turns p.turns_le p.not_before
          (subst (λ s. is_dead H pid s ≡ true) p.ends_at (p.is_found refl)))
  Swept-unless_dead pid st false waited waits p =
      let fifty = p.ran_out refl in
      let again = H.kill_group pid waited in
      let last = poll_until H (is_dead H pid) 20 again in
      Swept-killed pid st waited waits last.0 last.1.0 last.1.1
        (p.ends_at ∙ ap (λ n. ticks n (H.term_group pid st)) fifty)
        (p.only_sleeps ∙ ap (λ n. replicate n slept) fifty)
        (subst (λ n. NotBefore (is_dead H pid) n (H.term_group pid st)) fifty p.not_before)
        (poll_until-Polled (is_dead H pid) 20 again)

  pub stop_group-Swept :
      (pid : ℤ) (st : H.State)
      → Swept pid st (stop_group H pid st).0 (stop_group H pid st).1.0 (stop_group H pid st).1.1
  unfolding stop_group
  stop_group-Swept pid st =
      let start = H.term_group pid st in
      let first = poll_until H (is_dead H pid) 50 start in
      Swept-unless_dead pid st first.0 first.1.0 first.1.1
        (poll_until-Polled (is_dead H pid) 50 start)
