-- ===== src/Media/Ending.antt =====
-- media.cpp (server/src/server): the whole of what `stop` does to the processes of the application.
use steamos_containerized.Common.{
  subst, replicate, ℕ, zero, suc, ◌+◌, ◌≤◌, ◌≡◌, refl, ap, ◌⊎◌, inl, inr, Bool, true, false, List,
  [], ◌∷◌, ◌++◌, map, arith,
}
use steamos_containerized.Common.Int.{ℤ}
use steamos_containerized.Media.Processes.{
  Host, Act, terminate, terminate_group, kill_whole_group, slept, steam_pids, terminate_all,
  steam_gone, poll_until, stop_clients, stop_steam, stop_group, stop_app,
}
use steamos_containerized.Media.Group.{
  IsClients, NoClient, steam_pids-IsClients, steam_gone-NoClient,
}
use steamos_containerized.Media.Signals.{poll_until-Polled, Swept, went, killed, stop_group-Swept}

-- How often the code sleeps, a tenth of a second each time.
unfoldable pub sleeps : List Act → ℕ
sleeps [] = 0
sleeps (slept ∷ acts) = suc (sleeps acts)
sleeps (terminate p ∷ acts) = sleeps acts
sleeps (terminate_group p ∷ acts) = sleeps acts
sleeps (kill_whole_group p ∷ acts) = sleeps acts

sleeps-append : (xs ys : List Act) → sleeps (xs ++ ys) ≡ sleeps xs + sleeps ys
unfolding sleeps
sleeps-append [] ys = omega arith
sleeps-append (slept ∷ xs) ys = omega (arith, sleeps-append xs ys)
sleeps-append (terminate p ∷ xs) ys = sleeps-append xs ys
sleeps-append (terminate_group p ∷ xs) ys = sleeps-append xs ys
sleeps-append (kill_whole_group p ∷ xs) ys = sleeps-append xs ys

sleeps-replicate : (n : ℕ) → sleeps (replicate n slept) ≡ n
unfolding sleeps
sleeps-replicate zero = refl
sleeps-replicate (suc n) = ap suc (sleeps-replicate n)

sleeps-terminate : (ps : List ℤ) → sleeps (map terminate ps) ≡ 0
unfolding sleeps
sleeps-terminate [] = refl
sleeps-terminate (p ∷ ps) = sleeps-terminate ps

module _ (H : Host) where
  -- How the Steam clients end: each process of the group that runs one gets a signal; and, if there
  -- is one, what follows waits until no process of the group runs a client or its helper, or for 150
  -- sleeps.
  pub record SteamDone (pid : ℤ) (st quiet : H.State) (acts : List Act) : Type 0 where
    pub waited : ℕ
    pub waited_le : waited ≤ 150
    pub asked : List ℤ
    pub asked_iff : IsClients H pid st asked
    pub asked_first : acts ≡ map terminate asked ++ replicate waited slept
    pub reason : (asked ≡ []) ⊎ (NoClient H pid quiet ⊎ (waited ≡ 150))

  terminate_all_acts : (ps : List ℤ) (st : H.State) → (terminate_all H ps st).1 ≡ map terminate ps
  terminate_all_acts [] st = refl
  terminate_all_acts (p ∷ ps) st =
      ap (λ l. terminate p ∷ l) (terminate_all_acts ps (H.term_process p st))

  why_done :
      (pid : ℤ) (quiet : H.State) (found : Bool) (turns : ℕ)
      → (found ≡ true → steam_gone H pid quiet ≡ true)
      → (found ≡ false → turns ≡ 150)
      → NoClient H pid quiet ⊎ (turns ≡ 150)
  why_done pid quiet true turns t f = inl (steam_gone-NoClient H pid quiet (t refl))
  why_done pid quiet false turns t f = inr (f refl)

  stop_clients-SteamDone :
      (pid : ℤ) (st : H.State) (ps : List ℤ)
      → steam_pids H pid st ≡ ps
      → SteamDone pid st (stop_clients H pid st ps).0 (stop_clients H pid st ps).1
  stop_clients-SteamDone pid st [] e = record {
    waited = 0;
    waited_le = omega arith;
    asked = [];
    asked_iff = subst (IsClients H pid st) e (steam_pids-IsClients H pid st);
    asked_first = refl;
    reason = inl refl;
  }
  stop_clients-SteamDone pid st (p ∷ ps) e =
      let asked = (terminate_all H (p ∷ ps) st).0 in
      let waits = poll_until H (steam_gone H pid) 150 asked in
      let polled = poll_until-Polled H (steam_gone H pid) 150 asked in
      record {
        waited = polled.turns;
        waited_le = polled.turns_le;
        asked = p ∷ ps;
        asked_iff = subst (IsClients H pid st) e (steam_pids-IsClients H pid st);
        asked_first = λ i. terminate_all_acts (p ∷ ps) st i ++ polled.only_sleeps i;
        reason = inr (why_done pid waits.1.0 waits.0 polled.turns polled.is_found polled.ran_out);
      }

  -- The application is stopped in this order: a signal to each process of its group whose name is
  -- that of the Steam client; if there is one, a wait of at most 150 sleeps, which ends earlier only
  -- when no process of the group has the name of the client or of its helper; the signal to the whole
  -- group; and SIGKILL only if the group is there at each of the fifty polls that follow. It is
  -- reported gone only if it is.
  pub stop_app-Swept :
      (pid : ℤ) (st : H.State)
      → (first rest : List Act) × (((stop_app H pid st).1.1 ≡ first ++ rest)
          × (SteamDone pid st (stop_steam H pid st).0 first
              × Swept H pid
                  (stop_steam H pid st).0
                  (stop_app H pid st).0
                  (stop_app H pid st).1.0
                  rest))
  unfolding stop_app stop_steam
  stop_app-Swept pid st =
      let first = stop_steam H pid st in
      (
        first.1,
        (stop_group H pid first.0).1.1,
        (
          refl,
          (
            stop_clients-SteamDone pid st (steam_pids H pid st) refl,
            stop_group-Swept H pid first.0,
          ),
        ),
      )

  sleeps-Swept :
      (pid : ℤ) (st : H.State) (gone : Bool) (after : H.State) (acts : List Act)
      → Swept H pid st gone after acts
      → sleeps acts ≤ 70
  unfolding sleeps
  sleeps-Swept pid st _ _ _ (went k le n d) = omega (arith, sleeps-replicate k)
  sleeps-Swept pid st _ _ _ (killed gone k le n d) = omega (
    arith,
    sleeps-append (replicate 50 slept) (kill_whole_group pid ∷ replicate k slept),
    sleeps-replicate 50,
    sleeps-replicate k,
  )

  -- Whatever the processes do, stopping the application ends after at most 220 sleeps of a tenth of
  -- a second.
  pub sleeps-stop_app_le : (pid : ℤ) (st : H.State) → sleeps (stop_app H pid st).1.1 ≤ 220
  sleeps-stop_app_le pid st =
      let (first, rest, (both, (done, swept))) = stop_app-Swept pid st in
      let ps = map terminate done.asked in
      omega (
        arith,
        ap sleeps both,
        sleeps-append first rest,
        ap sleeps done.asked_first,
        sleeps-append ps (replicate done.waited slept),
        sleeps-terminate done.asked,
        sleeps-replicate done.waited,
        done.waited_le,
        sleeps-Swept pid (stop_steam H pid st).0 (stop_app H pid st).0 (stop_app H pid st).1.0 rest
            swept,
      )
