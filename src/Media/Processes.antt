-- ===== src/Media/Processes.antt =====
-- media.cpp (server/src/server): how `stop` ends the process group of the launched application. The
-- processes belong to the kernel: `Host` is what the code asks of it, over an unknown state that
-- changes when a signal is sent and while the code sleeps.
use steamos_containerized.Common.{
  if◌then◌else◌, value_or, Text, text, ◌=?◌, ℕ, zero, suc, Bool, true, false, not, ◌&&◌, ◌||◌,
  Option, List, [], ◌∷◌, ◌++◌,
}
use steamos_containerized.Common.Int.{ℤ, pos, leb_ℤ, ltb_ℤ}

pub record Host : Type 1 where
  pub State : Type 0
  -- The numbers that name the directories of /proc, none where it cannot be opened; `getpgid`, and
  -- the first line of /proc/<pid>/comm.
  pub proc_entries : State → Option (List ℤ)
  pub getpgid : ℤ → State → ℤ
  pub proc_comm : ℤ → State → Text
  -- `kill(pid, SIGTERM)`, and `kill(-pid, …)` with SIGTERM, SIGKILL, and 0, which says whether the
  -- group is there
  pub term_process : ℤ → State → State
  pub term_group : ℤ → State → State
  pub kill_group : ℤ → State → State
  pub group_alive : ℤ → State → Bool
  -- `usleep(100 * 1000)`
  pub sleep : State → State

-- What `stop` does to the machine.
pub data Act : Type 0 where
  terminate : ℤ → Act
  terminate_group : ℤ → Act
  kill_whole_group : ℤ → Act
  slept : Act

abbrev pub eq_ℤ : ℤ → ℤ → Bool
eq_ℤ a b = leb_ℤ a b && leb_ℤ b a

abbrev pub steam_comm : Text
steam_comm = text "steam"

abbrev pub webhelper_comm : Text
webhelper_comm = text "steamwebhelper"

module _ (H : Host) where
  abbrev pub in_group : ℤ → H.State → List ℤ → List ℤ
  in_group pgid st [] = []
  in_group pgid st (p ∷ ps) =
      let rest = in_group pgid st ps in
      if ltb_ℤ (pos 0) p && eq_ℤ (H.getpgid p st) pgid then p ∷ rest else rest

  unfoldable pub group_pids : ℤ → H.State → List ℤ
  group_pids pgid st = in_group pgid st (value_or (H.proc_entries st) [])

  abbrev pub named : (Text → Bool) → H.State → List ℤ → List ℤ
  named test st [] = []
  named test st (p ∷ ps) =
      let rest = named test st ps in if test (H.proc_comm p st) then p ∷ rest else rest

  -- The Steam clients of the group.
  unfoldable pub steam_pids : ℤ → H.State → List ℤ
  unfolding group_pids
  steam_pids pgid st = named (λ c. c =? steam_comm) st (group_pids pgid st)

  abbrev pub terminate_all : List ℤ → H.State → H.State × List Act
  terminate_all [] st = (st, [])
  terminate_all (p ∷ ps) st =
      let (after, acts) = terminate_all ps (H.term_process p st) in (after, terminate p ∷ acts)

  -- No process of the group is the client or its helper.
  unfoldable pub steam_gone : ℤ → H.State → Bool
  unfolding group_pids
  steam_gone pgid st =
      elim (named (λ c. c =? steam_comm || c =? webhelper_comm) st (group_pids pgid st)) [
        | [] ↦ true
        | (p ∷ ps) ↦ false
      ]

  -- A loop that polls until it is so, sleeping after each poll that says no.
  unfoldable pub poll_until : (H.State → Bool) → ℕ → H.State → Bool × (H.State × List Act)
  poll_until done zero st = (false, (st, []))
  poll_until done (suc n) st =
      let (found, (after, acts)) = poll_until done n (H.sleep st) in
      if done st then (true, (st, [])) else (found, (after, slept ∷ acts))

  -- The clients are asked to end, and awaited.
  abbrev pub stop_clients : ℤ → H.State → List ℤ → H.State × List Act
  stop_clients pid st [] = (st, [])
  stop_clients pid st (p ∷ ps) =
      let (asked, terms) = terminate_all (p ∷ ps) st in
      let (clean, (after, waits)) = poll_until (steam_gone pid) 150 asked in (after, terms ++ waits)

  unfoldable pub stop_steam : ℤ → H.State → H.State × List Act
  stop_steam pid st = stop_clients pid st (steam_pids pid st)

  abbrev pub is_dead : ℤ → H.State → Bool
  is_dead pid st = not (H.group_alive pid st)

  -- A group that is still there is killed.
  abbrev pub unless_dead : ℤ → Bool → H.State → List Act → Bool × (H.State × List Act)
  unless_dead pid true waited waits = (true, (waited, waits))
  unless_dead pid false waited waits =
      let (reaped, (after, more)) = poll_until (is_dead pid) 20 (H.kill_group pid waited) in
      (reaped, (after, waits ++ kill_whole_group pid ∷ more))

  -- The sweep of the whole group, and whether it is gone at the end.
  unfoldable pub stop_group : ℤ → H.State → Bool × (H.State × List Act)
  stop_group pid st =
      let (dead, (waited, waits)) = poll_until (is_dead pid) 50 (H.term_group pid st) in
      let (gone, (after, acts)) = unless_dead pid dead waited waits in
      (gone, (after, terminate_group pid ∷ acts))

  unfoldable pub stop_app : ℤ → H.State → Bool × (H.State × List Act)
  unfolding stop_steam stop_group
  stop_app pid st =
      let (quiet, first) = stop_steam pid st in
      let (gone, (after, acts)) = stop_group pid quiet in (gone, (after, first ++ acts))
