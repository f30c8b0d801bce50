-- ===== src/Tests/Pointers.antt =====
-- Polls of a pointer.
use steamos_containerized.Common.{
  ◌==◌, if◌then◌else◌, All, ℕ, ◌+◌, ◌≤◌, ◌≡◌, refl, false, ◌||◌, none, some, List, [], ◌∷◌,
}
use steamos_containerized.Common.Int.{pos, ◌-ℤ◌}
use steamos_containerized.Pointer.{
  new_conn, distance, Poll, client_quiet, far, inject_at, poll, polls,
}
use steamos_containerized.Pointer.Servers.{
  Server, is_gamescope, Turn, discover, visit, turn, turns, no_conns,
}
use steamos_containerized.Pointer.Servers.Tracked.{SaidGamescope, turns-SaidGamescope}
use steamos_containerized.Pointer.Settles.{last_injection, Polled, Spaced, injections-Spaced}

abbrev at_pos : ℕ → ℕ → Poll
at_pos a b = record { x = pos a; y = pos b; now_ms = 1000; last_client_ms = 0 }

-- The first poll is only recorded; the origin, a step of one pixel and the injected position are
-- passed over.
abbrev walk : List Poll
walk = at_pos 5 5 ∷ at_pos 9 9 ∷ at_pos 0 0 ∷ at_pos 9 10 ∷ at_pos 9 9 ∷ at_pos 9 12 ∷ []

walk_injects : polls walk new_conn ≡ (pos 9, pos 9) ∷ (pos 9, pos 12) ∷ []
unfolding polls poll inject_at client_quiet far distance ◌-ℤ◌
walk_injects = refl

injections-Spaced_example :
    Polled (polls walk new_conn) walk
    × (Spaced none (polls walk new_conn)
        × ((last_injection new_conn ≡ some (pos 9, pos 9) → (poll (at_pos 9 9) new_conn).1 ≡ none)
            × (1000 ≤ 0 + 250 → (poll (at_pos 9 9) new_conn).1 ≡ none)))
injections-Spaced_example = injections-Spaced walk (at_pos 9 9) new_conn

-- Display 0 is the server of the host, and display 1 that of gamescope.
abbrev display : ℕ → Server
display n = record {
  connects = n == 0 || n == 1;
  atom_reply = if n == 1 then some 300 else some 0;
  property_type = if n == 1 then some 6 else none;
}

abbrev loop_turn : ℕ → ℕ → Turn
loop_turn a b = record {
  now = 0;
  now_again = 0;
  server = display;
  is_lost = λ n. false;
  reply = λ n. some (at_pos a b);
}

loop_injects : (turns (loop_turn 5 5 ∷ loop_turn 9 9 ∷ []) no_conns).1 ≡ (1, (pos 9, pos 9)) ∷ []
unfolding turns turn visit discover is_gamescope poll inject_at client_quiet far distance ◌-ℤ◌
loop_injects = refl

turns-SaidGamescope_example :
    All
      (λ i. SaidGamescope (loop_turn 5 5 ∷ loop_turn 9 9 ∷ []) i.0)
      (turns (loop_turn 5 5 ∷ loop_turn 9 9 ∷ []) no_conns).1
turns-SaidGamescope_example = turns-SaidGamescope (loop_turn 5 5 ∷ loop_turn 9 9 ∷ [])
