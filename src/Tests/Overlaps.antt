-- ===== src/Tests/Overlaps.antt =====
-- Overlapping PLAYs and stops.
use steamos_containerized.Common.{◌≡◌, refl, true, some, List, [], ◌∷◌, ◌++◌}
use steamos_containerized.Lifecycle.Threads.{
  initially, Tick, begin_play, look, decide, tear, launch, store, play_tick, tick, ticks,
}
use steamos_containerized.Lifecycle.Ownership.{Owned, ticks-Owned}
use steamos_containerized.Lifecycle.Races.{stops_while_launching, stop_while_launching}

abbrev first_play : List Tick
first_play = begin_play 7 ∷ look ∷ decide true ∷ tear ∷ launch ∷ store ∷ []

abbrev before_launch : List Tick
before_launch = begin_play 7 ∷ look ∷ decide true ∷ tear ∷ []

-- A resume leaves the held media session, and a PLAY of another session replaces it.
resumed_and_replaced :
    ((ticks (first_play ++ first_play) initially).media_holder ≡ some 0)
    × ((ticks
          (first_play ++ begin_play 8 ∷ look ∷ decide true ∷ tear ∷ launch ∷ store ∷ [])
          initially).stopped
        ≡ 0 ∷ [])
unfolding ticks tick play_tick
resumed_and_replaced = (refl, refl)

ticks-Owned_example : Owned (ticks first_play initially)
ticks-Owned_example = ticks-Owned first_play

stop_while_launching_example :
    ((ticks (stops_while_launching 7) (ticks before_launch initially)).media_holder ≡ some 0)
    × ((ticks (stops_while_launching 7) (ticks before_launch initially)).sid_of 0 ≡ 7)
    × ((ticks (stops_while_launching 7) (ticks before_launch initially)).stopping ≡ [])
    × ((ticks (stops_while_launching 7) (ticks before_launch initially)).stopped ≡ [])
unfolding ticks tick play_tick
stop_while_launching_example =
    stop_while_launching (ticks before_launch initially) 7 (ticks-Owned before_launch) refl
