-- ===== src/Lifecycle/Races.antt =====
-- main.cpp (server/src/server): what a stop and a PLAY do that overlap.
use steamos_containerized.Common.{ℕ, ◌≡◌, Bool, some, List, [], ◌∷◌, arith}
use steamos_containerized.Lifecycle.Threads.{
  idle, launching, storing, Threads, Tick, begin_play, look, decide, tear, launch, store,
  take_victim, play_tick, tick, ticks,
}
use steamos_containerized.Lifecycle.Ownership.{Owned}

-- A stop of a session before and after its media session is started, but not yet stored.
abbrev pub stops_while_launching : ℕ → List Tick
stops_while_launching sid = take_victim sid ∷ launch ∷ take_victim sid ∷ store ∷ []

-- A stop of a session that comes while the player launches it, before or after its media session is
-- started, stops nothing: that media session is held at the end.
pub stop_while_launching :
    (t : Threads) (sid : ℕ)
    → Owned t
    → t.player ≡ launching sid
    → ((ticks (stops_while_launching sid) t).media_holder ≡ some t.started)
      × ((ticks (stops_while_launching sid) t).sid_of t.started ≡ sid)
      × ((ticks (stops_while_launching sid) t).stopping ≡ t.stopping)
      × ((ticks (stops_while_launching sid) t).stopped ≡ t.stopped)
unfolding ticks tick play_tick
stop_while_launching t sid o e = ground (arith, o.free)

-- A stop of the held session, and a whole PLAY up to its launch before the stop returns.
abbrev pub play_beside_stop : ℕ → ℕ → Bool → List Tick
play_beside_stop a b active =
    take_victim a ∷ begin_play b ∷ look ∷ decide active ∷ tear ∷ launch ∷ []

-- A PLAY that begins while a stop of the held media session has not returned launches its own beside
-- it, without waiting: both are live.
pub launch_beside_stop :
    (t : Threads) (a b m : ℕ) (active : Bool)
    → t.player ≡ idle
    → t.media_holder ≡ some m
    → t.sid_of m ≡ a
    → ((ticks (play_beside_stop a b active) t).player ≡ storing t.started)
      × ((ticks (play_beside_stop a b active) t).stopping ≡ m ∷ t.stopping)
      × ((ticks (play_beside_stop a b active) t).stopped ≡ t.stopped)
unfolding ticks tick play_tick
launch_beside_stop t a b m active p h s = ground arith
