-- ===== src/Lifecycle/Threads.antt =====
-- main.cpp (server/src/server): `on_play` and `stop_session` on different threads. RTSP callbacks run
-- on one thread, so there is one player; any number of threads stop. A tick is what a thread does
-- under one hold of `media_mtx`, or between two of them; a tick that its thread is not ready for does
-- nothing. Media sessions are numbered as they are started. What a resume does to its media session,
-- and a PLAY of a session that the registry does not have, is in Lifecycle.
use steamos_containerized.Common.{
  ◌==◌, if◌then◌else◌, ℕ, zero, suc, ◌+◌, Bool, false, ◌&&◌, Option, none, some, List, [], ◌∷◌,
  ◌++◌,
}

-- Where the RTSP thread is in `on_play`, and what it has in its hands.
pub data Player : Type 0 where
  idle : Player
  looking : ℕ → Player
  deciding : ℕ → Option ℕ → Player
  tearing : ℕ → Option ℕ → Player
  launching : ℕ → Player
  storing : ℕ → Player

-- `stopping` holds the victims whose `stop` has not returned, `sid_of` the session of a media session.
pub record Threads : Type 0 where
  pub media_holder : Option ℕ
  pub player : Player
  pub stopping : List ℕ
  pub stopped : List ℕ
  pub started : ℕ
  pub sid_of : ℕ → ℕ

abbrev pub initially : Threads
initially = record {
  media_holder = none;
  player = idle;
  stopping = [];
  stopped = [];
  started = 0;
  sid_of = λ m. 0;
}

pub data Tick : Type 0 where
  begin_play : ℕ → Tick
  look : Tick
  decide : Bool → Tick
  tear : Tick
  launch : Tick
  store : Tick
  take_victim : ℕ → Tick
  stop_returns : ℕ → Tick

-- The test for a resume: the media session found is of this session and `is_active`.
abbrev resumes : ℕ → Threads → Bool → Option ℕ → Bool
resumes sid t active none = false
resumes sid t active (some m) = t.sid_of m == sid && active

abbrev pub held : Option ℕ → List ℕ
held none = []
held (some m) = m ∷ []

-- The tick of the player, from where it is.
unfoldable pub play_tick : Tick → Player → Threads → Threads
play_tick (begin_play sid) idle t = record t { player = looking sid }
play_tick look (looking sid) t = record t { player = deciding sid t.media_holder }
play_tick (decide active) (deciding sid existing) t =
    if resumes sid t active existing
    then record t { player = idle }
    else record t { media_holder = none; player = tearing sid t.media_holder }
play_tick tear (tearing sid previous) t = record t {
  stopped = held previous ++ t.stopped;
  player = launching sid;
}
play_tick launch (launching sid) t = record t {
  player = storing t.started;
  started = t.started + 1;
  sid_of = λ m. if m == t.started then sid else t.sid_of m;
}
play_tick store (storing m) t = record t { media_holder = some m; player = idle }
play_tick _ _ t = t

abbrev take_from : ℕ → Threads → Option ℕ → Threads
take_from sid t none = t
take_from sid t (some m) =
    if t.sid_of m == sid then record t { media_holder = none; stopping = m ∷ t.stopping } else t

-- The victim of this number of threads, and the others.
unfoldable pub pick : ℕ → List ℕ → List ℕ × List ℕ
pick i [] = ([], [])
pick zero (m ∷ ms) = (m ∷ [], ms)
pick (suc i) (m ∷ ms) = let (picked, rest) = pick i ms in (picked, m ∷ rest)

unfoldable pub tick : Tick → Threads → Threads
unfolding play_tick pick
tick (take_victim sid) t = take_from sid t t.media_holder
tick (stop_returns i) t =
    let (picked, rest) = pick i t.stopping in
    record t { stopping = rest; stopped = picked ++ t.stopped }
tick k t = play_tick k t.player t

unfoldable pub ticks : List Tick → Threads → Threads
unfolding tick
ticks [] t = t
ticks (k ∷ ks) t = ticks ks (tick k t)
