-- ===== src/Lifecycle/Ownership.antt =====
-- main.cpp (server/src/server): who has a media session, over all interleavings of the threads.
use steamos_containerized.Common.{
  ◌==◌, if◌then◌else◌, ℕ, zero, suc, ◌+◌, ◌≤◌, ◌<◌, ◌≡◌, Option, none, List, [], ◌∷◌, ◌++◌, arith,
  refl, ◌⊎◌, inl, inr,
}
use steamos_containerized.Lifecycle.Threads.{
  Player, tearing, launching, storing, Threads, Tick, held, play_tick, pick, tick, idle, looking,
  deciding, begin_play, look, decide, tear, launch, store, take_victim, stop_returns, initially,
  ticks,
}

-- How often a media session stands in a list.
unfoldable pub times : ℕ → List ℕ → ℕ
times m [] = 0
times m (k ∷ ks) = let rest = times m ks in if k == m then suc rest else rest

times-append : (m : ℕ) (xs ys : List ℕ) → times m (xs ++ ys) ≡ times m xs + times m ys
unfolding times
times-append m [] ys = omega arith
times-append m (k ∷ xs) ys = ground (arith, times-append m xs ys)

-- What the player will have to stop or to store.
abbrev pub in_hand : Player → List ℕ
in_hand (tearing sid previous) = held previous
in_hand (storing m) = m ∷ []
in_hand _ = []

-- How many owners and graves a media session has.
abbrev pub places : ℕ → Threads → ℕ
places m t =
    times m (held t.media_holder)
    + times m (in_hand t.player)
    + times m t.stopping
    + times m t.stopped

-- Nothing is held from the swap of a fresh launch to its store.
abbrev pub IsFree : Player → Option ℕ → Type 0
IsFree (tearing sid previous) holder = holder ≡ none
IsFree (launching sid) holder = holder ≡ none
IsFree (storing m) holder = holder ≡ none
IsFree _ holder = Unit

pub record Owned (t : Threads) : Type 0 where
  pub once : (m : ℕ) → m < t.started → places m t ≡ 1
  pub none_else : (m : ℕ) → t.started ≤ m → places m t ≡ 0
  pub free : IsFree t.player t.media_holder

times-pick : (m i : ℕ) (xs : List ℕ) → times m (pick i xs).0 + times m (pick i xs).1 ≡ times m xs
unfolding times pick
times-pick m i [] = omega arith
times-pick m zero (k ∷ xs) = ground arith
times-pick m (suc i) (k ∷ xs) = ground (arith, times-pick m i xs)

-- A tick moves media sessions between the places, and a launch adds the one that it starts.
Moves : ℕ → Threads → Threads → Type 0
Moves m t u =
    ((u.started ≡ t.started) × (places m u ≡ places m t))
    ⊎ ((u.started ≡ t.started + 1)
        × (places m u ≡ (if t.started == m then suc (places m t) else places m t)))

play_tick-Moves :
    (k : Tick) (p : Player) (t : Threads) (m : ℕ)
    → t.player ≡ p
    → IsFree p t.media_holder
    → Moves m t (play_tick k p t)
unfolding play_tick times Moves
play_tick-Moves (begin_play sid) idle t m e f = inl (refl, ground arith)
play_tick-Moves look (looking sid) t m e f = inl (refl, ground arith)
play_tick-Moves (decide active) (deciding sid existing) t m e f = ground arith
play_tick-Moves tear (tearing sid previous) t m e f =
    inl (refl, ground (arith, times-append m (held previous) t.stopped))
play_tick-Moves launch (launching sid) t m e f = inr (refl, ground arith)
play_tick-Moves store (storing n) t m e f = inl (refl, ground arith)
play_tick-Moves _ _ t m e f = inl (refl, refl)

tick-Moves :
    (k : Tick) (t : Threads) (m : ℕ) → IsFree t.player t.media_holder → Moves m t (tick k t)
unfolding tick times Moves
tick-Moves (take_victim sid) t m f = inl (ground arith, ground arith)
tick-Moves (stop_returns i) t m f = inl (
  refl,
  ground (arith, times-pick m i t.stopping, times-append m (pick i t.stopping).0 t.stopped),
)
tick-Moves k t m f = play_tick-Moves k t.player t m refl f

tick-IsFree :
    (k : Tick) (t : Threads)
    → IsFree t.player t.media_holder
    → IsFree (tick k t).player (tick k t).media_holder
unfolding tick play_tick
tick-IsFree k t f = ground arith

tick-Owned : (k : Tick) (t : Threads) → Owned t → Owned (tick k t)
unfolding Moves
tick-Owned k t o = record {
  once = λ m h. ground (arith, tick-Moves k t m o.free, o.once m, o.none_else m);
  none_else = λ m h. ground (arith, tick-Moves k t m o.free, o.none_else m);
  free = tick-IsFree k t o.free;
}

keeps-Owned : (ks : List Tick) (t : Threads) → Owned t → Owned (ticks ks t)
unfolding ticks
keeps-Owned [] t o = o
keeps-Owned (k ∷ ks) t o = keeps-Owned ks (tick k t) (tick-Owned k t o)

initially-Owned : Owned initially
unfolding times
initially-Owned = record { once = λ m h. ground arith; none_else = λ m h. refl; free = tt }

-- In every interleaving of PLAYs and stops, each media session that was started is in exactly one
-- place: held, in the hands of the player, being stopped by one thread, or stopped once; and while the
-- player launches, nothing is held, so its store drops no media session.
pub ticks-Owned : (ks : List Tick) → Owned (ticks ks initially)
ticks-Owned ks = keeps-Owned ks initially initially-Owned
