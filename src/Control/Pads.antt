-- ===== src/Control/Pads.antt =====
-- media.cpp (server/src/server): the virtual pads of a media session, by controller number. `created`
-- tells whether `VirtualGamepad::create` returns a pad, `now` is the clock, and a shift by 32 or more,
-- which C++ leaves undefined, is told by `wide`.
use steamos_containerized.Common.{
  ltb, ◌==◌, if◌then◌else◌, is_some, ℕ, ◌/◌, ◌%◌, ◌^◌, Bool, not, Option, none, some, List, [], ◌∷◌,
}
use steamos_containerized.Input.{Event}
use steamos_containerized.Input.Pad.{Chord, new_chord, PadState, update}

abbrev pub Gamepads : Type 0
Gamepads = List (ℕ × Chord)

unfoldable pub find_pad : ℕ → Gamepads → Option Chord
find_pad n [] = none
find_pad n ((k, c) ∷ m) = if k == n then some c else find_pad n m

unfoldable pub erase_pad : ℕ → Gamepads → Gamepads
erase_pad n [] = []
erase_pad n ((k, c) ∷ m) = let rest = erase_pad n m in if k == n then rest else (k, c) ∷ rest

unfoldable pub gamepad_arrival : Bool → ℕ → Gamepads → Gamepads
unfolding find_pad
gamepad_arrival created n m =
    if is_some (find_pad n m) then m else if created then (n, new_chord) ∷ m else m

-- `active_gamepad_mask & (1u << controller_number)`
unfoldable pub present : (ℕ → ℕ → Bool) → ℕ → ℕ → Bool
present wide mask n = if ltb n 32 then mask / 2 ^ n % 2 == 1 else wide mask n

-- The pad of this number, which is made if it is not there.
abbrev pub pad_for : Bool → Option Chord → Option Chord
pad_for created none = if created then some new_chord else none
pad_for created (some c) = some c

abbrev pub update_pad : ℕ → PadState → ℕ → Gamepads → Option Chord → Gamepads × List Event
update_pad n p now m none = (m, [])
update_pad n p now m (some c) = let (c', evs) = update p now c in ((n, c') ∷ erase_pad n m, evs)

unfoldable pub gamepad_update :
    (ℕ → ℕ → Bool) → Bool → ℕ → ℕ → ℕ → PadState → Gamepads → Gamepads × List Event
unfolding present find_pad erase_pad update
gamepad_update wide created now n mask p m =
    if not (present wide mask n)
    then (erase_pad n m, [])
    else update_pad n p now m (pad_for created (find_pad n m))

-- A call for a pad, with the answers of its surroundings.
pub data PadCall : Type 0 where
  arrive : Bool → ℕ → PadCall
  drive : Bool → ℕ → ℕ → ℕ → PadState → PadCall

unfoldable pub pad_call : (ℕ → ℕ → Bool) → PadCall → Gamepads → Gamepads
unfolding gamepad_arrival gamepad_update
pad_call wide (arrive created n) m = gamepad_arrival created n m
pad_call wide (drive created now n mask p) m = (gamepad_update wide created now n mask p m).0

unfoldable pub pad_calls : (ℕ → ℕ → Bool) → List PadCall → Gamepads → Gamepads
unfolding pad_call
pad_calls wide [] m = m
pad_calls wide (c ∷ cs) m = pad_calls wide cs (pad_call wide c m)
