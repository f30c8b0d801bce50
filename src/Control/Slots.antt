-- ===== src/Control/Slots.antt =====
-- media.cpp (server/src/server): the map of virtual pads against one slot for each controller.
use native.Mathlib.Nat.{div-div-eq-div-mul}
use steamos_containerized.Control.Pads.{
  Gamepads, find_pad, erase_pad, gamepad_arrival, present, pad_for, update_pad, gamepad_update,
  PadCall, arrive, drive, pad_call, pad_calls,
}
use steamos_containerized.Common.{
  ltb, zero, suc, ◌/◌, ◌%◌, ◌^◌, sym, ◌==◌, if◌then◌else◌, is_some, ℕ, ◌≡◌, refl, ap, ◌∙◌, Bool,
  false, Option, none, some, List, [], ◌∷◌, arith, true, not, ==_iff, Bool-cases, inl, inr, ◌*◌,
}
use steamos_containerized.Input.Pad.{Chord, PadState, update}

find_pad-erase_pad :
    (n k : ℕ) (m : Gamepads) → find_pad k (erase_pad n m) ≡ (if n == k then none else find_pad k m)
unfolding find_pad erase_pad
find_pad-erase_pad n k [] = ground arith
find_pad-erase_pad n k ((j, c) ∷ m) = ground (arith, find_pad-erase_pad n k m)

-- What a call does to the pad of controller `k`, told by the calls for `k` alone.
abbrev driven : ℕ → PadState → Option Chord → Option Chord
driven now p none = none
driven now p (some c) = some (update p now c).0

-- Bit `n` of a mask: that many halvings, and whether what is left is odd.
abbrev pub bit : ℕ → ℕ → Bool
bit mask zero = mask % 2 == 1
bit mask (suc n) = bit (mask / 2) n

-- What a shift by 32 or more gives is not known.
abbrev has_bit : (ℕ → ℕ → Bool) → ℕ → ℕ → Bool
has_bit wide mask n = if ltb n 32 then bit mask n else wide mask n

two_pow_suc : (n : ℕ) → 2 * 2 ^ n ≡ 2 ^ (suc n)
two_pow_suc n = omega arith

shifted-bit : (n mask : ℕ) → (mask / 2 ^ n % 2 == 1) ≡ bit mask n
shifted-bit zero mask = ap (λ m. m % 2 == 1) (omega arith)
shifted-bit (suc n) mask =
    ap (λ m. m % 2 == 1)
      (sym (div-div-eq-div-mul mask 2 (2 ^ n) ∙ ap (λ p. mask / p) (two_pow_suc n)))
    ∙ shifted-bit n (mask / 2)

present-has_bit : (wide : ℕ → ℕ → Bool) (mask n : ℕ) → present wide mask n ≡ has_bit wide mask n
unfolding present
present-has_bit wide mask n = ap (λ b. if ltb n 32 then b else wide mask n) (shifted-bit n mask)

slot_call : (ℕ → ℕ → Bool) → ℕ → PadCall → Option Chord → Option Chord
slot_call wide k (arrive created n) o = if n == k then pad_for created o else o
slot_call wide k (drive created now n mask p) o =
    if n == k then (if has_bit wide mask n then driven now p (pad_for created o) else none) else o

unfoldable pub slot_calls : (ℕ → ℕ → Bool) → ℕ → List PadCall → Option Chord → Option Chord
unfolding slot_call
slot_calls wide k [] o = o
slot_calls wide k (c ∷ cs) o = slot_calls wide k cs (slot_call wide k c o)

find_pad-update_pad :
    (n k now : ℕ) (p : PadState) (m : Gamepads) (o : Option Chord)
    → (is_some o ≡ false → find_pad n m ≡ none)
    → find_pad k (update_pad n p now m o).0 ≡ (if n == k then driven now p o else find_pad k m)
unfolding find_pad
find_pad-update_pad n k now p m none h = ground arith
find_pad-update_pad n k now p m (some c) h = ground (arith, find_pad-erase_pad n k m)

missing : (created : Bool) (o : Option Chord) → is_some (pad_for created o) ≡ false → o ≡ none
missing created none e = refl
missing created (some c) e = cc e

find_pad-driven :
    (n k now : ℕ) (created here : Bool) (p : PadState) (m : Gamepads)
    → find_pad k
        (if not here
          then (erase_pad n m, [])
          else update_pad n p now m (pad_for created (find_pad n m))).0
      ≡ (if n == k
          then (if here then driven now p (pad_for created (find_pad k m)) else none)
          else find_pad k m)
find_pad-driven n k now created false p m = find_pad-erase_pad n k m
find_pad-driven n k now created true p m =
    let made = pad_for created (find_pad n m) in
    let now_there = find_pad-update_pad n k now p m made (missing created (find_pad n m)) in
    elim (Bool-cases (n == k)) [
      | inl t ↦ ground (arith, now_there, ap (λ i. find_pad i m) ((==_iff n k).0 t))
      | inr f ↦ ground (arith, now_there)
    ]

find_pad-pad_call :
    (wide : ℕ → ℕ → Bool) (k : ℕ) (c : PadCall) (m : Gamepads)
    → find_pad k (pad_call wide c m) ≡ slot_call wide k c (find_pad k m)
unfolding pad_call slot_call gamepad_arrival gamepad_update find_pad
find_pad-pad_call wide k (arrive created n) m = ground arith
find_pad-pad_call wide k (drive created now n mask p) m =
    find_pad-driven n k now created (present wide mask n) p m
    ∙ ap
        (λ b.
          if n == k
          then (if b then driven now p (pad_for created (find_pad k m)) else none)
          else find_pad k m)
        (present-has_bit wide mask n)

-- After any sequence of arrivals and updates, the pad of a controller, with its chord, is what the
-- calls for this controller alone make of it: an arrival keeps a pad that is there, an update makes
-- a missing one if it can, and an update without the bit of its number in the mask removes it.
pub pad_calls-slot_calls :
    (wide : ℕ → ℕ → Bool) (k : ℕ) (cs : List PadCall) (m : Gamepads)
    → find_pad k (pad_calls wide cs m) ≡ slot_calls wide k cs (find_pad k m)
unfolding pad_calls slot_calls
pad_calls-slot_calls wide k [] m = refl
pad_calls-slot_calls wide k (c ∷ cs) m =
    pad_calls-slot_calls wide k cs (pad_call wide c m)
    ∙ ap (slot_calls wide k cs) (find_pad-pad_call wide k c m)
