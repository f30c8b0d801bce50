-- ===== src/Control.antt =====
-- control.cpp and control_packets.hpp (server/src/server): the control channel over ENet, which is a
-- parameter as the events that it reports. What follows a packet in memory is not known, so a read past
-- the end of a packet, or past the NUL after a decrypted text, has no value: the result is `none`.
pub mod Layout
pub mod Inputs
pub mod Dispatch
pub mod Pads
pub mod Admit
pub mod Bounds
pub mod Roundtrip
pub mod Slots
use steamos_containerized.Common.{
  ltb, if◌then◌else◌, get_elem?, Text, ℕ, ◌+◌, ◌-◌, ◌*◌, Bool, Option, none, some,
}
use steamos_containerized.Common.Int.{ℤ, pos, negsuc}
use steamos_containerized.Input.{Code}
use steamos_containerized.Input.Pad.{PadState}

-- Bytes in the order of the wire, as packed fields.
abbrev pub two : Option ℕ → Option ℕ → Option ℕ
two (some a) (some b) = some (a + 256 * b)
two _ _ = none

unfoldable pub u8_at : ℕ → Text → Option ℕ
u8_at i t = get_elem? t i

unfoldable pub le16_at : ℕ → Text → Option ℕ
unfolding u8_at
le16_at i t = two (u8_at i t) (u8_at (i + 1) t)

unfoldable pub be16_at : ℕ → Text → Option ℕ
unfolding u8_at
be16_at i t = two (u8_at (i + 1) t) (u8_at i t)

abbrev pub four : Option ℕ → Option ℕ → Option ℕ
four (some a) (some b) = some (a + 65536 * b)
four _ _ = none

unfoldable pub le32_at : ℕ → Text → Option ℕ
unfolding le16_at
le32_at i t = four (le16_at i t) (le16_at (i + 2) t)

-- A 16-bit number as a `short`.
unfoldable pub short : ℕ → ℤ
short n = if ltb n 32768 then pos n else negsuc (65535 - n)

infixl 5 ◌>>=◌
abbrev pub ◌>>=◌ {ℓ κ} : {A : Type ℓ} {B : Type κ} → Option A → (A → Option B) → Option B
none >>= f = none
some a >>= f = f a

-- `v / over * by` in `float`
pub record Scaled : Type 0 where
  pub v : ℤ
  pub over : ℤ
  pub by_ : ℤ

-- What the control channel calls of a `MediaSession`.
pub data MediaCall : Type 0 where
  mouse_move_rel : ℤ → ℤ → MediaCall
  mouse_move_abs : Scaled → Scaled → MediaCall
  mouse_button : Code → Bool → MediaCall
  mouse_axis : ℤ → ℤ → MediaCall
  keyboard_key : Code → Bool → MediaCall
  gamepad_arrival : ℕ → MediaCall
  gamepad_update : ℕ → ℕ → PadState → MediaCall
