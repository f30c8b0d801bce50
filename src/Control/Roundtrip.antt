-- ===== src/Control/Roundtrip.antt =====
-- control_packets.hpp and control.cpp (server/src/server): the fields of a CONTROLLER_MULTI packet, as a
-- client lays them out, against what `handle_input` reads.
use steamos_containerized.Common.{
  Text, ℕ, ◌-◌, ◌/◌, ◌%◌, ◌≡◌, ◌∷◌, ◌++◌, arith, ◌+◌, ◌*◌, ◌<◌, true, some, [],
}
use steamos_containerized.Common.Int.{ℤ, pos, negsuc, IsShort}
use steamos_containerized.Session.{VideoParams}
use steamos_containerized.Input.Pad.{PadState}
use steamos_containerized.Control.{short, u8_at, le16_at, le32_at, gamepad_update}
use steamos_containerized.Control.Inputs.{read_multi, input_of, handle_input}

abbrev le16 : ℕ → Text → Text
le16 n rest = n % 256 ∷ n / 256 ∷ rest

-- A `short` as an unsigned number.
abbrev unsigned : ℤ → ℕ
unsigned (pos n) = n
unsigned (negsuc n) = 65535 - n

-- The packet of a client: the four fields before the number are not read but for the type.
unfoldable pub multi_packet : Text → ℕ → ℕ → PadState → Text → Text
multi_packet header number mask p tail =
    header
    ++ 12
      ∷ 0
      ∷ 0
      ∷ 0
      ∷ 26
      ∷ 0
      ∷ le16 number (
          le16 mask (
            20
            ∷ 0
            ∷ le16 p.button_flags (
                p.left_trigger
                ∷ p.right_trigger
                ∷ le16 (unsigned p.left_x) (
                    le16 (unsigned p.left_y)
                      (le16 (unsigned p.right_x) (le16 (unsigned p.right_y) tail))))))

short-unsigned : (x : ℤ) → IsShort x → short (unsigned x) ≡ x
unfolding short
short-unsigned (pos n) h = ground arith
short-unsigned (negsuc n) h = ground arith

-- The arguments have the ranges of their fields.
pub record Fits (number mask : ℕ) (p : PadState) : Type 0 where
  pub number_fits : number < 65536
  pub mask_fits : mask < 65536
  pub flags_fit : p.button_flags < 65536
  pub lx : IsShort p.left_x
  pub ly : IsShort p.left_y
  pub rx : IsShort p.right_x
  pub ry : IsShort p.right_y

le16_value : (n : ℕ) → n % 256 + 256 * (n / 256) ≡ n
le16_value n = ground arith

unsigned_fits : (x : ℤ) → IsShort x → unsigned x < 65536
unsigned_fits (pos n) h = ground arith
unsigned_fits (negsuc n) h = ground arith

-- Of a packet that a client lays out from arguments in the ranges of their fields, whatever its first
-- eight bytes and its tail, the server makes the one update of a pad with the same arguments.
pub handle_input-multi_packet :
    (video : VideoParams) (a b c d e f g h : ℕ) (number mask : ℕ) (p : PadState) (tail : Text)
    → Fits number mask p
    → handle_input video true (multi_packet (a ∷ b ∷ c ∷ d ∷ e ∷ f ∷ g ∷ h ∷ []) number mask p tail)
      ≡ some (gamepad_update number mask p ∷ [])
unfolding handle_input input_of read_multi multi_packet le16_at le32_at u8_at
handle_input-multi_packet video a b c d e f g h number mask p tail fits = simp (
  le16_value,
  short-unsigned p.left_x fits.lx,
  short-unsigned p.left_y fits.ly,
  short-unsigned p.right_x fits.rx,
  short-unsigned p.right_y fits.ry,
)
