-- ===== src/Control/Inputs.antt =====
-- control.cpp (server/src/server): `handle_input`. `media` tells whether there is a `MediaSession`.
use steamos_containerized.Common.{
  ◌==◌, if◌then◌else◌, Text, ℕ, ◌%◌, Bool, true, false, ◌&&◌, Option, none, some, List, [], ◌∷◌,
}
use steamos_containerized.Common.Int.{ℤ, pos, ◌-ℤ◌, ltb_ℤ}
use steamos_containerized.Session.{VideoParams}
use steamos_containerized.Input.{Code, moonlight_button_to_linux}
use steamos_containerized.Input.Keys.{moonlight_key_to_linux}
use steamos_containerized.Control.{
  u8_at, le16_at, be16_at, le32_at, short, ◌>>=◌, Scaled, MediaCall, mouse_move_rel, mouse_move_abs,
  mouse_button, mouse_axis, keyboard_key, gamepad_arrival, gamepad_update,
}

-- `if (mm) mm->...`, which does not read the packet without a media session
abbrev pub when : Bool → Option MediaCall → Option (List MediaCall)
when false c = some []
when true none = none
when true (some c) = some (c ∷ [])

abbrev positive : ℤ → Bool
positive x = ltb_ℤ (pos 0) x

-- The size of the output: that of the session, if it is positive.
abbrev out_size : ℤ → ℤ → ℤ
out_size own sent = if positive own then own else sent

abbrev pub scaled : ℤ → ℤ → ℤ → Scaled
scaled v over by_ = record { v = v; over = over; by_ = by_ }

unfoldable pub move_abs_input : VideoParams → Bool → Text → Option (List MediaCall)
unfolding be16_at
move_abs_input video media t = do
  x ← be16_at 12 t
  y ← be16_at 14 t
  w ← be16_at 18 t
  h ← be16_at 20 t
  if media && positive (short w) && positive (short h)
      then some (
          mouse_move_abs (scaled (short x) (short w) (out_size video.width (short w)))
            (scaled (short y) (short h) (out_size video.height (short h)))
          ∷ [])
      else some []

abbrev pub pressed_key : Bool → Bool → Option Code → List MediaCall
pressed_key media press none = []
pressed_key media press (some code) = if media then keyboard_key code press ∷ [] else []

unfoldable pub key_input : Bool → Bool → Text → Option (List MediaCall)
unfolding le16_at moonlight_key_to_linux
key_input media press t = do
  code ← le16_at 13 t
  some (pressed_key media press (moonlight_key_to_linux (pos (code % 32768))))

unfoldable pub read_multi : Text → Option MediaCall
unfolding le16_at u8_at
read_multi t = do
  number ← le16_at 14 t
  mask ← le16_at 16 t
  flags ← le16_at 20 t
  lt ← u8_at 22 t
  rt ← u8_at 23 t
  lx ← le16_at 24 t
  ly ← le16_at 26 t
  rx ← le16_at 28 t
  ry ← le16_at 30 t
  some (
      gamepad_update number mask (record {
        button_flags = flags;
        left_trigger = lt;
        right_trigger = rt;
        left_x = short lx;
        left_y = short ly;
        right_x = short rx;
        right_y = short ry;
      }))

abbrev read_rel : Text → Option MediaCall
read_rel t = do dx ← be16_at 12 t; dy ← be16_at 14 t; some (mouse_move_rel (short dx) (short dy))

abbrev read_button : Bool → Text → Option MediaCall
read_button press t = do
  b ← u8_at 12 t
  some (mouse_button (moonlight_button_to_linux (pos b)) press)

abbrev read_scroll : Text → Option MediaCall
read_scroll t = do a ← be16_at 12 t; some (mouse_axis (pos 0) (pos 0 -ℤ short a))

abbrev read_hscroll : Text → Option MediaCall
read_hscroll t = do a ← be16_at 12 t; some (mouse_axis (short a) (pos 0))

abbrev read_arrival : Text → Option MediaCall
read_arrival t = do n ← u8_at 12 t; some (gamepad_arrival n)

-- The switch on `pkt->type`.
unfoldable pub input_of : VideoParams → Bool → ℕ → Text → Option (List MediaCall)
unfolding move_abs_input key_input read_multi
input_of video media type t =
    if type == 7
    then when media (read_rel t)
    else if type == 5
    then move_abs_input video media t
    else if type == 8
    then when media (read_button true t)
    else if type == 9
    then when media (read_button false t)
    else if type == 10
    then when media (read_scroll t)
    else if type == 1426063361
    then when media (read_hscroll t)
    else if type == 3
    then key_input media true t
    else if type == 4
    then key_input media false t
    else if type == 1426063364
    then when media (read_arrival t)
    else if type == 12
    then when media (read_multi t)
    else some []

unfoldable pub handle_input : VideoParams → Bool → Text → Option (List MediaCall)
unfolding input_of
handle_input video media t = do type ← le32_at 8 t; input_of video media type t
