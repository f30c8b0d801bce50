-- ===== src/Input.antt =====
-- uinput.cpp (server/src/server): the virtual mouse and keyboard, and what the virtual pad shares with
-- them. The codes of linux/input-event-codes.h are constructors, since only their names are used. An
-- event that `emit` writes is a value; the descriptor of a created device is not negative, and a write
-- that fails is only logged.
pub mod Keys
pub mod Pad
pub mod Chord
pub mod Home
pub mod Declared
use steamos_containerized.Common.{
  if◌then◌else◌, zero, suc, Bool, true, false, ◌&&◌, Option, none, some, List, [], ◌∷◌, ◌++◌, map,
}
use steamos_containerized.Common.Int.{ℤ, pos, negsuc}

pub data Code : Type 0 where
  btn_left btn_right btn_middle btn_side btn_extra btn_start btn_select btn_mode : Code
  btn_thumbl btn_thumbr btn_tl btn_tr btn_a btn_b btn_x btn_y rel_x rel_y rel_wheel : Code
  rel_hwheel abs_x abs_y abs_rx abs_ry abs_z abs_rz abs_hat0x abs_hat0y syn_report : Code
  key_backspace key_tab key_clear key_enter key_leftshift key_leftctrl key_leftalt : Code
  key_pause key_capslock key_esc key_space key_pageup key_pagedown key_end key_home : Code
  key_left key_up key_right key_down key_sysrq key_insert key_delete key_0 key_1 key_2 : Code
  key_3 key_4 key_5 key_6 key_7 key_8 key_9 key_a key_b key_c key_d key_e key_f key_g : Code
  key_h key_i key_j key_k key_l key_m key_n key_o key_p key_q key_r key_s key_t key_u : Code
  key_v key_w key_x key_y key_z key_leftmeta key_rightmeta key_kp0 key_kp1 key_kp2 key_kp3 : Code
  key_kp4 key_kp5 key_kp6 key_kp7 key_kp8 key_kp9 key_kpasterisk key_kpplus key_kpminus : Code
  key_kpdot key_kpslash key_f1 key_f2 key_f3 key_f4 key_f5 key_f6 key_f7 key_f8 key_f9 : Code
  key_f10 key_f11 key_f12 key_numlock key_scrolllock key_rightshift key_rightctrl : Code
  key_rightalt key_semicolon key_equal key_comma key_minus key_dot key_slash key_grave : Code
  key_leftbrace key_backslash key_rightbrace key_apostrophe key_102nd : Code

pub data EvType : Type 0 where
  ev_syn ev_key ev_rel ev_abs : EvType

-- `input_event`, without its time
pub record Event : Type 0 where
  pub type : EvType
  pub code : Code
  pub value : ℤ

abbrev pub emit : EvType → Code → ℤ → Event
emit t c v = record { type = t; code = c; value = v }

abbrev pub syn : Event
syn = emit ev_syn syn_report (pos 0)

-- What is asked of the kernel while a device is made; `abs_setup` has the least and greatest value.
pub data Ioctl : Type 0 where
  set_evbit : EvType → Ioctl
  set_keybit : Code → Ioctl
  set_relbit : Code → Ioctl
  set_absbit : Code → Ioctl
  abs_setup : Code → ℤ → ℤ → Ioctl

-- The answers of the kernel: whether /dev/uinput opens, UI_DEV_SETUP and UI_DEV_CREATE.
pub record Kernel : Type 0 where
  pub opens : Bool
  pub sets_up : Bool
  pub creates : Bool

abbrev pub finish_create : Kernel → Bool
finish_create k = k.sets_up && k.creates

-- A device, by what it asked for, or a null pointer.
unfoldable pub create_device : List Ioctl → Kernel → Option (List Ioctl)
create_device asked k = if k.opens && finish_create k then some asked else none

abbrev pub sign_bit : Bool → ℤ
sign_bit true = pos 1
sign_bit false = pos 0

unfoldable pub moonlight_button_to_linux : ℤ → Code
moonlight_button_to_linux (pos (suc zero)) = btn_left
moonlight_button_to_linux (pos (suc (suc zero))) = btn_middle
moonlight_button_to_linux (pos (suc (suc (suc zero)))) = btn_right
moonlight_button_to_linux (pos (suc (suc (suc (suc zero))))) = btn_side
moonlight_button_to_linux _ = btn_extra

abbrev mouse_axis : Code → List Ioctl
mouse_axis a = set_absbit a ∷ abs_setup a (pos 0) (pos 65535) ∷ []

abbrev pub mouse_ioctls : List Ioctl
mouse_ioctls =
    set_evbit ev_key
      ∷ map set_keybit (btn_left ∷ btn_right ∷ btn_middle ∷ btn_side ∷ btn_extra ∷ [])
    ++ set_evbit ev_rel ∷ map set_relbit (rel_x ∷ rel_y ∷ rel_wheel ∷ rel_hwheel ∷ [])
    ++ set_evbit ev_abs ∷ mouse_axis abs_x
    ++ mouse_axis abs_y

-- A call of the mouse.
pub data MouseCall : Type 0 where
  move_rel : ℤ → ℤ → MouseCall
  move_abs : ℤ → ℤ → MouseCall
  button : ℤ → Bool → MouseCall
  vscroll : ℤ → MouseCall
  hscroll : ℤ → MouseCall

-- `if (d) emit(...)`
abbrev pub moved : Code → ℤ → List Event
moved c (pos zero) = []
moved c d = emit ev_rel c d ∷ []

-- `amount > 0 ? 1 : (amount < 0 ? -1 : 0)`
abbrev pub scroll_step : ℤ → ℤ
scroll_step (pos zero) = pos 0
scroll_step (pos (suc n)) = pos 1
scroll_step (negsuc n) = negsuc 0

unfoldable pub mouse_call : MouseCall → List Event
unfolding moonlight_button_to_linux
mouse_call (move_rel dx dy) = moved rel_x dx ++ moved rel_y dy ++ syn ∷ []
mouse_call (move_abs x y) = emit ev_abs abs_x x ∷ emit ev_abs abs_y y ∷ syn ∷ []
mouse_call (button b pressed) =
    emit ev_key (moonlight_button_to_linux b) (sign_bit pressed) ∷ syn ∷ []
mouse_call (vscroll amount) = emit ev_rel rel_wheel (scroll_step amount) ∷ syn ∷ []
mouse_call (hscroll amount) = emit ev_rel rel_hwheel (scroll_step amount) ∷ syn ∷ []
