-- ===== src/Input/Pad.antt =====
-- uinput.cpp (server/src/server): `VirtualGamepad`. The clock is an argument of `update`, in
-- milliseconds. A difference of times that is negative is below both thresholds, as 0 is.
use steamos_containerized.Common.{
  leb, ◌==◌, if◌then◌else◌, ℕ, ◌-◌, ◌/◌, ◌%◌, Bool, true, false, not, ◌&&◌, ◌||◌, List, [], ◌∷◌,
  ◌++◌, map,
}
use steamos_containerized.Common.Int.{ℤ, pos, negsuc, ◌-ℤ◌}
use steamos_containerized.Input.{
  Code, ev_key, ev_abs, Event, emit, syn, Ioctl, set_evbit, set_keybit, set_absbit, abs_setup,
  sign_bit, btn_start, btn_select, btn_mode, btn_thumbl, btn_thumbr, btn_tl, btn_tr, btn_a, btn_b,
  btn_x, btn_y, abs_x, abs_y, abs_rx, abs_ry, abs_z, abs_rz, abs_hat0x, abs_hat0y,
}

-- `flags & m`, for a mask `m` of one bit
unfoldable pub has : ℕ → ℕ → Bool
has flags m = flags / m % 2 == 1

pub record PadBtn : Type 0 where
  pub ml : ℕ
  pub code : Code

abbrev pad_btn : ℕ → Code → PadBtn
pad_btn m c = record { ml = m; code = c }

abbrev pub pad_buttons : List PadBtn
pad_buttons =
    pad_btn 16 btn_start
    ∷ pad_btn 32 btn_select
    ∷ pad_btn 1024 btn_mode
    ∷ pad_btn 64 btn_thumbl
    ∷ pad_btn 128 btn_thumbr
    ∷ pad_btn 256 btn_tl
    ∷ pad_btn 512 btn_tr
    ∷ pad_btn 4096 btn_a
    ∷ pad_btn 8192 btn_b
    ∷ pad_btn 16384 btn_x
    ∷ pad_btn 32768 btn_y
    ∷ []

abbrev abs_axis : Code → ℤ → ℤ → List Ioctl
abs_axis code least greatest = set_absbit code ∷ abs_setup code least greatest ∷ []

abbrev stick_axis : Code → List Ioctl
stick_axis code = abs_axis code (negsuc 32767) (pos 32767)

abbrev button_ioctl : PadBtn → Ioctl
button_ioctl b = set_keybit b.code

abbrev pub gamepad_ioctls : List Ioctl
gamepad_ioctls =
    set_evbit ev_key ∷ map button_ioctl pad_buttons
    ++ set_evbit ev_abs ∷ stick_axis abs_x
    ++ stick_axis abs_y
    ++ stick_axis abs_rx
    ++ stick_axis abs_ry
    ++ abs_axis abs_z (pos 0) (pos 255)
    ++ abs_axis abs_rz (pos 0) (pos 255)
    ++ abs_axis abs_hat0x (negsuc 0) (pos 1)
    ++ abs_axis abs_hat0y (negsuc 0) (pos 1)

-- The chord state of a pad.
pub record Chord : Type 0 where
  pub back_held : Bool
  pub home_fired : Bool
  pub home_down : Bool
  pub back_press_ms : ℕ
  pub home_press_ms : ℕ

abbrev pub new_chord : Chord
new_chord = record {
  back_held = false;
  home_fired = false;
  home_down = false;
  back_press_ms = 0;
  home_press_ms = 0;
}

-- The arguments of `update`.
pub record PadState : Type 0 where
  pub button_flags : ℕ
  pub left_trigger : ℕ
  pub right_trigger : ℕ
  pub left_x : ℤ
  pub left_y : ℤ
  pub right_x : ℤ
  pub right_y : ℤ

abbrev pub back_flag : ℕ
back_flag = 32

abbrev pub hold_ms : ℕ
hold_ms = 750

abbrev pub home_hold_ms : ℕ
home_hold_ms = 120

abbrev pub select_tap : List Event
select_tap = emit ev_key btn_select (pos 1) ∷ syn ∷ emit ev_key btn_select (pos 0) ∷ syn ∷ []

unfoldable pub chord_back : Bool → ℕ → Chord → Chord × List Event
chord_back back_now now c =
    if back_now && not c.back_held
    then (record c { back_held = true; back_press_ms = now; home_fired = false }, [])
    else if not back_now && c.back_held
    then (record c { back_held = false }, if c.home_fired then [] else select_tap)
    else (c, [])

unfoldable pub chord_fire : ℕ → Chord → Chord
chord_fire now c =
    if c.back_held && not c.home_fired && leb hold_ms (now - c.back_press_ms)
    then record c { home_fired = true; home_down = true; home_press_ms = now }
    else c

unfoldable pub chord_release : ℕ → Chord → Chord
chord_release now c =
    if c.home_down && leb home_hold_ms (now - c.home_press_ms)
    then record c { home_down = false }
    else c

abbrev pub is_select : Code → Bool
is_select btn_select = true
is_select _ = false

abbrev pub is_mode : Code → Bool
is_mode btn_mode = true
is_mode _ = false

unfoldable pub button_events : ℕ → Bool → List PadBtn → List Event
button_events flags home_down [] = []
button_events flags home_down (b ∷ bs) =
    let rest = button_events flags home_down bs in
    if is_select b.code
    then rest
    else emit ev_key b.code (sign_bit (has flags b.ml || is_mode b.code && home_down)) ∷ rest

abbrev pub hat : ℕ → ℕ → ℕ → ℤ
hat flags plus minus = sign_bit (has flags plus) -ℤ sign_bit (has flags minus)

-- `-y - 1`
unfoldable pub inverted : ℤ → ℤ
inverted y = pos 0 -ℤ y -ℤ pos 1

unfoldable pub axis_events : PadState → List Event
unfolding inverted
axis_events p =
    emit ev_abs abs_hat0x (hat p.button_flags 8 4)
    ∷ emit ev_abs abs_hat0y (hat p.button_flags 2 1)
    ∷ emit ev_abs abs_x p.left_x
    ∷ emit ev_abs abs_y (inverted p.left_y)
    ∷ emit ev_abs abs_rx p.right_x
    ∷ emit ev_abs abs_ry (inverted p.right_y)
    ∷ emit ev_abs abs_z (pos p.left_trigger)
    ∷ emit ev_abs abs_rz (pos p.right_trigger)
    ∷ syn
    ∷ []

unfoldable pub update : PadState → ℕ → Chord → Chord × List Event
unfolding chord_back chord_fire chord_release button_events axis_events has
update p now c =
    let (pressed, tap) = chord_back (has p.button_flags back_flag) now c in
    let after = chord_release now (chord_fire now pressed) in
    (after, tap ++ button_events p.button_flags after.home_down pad_buttons ++ axis_events p)

-- The packets that a pad gets, each with its time.
unfoldable pub updates : List (PadState × ℕ) → Chord → Chord × List Event
unfolding update
updates [] c = (c, [])
updates ((p, now) ∷ ps) c =
    let (c', evs) = update p now c in let (after, rest) = updates ps c' in (after, evs ++ rest)
