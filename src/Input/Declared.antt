-- ===== src/Input/Declared.antt =====
-- uinput.cpp (server/src/server): what a device emits against what it asked the kernel for. The
-- kernel drops an event whose type or code was not asked for.
use steamos_containerized.Common.{
  Bool-cases, All, ℕ, ◌<◌, inl, inr, Bool, List, [], ◌∷◌, arith, All-append, Option-cases, In, zero,
  suc, ◌++◌,
}
use steamos_containerized.Common.Int.{ℤ, pos, negsuc, ◌-ℤ◌, ◌≤ℤ◌, IsShort}
use steamos_containerized.Input.{
  Code, EvType, ev_syn, ev_key, ev_rel, ev_abs, Event, Ioctl, set_evbit, set_keybit, set_relbit,
  set_absbit, abs_setup, abs_hat0y, emit, abs_x, abs_y, abs_rx, abs_ry, abs_z, abs_rz, abs_hat0x,
  btn_select, moonlight_button_to_linux, mouse_ioctls, MouseCall, move_rel, move_abs, button,
  vscroll, hscroll, mouse_call, rel_x, rel_y, syn, moved,
}
use steamos_containerized.Input.Keys.{
  key_mappings, find_key, moonlight_key_to_linux, keyboard_ioctls, key, In-find_key,
}
use steamos_containerized.Input.Pad.{
  PadBtn, gamepad_ioctls, PadState, is_select, button_events, inverted, has, hat, axis_events,
  pad_buttons, Chord, update, chord_back, back_flag,
}

pub data Asked (i : Ioctl) : List Ioctl → Type 0 where
  first : {is : List Ioctl} → Asked i (i ∷ is)
  later : {j : Ioctl} {is : List Ioctl} → Asked i is → Asked i (j ∷ is)

-- A device that asked for this may emit an event: an absolute value within the range set up for it.
abbrev pub Declares : List Ioctl → EvType → Code → ℤ → Type 0
Declares asked ev_syn code v = Unit
Declares asked ev_key code v = Asked (set_evbit ev_key) asked × Asked (set_keybit code) asked
Declares asked ev_rel code v = Asked (set_evbit ev_rel) asked × Asked (set_relbit code) asked
Declares asked ev_abs code v =
    Asked (set_evbit ev_abs) asked
    × Asked (set_absbit code) asked
    × ((least greatest : ℤ) × Asked (abs_setup code least greatest) asked
        × (least ≤ℤ v)
        × (v ≤ℤ greatest))

abbrev pub MayEmit : List Ioctl → Event → Type 0
MayEmit asked e = Declares asked e.type e.code e.value

-- The ranges of the C types of the arguments of `update`.
pub record InRange (p : PadState) : Type 0 where
  pub lt : p.left_trigger < 256
  pub rt : p.right_trigger < 256
  pub lx : IsShort p.left_x
  pub ly : IsShort p.left_y
  pub rx : IsShort p.right_x
  pub ry : IsShort p.right_y

inverted-IsShort : (y : ℤ) → IsShort y → IsShort (inverted y)
unfolding inverted ◌-ℤ◌
inverted-IsShort (pos n) h = ground arith
inverted-IsShort (negsuc n) h = ground arith

-- Every button but Back is emitted as a key that was asked for.
button_events-MayEmit :
    (asked : List Ioctl) (flags : ℕ) (down : Bool) (bs : List PadBtn)
    → Asked (set_evbit ev_key) asked
    → All (λ b. Asked (set_keybit b.code) asked) bs
    → All (MayEmit asked) (button_events flags down bs)
unfolding button_events
button_events-MayEmit asked flags down [] k h = tt
button_events-MayEmit asked flags down (b ∷ bs) k h = elim (Bool-cases (is_select b.code)) [
  | inl t ↦ rw t (button_events-MayEmit asked flags down bs k h.1)
  | inr n ↦ rw n ((k, h.0), button_events-MayEmit asked flags down bs k h.1)
]

hat_bounds : (f : ℕ) (a b : ℕ) → (negsuc 0 ≤ℤ hat f a b) × (hat f a b ≤ℤ pos 1)
unfolding ◌-ℤ◌ has
hat_bounds f a b = (ground arith, ground arith)

ruleset pad = (first, later)

abs_events-MayEmit : (p : PadState) → InRange p → All (MayEmit gamepad_ioctls) (axis_events p)
unfolding axis_events
abs_events-MayEmit p r = (
  both abs_hat0x (negsuc 0) (pos 1) _ (search pad depth 40) (search pad depth 40)
      (hat_bounds f 8 4),
  (
    both abs_hat0y (negsuc 0) (pos 1) _ (search pad depth 40) (search pad depth 40)
        (hat_bounds f 2 1),
    (
      stick abs_x _ (search pad depth 40) (search pad depth 40) r.lx,
      (
        stick abs_y _ (search pad depth 40) (search pad depth 40) (inverted-IsShort p.left_y r.ly),
        (
          stick abs_rx _ (search pad depth 40) (search pad depth 40) r.rx,
          (
            stick abs_ry _ (search pad depth 40) (search pad depth 40)
                (inverted-IsShort p.right_y r.ry),
            (
              trigger abs_z _ (search pad depth 40) (search pad depth 40) r.lt,
              (trigger abs_rz _ (search pad depth 40) (search pad depth 40) r.rt, (tt, tt)),
            ),
          ),
        ),
      ),
    ),
  ),
)
  where
    f : ℕ
    f = p.button_flags

    on : Asked (set_evbit ev_abs) gamepad_ioctls
    on = search pad depth 40

    both :
        (c : Code) (least greatest : ℤ) (v : ℤ)
        → Asked (set_absbit c) gamepad_ioctls
        → Asked (abs_setup c least greatest) gamepad_ioctls
        → (least ≤ℤ v) × (v ≤ℤ greatest)
        → MayEmit gamepad_ioctls (emit ev_abs c v)
    both c least greatest v bit setup h = (on, bit, (least, greatest, setup, h.0, h.1))

    stick :
        (c : Code) (v : ℤ)
        → Asked (set_absbit c) gamepad_ioctls
        → Asked (abs_setup c (negsuc 32767) (pos 32767)) gamepad_ioctls
        → IsShort v
        → MayEmit gamepad_ioctls (emit ev_abs c v)
    stick c v bit setup h = both c (negsuc 32767) (pos 32767) v bit setup h

    trigger :
        (c : Code) (n : ℕ)
        → Asked (set_absbit c) gamepad_ioctls
        → Asked (abs_setup c (pos 0) (pos 255)) gamepad_ioctls
        → n < 256
        → MayEmit gamepad_ioctls (emit ev_abs c (pos n))
    trigger c n bit setup h =
        both c (pos 0) (pos 255) (pos n) bit setup (ground arith, ground arith)

buttons_asked : All (λ b. Asked (set_keybit b.code) gamepad_ioctls) pad_buttons
buttons_asked = search (pad, tt) depth 60

tap_MayEmit : (b : Bool) (now : ℕ) (c : Chord) → All (MayEmit gamepad_ioctls) (chord_back b now c).1
unfolding chord_back
tap_MayEmit b now c = ground (arith, key_asked)
  where
    key_asked : MayEmit gamepad_ioctls (emit ev_key btn_select (pos 0))
    key_asked = (search pad depth 40, search pad depth 40)

-- Any update of a pad, in any chord state, whose arguments are in the ranges of their C types, emits
-- only events that the pad asked the kernel for when it was made, absolute values within the range
-- set up for their axis.
pub update-MayEmit :
    (p : PadState) (now : ℕ) (c : Chord)
    → InRange p
    → All (MayEmit gamepad_ioctls) (update p now c).1
unfolding update
update-MayEmit p now c r =
    let down = (update p now c).0.home_down in
    let may = MayEmit gamepad_ioctls in
    let tap = (chord_back (has p.button_flags back_flag) now c).1 in
    let buttons = button_events p.button_flags down pad_buttons in
    All-append may (tap ++ buttons) (axis_events p)
      (All-append may tap buttons (tap_MayEmit (has p.button_flags back_flag) now c) (
        button_events-MayEmit gamepad_ioctls p.button_flags down pad_buttons (search pad depth 40)
          buttons_asked))
      (abs_events-MayEmit p r)

-- The coordinates of an absolute move are within the range of the device.
abbrev pub FitsMouse : MouseCall → Type 0
FitsMouse (move_abs x y) = (pos 0 ≤ℤ x) × (x ≤ℤ pos 65535) × (pos 0 ≤ℤ y) × (y ≤ℤ pos 65535)
FitsMouse _ = Unit

key_asked : (b : ℤ) → Asked (set_keybit (moonlight_button_to_linux b)) mouse_ioctls
unfolding moonlight_button_to_linux
key_asked (pos zero) = search pad depth 40
key_asked (pos (suc zero)) = search pad depth 40
key_asked (pos (suc (suc zero))) = search pad depth 40
key_asked (pos (suc (suc (suc zero)))) = search pad depth 40
key_asked (pos (suc (suc (suc (suc zero))))) = search pad depth 40
key_asked (pos (suc (suc (suc (suc (suc n)))))) = search pad depth 40
key_asked (negsuc n) = search pad depth 40

moved-MayEmit :
    (c : Code) (d : ℤ) → Asked (set_relbit c) mouse_ioctls → All (MayEmit mouse_ioctls) (moved c d)
moved-MayEmit c (pos zero) k = tt
moved-MayEmit c (pos (suc n)) k = ((search pad depth 40, k), tt)
moved-MayEmit c (negsuc n) k = ((search pad depth 40, k), tt)

-- Every event that a call of the mouse emits, its coordinates in range, was asked for when the mouse
-- was made.
pub mouse_call-MayEmit : (c : MouseCall) → FitsMouse c → All (MayEmit mouse_ioctls) (mouse_call c)
unfolding mouse_call
mouse_call-MayEmit (move_rel dx dy) h =
    All-append (MayEmit mouse_ioctls) (moved rel_x dx ++ moved rel_y dy) (syn ∷ [])
      (All-append (MayEmit mouse_ioctls) (moved rel_x dx) (moved rel_y dy)
        (moved-MayEmit rel_x dx (search pad depth 40))
        (moved-MayEmit rel_y dy (search pad depth 40)))
      (tt, tt)
mouse_call-MayEmit (move_abs x y) h = (
  (search pad depth 40, search pad depth 40, (pos 0, pos 65535, search pad depth 40, h.0, h.1)),
  (
    (search pad depth 40, search pad depth 40, (pos 0, pos 65535, search pad depth 40, h.2, h.3)),
    (tt, tt),
  ),
)
mouse_call-MayEmit (button b pressed) h = (search (pad, key_asked b) depth 40, (tt, tt))
mouse_call-MayEmit (vscroll a) h = ((search pad depth 40, search pad depth 40), (tt, tt))
mouse_call-MayEmit (hscroll a) h = ((search pad depth 40, search pad depth 40), (tt, tt))

Asked-In : (i : Ioctl) (is : List Ioctl) → In i is → Asked i is
Asked-In i [] h = absurd h
Asked-In i (j ∷ is) (inl e) = rw e first
Asked-In i (j ∷ is) (inr h) = later (Asked-In i is h)

-- Every key event of the virtual keyboard was asked for when the keyboard was made.
pub key-MayEmit : (k : ℤ) (pressed : Bool) → All (MayEmit keyboard_ioctls) (key k pressed)
unfolding key keyboard_ioctls moonlight_key_to_linux
key-MayEmit (negsuc n) pressed = tt
key-MayEmit (pos n) pressed = elim (Option-cases (find_key n key_mappings)) [
  | inl e ↦ rw e tt
  | inr (code, e) ↦
      rw e ((first, later (later (Asked-In _ _ (In-find_key n key_mappings code e)))), (tt, tt))
]
