-- ===== src/Tests/Devices.antt =====
-- Runs of the virtual devices and of their map.
use steamos_containerized.Input.Home.{home_press_and_release}
use steamos_containerized.Common.{
  if◌then◌else◌, All, ℕ, ◌≡◌, refl, Bool, true, false, List, [], ◌∷◌, arith,
}
use steamos_containerized.Common.Int.{pos, negsuc}
use steamos_containerized.Input.{btn_select, btn_mode, key_tab, ev_key, emit, syn, sign_bit}
use steamos_containerized.Input.Keys.{find_key, moonlight_key_to_linux, key}
use steamos_containerized.Input.Pad.{
  has, gamepad_ioctls, Chord, new_chord, PadState, chord_back, chord_fire, chord_release, is_select,
  is_mode, button_events, axis_events, update, updates,
}
use steamos_containerized.Input.Chord.{events_of, held_long, hold, hold_outcome}
use steamos_containerized.Input.Declared.{MayEmit, InRange, update-MayEmit}
use steamos_containerized.Control.Pads.{find_pad, PadCall, arrive, drive, pad_calls}
use steamos_containerized.Control.Slots.{slot_calls, pad_calls-slot_calls}

abbrev idle_pad : PadState
idle_pad = record {
  button_flags = 0;
  left_trigger = 0;
  right_trigger = 0;
  left_x = pos 0;
  left_y = pos 0;
  right_x = pos 0;
  right_y = pos 0;
}

abbrev back_pad : PadState
back_pad = record idle_pad { button_flags = 32; left_y = negsuc 32767; left_trigger = 255 }

abbrev back_down : Chord
back_down = record new_chord { back_held = true; back_press_ms = 100 }

-- A tap of 100 ms is one press and one release of Back, and a hold of 800 ms is none.
short_tap :
    events_of is_select (updates ((back_pad, 0) ∷ (idle_pad, 100) ∷ []) new_chord).1
    ≡ emit ev_key btn_select (pos 1) ∷ emit ev_key btn_select (pos 0) ∷ []
unfolding updates update chord_back chord_fire chord_release button_events axis_events has events_of
short_tap = refl

long_hold :
    events_of is_select
      (updates ((back_pad, 0) ∷ (back_pad, 800) ∷ (idle_pad, 900) ∷ []) new_chord).1
    ≡ []
unfolding updates update chord_back chord_fire chord_release button_events axis_events has events_of
long_hold = refl

-- Tab, and the left button.
tab_key : key (pos 9) true ≡ emit ev_key key_tab (pos 1) ∷ syn ∷ []
unfolding key moonlight_key_to_linux find_key
tab_key = refl

hold_outcome_example :
    ((updates (hold back_pad 5 ((back_pad, 800) ∷ []) idle_pad 900) new_chord).0.home_fired
      ≡ held_long 5 ((back_pad, 800) ∷ []))
    × (events_of is_select
          (updates (hold back_pad 5 ((back_pad, 800) ∷ []) idle_pad 900) new_chord).1
        ≡ (if held_long 5 ((back_pad, 800) ∷ [])
            then []
            else emit ev_key btn_select (pos 1) ∷ emit ev_key btn_select (pos 0) ∷ []))
unfolding has
hold_outcome_example =
    hold_outcome new_chord back_pad idle_pad 5 900 ((back_pad, 800) ∷ []) refl refl (refl, tt) refl

home_press_and_release_example :
    (events_of is_mode (update back_pad 900 back_down).1 ≡ emit ev_key btn_mode (pos 1) ∷ [])
    × (events_of is_mode
          (update idle_pad 1100
            (updates ((back_pad, 950) ∷ []) (update back_pad 900 back_down).0).0).1
        ≡ emit ev_key btn_mode (sign_bit (has idle_pad.button_flags 1024)) ∷ [])
unfolding has
home_press_and_release_example =
    home_press_and_release back_down back_pad idle_pad 900 1100 ((back_pad, 950) ∷ []) refl refl
      (omega arith) refl (refl, tt) (omega arith)

back_pad-InRange : InRange back_pad
back_pad-InRange = record {
  lt = omega arith;
  rt = omega arith;
  lx = (omega arith, omega arith);
  ly = (omega arith, omega arith);
  rx = (omega arith, omega arith);
  ry = (omega arith, omega arith);
}

update-MayEmit_example : All (MayEmit gamepad_ioctls) (update back_pad 900 back_down).1
update-MayEmit_example = update-MayEmit back_pad 900 back_down back_pad-InRange

abbrev no_wide : ℕ → ℕ → Bool
no_wide mask n = false

abbrev pad_plays : List PadCall
pad_plays =
    arrive true 1
    ∷ drive true 10 0 3 idle_pad
    ∷ drive true 20 1 3 back_pad
    ∷ drive true 30 0 2 idle_pad
    ∷ []

pad_calls-slot_calls_example :
    find_pad 1 (pad_calls no_wide pad_plays []) ≡ slot_calls no_wide 1 pad_plays (find_pad 1 [])
pad_calls-slot_calls_example = pad_calls-slot_calls no_wide 1 pad_plays []
