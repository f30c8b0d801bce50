-- ===== src/Input/Home.antt =====
-- uinput.cpp (server/src/server): the Home button that a hold of Back stands for.
use steamos_containerized.Common.{
  All, ℕ, ◌+◌, ◌≤◌, ◌≡◌, refl, Bool, true, false, ◌||◌, List, [], ◌∷◌, ◌++◌, arith,
}
use steamos_containerized.Common.Int.{pos}
use steamos_containerized.Input.{btn_mode, ev_key, emit, sign_bit}
use steamos_containerized.Input.Pad.{
  has, pad_buttons, Chord, PadState, hold_ms, home_hold_ms, chord_back, chord_fire, chord_release,
  is_mode, button_events, axis_events, update, updates,
}
use steamos_containerized.Input.Chord.{events_of, events_of-append, HasBack}

modes_of_rest :
    (p : PadState) (down : Bool)
    → events_of is_mode (button_events p.button_flags down pad_buttons ++ axis_events p)
      ≡ emit ev_key btn_mode (sign_bit (has p.button_flags 1024 || down)) ∷ []
unfolding button_events axis_events events_of
modes_of_rest p down = refl

modes_of_tap : (b : Bool) (now : ℕ) (c : Chord) → events_of is_mode (chord_back b now c).1 ≡ []
unfolding chord_back events_of
modes_of_tap b now c = ground arith

-- An update has one event of Home.
mode_update :
    (p : PadState) (now : ℕ) (c : Chord)
    → events_of is_mode (update p now c).1
      ≡ emit ev_key btn_mode (sign_bit (has p.button_flags 1024 || (update p now c).0.home_down))
        ∷ []
unfolding update events_of
mode_update p now c = simp (events_of-append, modes_of_rest, modes_of_tap)

-- Home went down at `t`, in a hold of Back that is not over or just ended.
record Fired (t : ℕ) (c : Chord) : Type 0 where
  fired : c.home_fired ≡ true
  held : c.back_held ≡ true
  at : c.home_press_ms ≡ t

update-Fired :
    (p : PadState) (now : ℕ) {t : ℕ} (c : Chord)
    → HasBack (p, now)
    → Fired t c
    → Fired t (update p now c).0
unfolding update chord_back chord_fire chord_release
update-Fired p now c b h = ground arith

updates-Fired :
    (ps : List (PadState × ℕ)) {t : ℕ} (c : Chord)
    → All HasBack ps
    → Fired t c
    → Fired t (updates ps c).0
unfolding updates
updates-Fired [] c b h = h
updates-Fired ((p, now) ∷ ps) c b h =
    updates-Fired ps (update p now c).0 b.1 (update-Fired p now c b.0 h)

fires :
    (p : PadState) (now : ℕ) (c : Chord)
    → HasBack (p, now)
    → c.back_held ≡ true
    → c.home_fired ≡ false
    → c.back_press_ms + hold_ms ≤ now
    → Fired now (update p now c).0 × ((update p now c).0.home_down ≡ true)
unfolding update chord_back chord_fire chord_release
fires p now c b h f t = ground arith

lets_go :
    (p : PadState) (now : ℕ) {t : ℕ} (c : Chord)
    → Fired t c
    → t + home_hold_ms ≤ now
    → (update p now c).0.home_down ≡ false
unfolding update chord_back chord_fire chord_release
lets_go p now c h t = ground arith

-- While Back is held and Home was not fired, a packet with the flag of Back that comes 750 ms after
-- the press or later presses Home; after any further packets with that flag, the next packet that
-- comes 120 ms after this or later, with the flag or without, emits Home as its own Home flag says.
pub home_press_and_release :
    (c : Chord) (p r : PadState) (t t' : ℕ) (ps : List (PadState × ℕ))
    → c.back_held ≡ true
    → c.home_fired ≡ false
    → c.back_press_ms + 750 ≤ t
    → HasBack (p, t)
    → All HasBack ps
    → t + 120 ≤ t'
    → (events_of is_mode (update p t c).1 ≡ emit ev_key btn_mode (pos 1) ∷ [])
      × (events_of is_mode (update r t' (updates ps (update p t c).0).0).1
          ≡ emit ev_key btn_mode (sign_bit (has r.button_flags 1024)) ∷ [])
home_press_and_release c p r t t' ps h f late b bs later =
    let now = fires p t c b h f late in
    let c' = (updates ps (update p t c).0).0 in
    let up = lets_go r t' c' (updates-Fired ps (update p t c).0 bs now.0) later in
    (ground (arith, now.1, mode_update p t c), ground (arith, up, mode_update r t' c'))
