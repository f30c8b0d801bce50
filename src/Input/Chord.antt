-- ===== src/Input/Chord.antt =====
-- uinput.cpp (server/src/server): the chord of `VirtualGamepad::update`, over the packets of a hold.
use mathlib.Core.List.{append-nil, append_assoc}
use steamos_containerized.Common.{
  leb, if◌then◌else◌, ℕ, ◌-◌, ◌≡◌, refl, Bool, true, false, ◌||◌, List, [], ◌∷◌, ◌++◌, arith, All,
  sym, ap, ◌∙◌,
}
use steamos_containerized.Common.Int.{pos}
use steamos_containerized.Input.{Code, ev_key, Event, emit, btn_select}
use steamos_containerized.Input.Pad.{
  has, Chord, PadState, back_flag, hold_ms, chord_back, chord_fire, chord_release, is_select,
  button_events, axis_events, update, pad_buttons, updates,
}

-- The events whose code passes the test, in order.
unfoldable pub events_of : (Code → Bool) → List Event → List Event
events_of p [] = []
events_of p (e ∷ es) = let rest = events_of p es in if p e.code then e ∷ rest else rest

pub events_of-append :
    (p : Code → Bool) (es fs : List Event)
    → events_of p (es ++ fs) ≡ events_of p es ++ events_of p fs
unfolding events_of
events_of-append p [] fs = refl
events_of-append p (e ∷ es) fs = ground (arith, events_of-append p es fs)

-- Whether a packet has the flag of Back.
abbrev pub back_of : PadState × ℕ → Bool
back_of (p, now) = has p.button_flags back_flag

abbrev pub HasBack : PadState × ℕ → Type 0
HasBack q = back_of q ≡ true

-- Whether some packet comes at least `hold_ms` after the time.
unfoldable pub held_long : ℕ → List (PadState × ℕ) → Bool
held_long t0 [] = false
held_long t0 ((p, now) ∷ ps) = leb hold_ms (now - t0) || held_long t0 ps

-- Back is held since `t0`, and Home was fired in this hold or not.
record Holding (t0 : ℕ) (fired : Bool) (c : Chord) : Type 0 where
  held : c.back_held ≡ true
  since : c.back_press_ms ≡ t0
  told : c.home_fired ≡ fired

selects_of_rest :
    (p : PadState) (down : Bool)
    → events_of is_select (button_events p.button_flags down pad_buttons ++ axis_events p) ≡ []
unfolding button_events axis_events events_of
selects_of_rest p down = refl

-- Apart from the tap, an update has no event of Back.
select_update :
    (p : PadState) (now : ℕ) (c : Chord)
    → events_of is_select (update p now c).1
      ≡ events_of is_select (chord_back (back_of (p, now)) now c).1
unfolding update events_of
select_update p now c = simp (events_of-append, selects_of_rest, append-nil)

pressed-Holding :
    (p : PadState) (now : ℕ) (c : Chord)
    → HasBack (p, now)
    → c.back_held ≡ false
    → Holding now false (update p now c).0
unfolding update chord_back chord_fire chord_release
pressed-Holding p now c b n = ground arith

held-Holding :
    (p : PadState) (now : ℕ) {t0 : ℕ} {f : Bool} (c : Chord)
    → HasBack (p, now)
    → Holding t0 f c
    → Holding t0 (f || leb hold_ms (now - t0)) (update p now c).0
unfolding update chord_back chord_fire chord_release
held-Holding p now c b h = ground arith

select_held :
    (p : PadState) (now : ℕ) (c : Chord)
    → HasBack (p, now)
    → events_of is_select (update p now c).1 ≡ []
unfolding chord_back events_of
select_held p now c b = ground (arith, select_update p now c)

hold_run :
    (t0 : ℕ) (ps : List (PadState × ℕ)) (f : Bool) (c : Chord)
    → All HasBack ps
    → Holding t0 f c
    → Holding t0 (f || held_long t0 ps) (updates ps c).0
      × (events_of is_select (updates ps c).1 ≡ [])
unfolding updates held_long events_of
hold_run t0 [] f c b h = ground arith
hold_run t0 ((p, now) ∷ ps) f c b h =
    let rest =
      hold_run t0 ps (f || leb hold_ms (now - t0)) (update p now c).0 b.1
        (held-Holding p now c b.0 h) in
    ground (arith, rest, select_held p now c b.0, events_of-append is_select (update p now c).1)

updates-append :
    (ps qs : List (PadState × ℕ)) (c : Chord)
    → (updates (ps ++ qs) c).0 ≡ (updates qs (updates ps c).0).0
unfolding updates
updates-append [] qs c = refl
updates-append ((p, now) ∷ ps) qs c = updates-append ps qs (update p now c).0

released :
    (p : PadState) (now : ℕ) {t0 : ℕ} {f : Bool} (c : Chord)
    → back_of (p, now) ≡ false
    → Holding t0 f c
    → ((update p now c).0.home_fired ≡ f)
      × (events_of is_select (update p now c).1 ≡ (
          if f then [] else emit ev_key btn_select (pos 1) ∷ emit ev_key btn_select (pos 0) ∷ []))
unfolding update chord_back chord_fire chord_release events_of
released p now c b h = (ground arith, ground (arith, select_update p now c))

events_of_last :
    (ps : List (PadState × ℕ)) (p : PadState) (now : ℕ) (c : Chord)
    → (updates (ps ++ (p, now) ∷ []) c).1 ≡ (updates ps c).1 ++ (update p now (updates ps c).0).1
unfolding updates
events_of_last [] p now c = append-nil _
events_of_last ((q, t) ∷ ps) p now c =
    ap (λ es. (update q t c).1 ++ es) (events_of_last ps p now (update q t c).0)
    ∙ sym (append_assoc (update q t c).1 _ _)

selects_of_append :
    (ps : List (PadState × ℕ)) (p : PadState) (now : ℕ) (c : Chord)
    → events_of is_select (updates (ps ++ (p, now) ∷ []) c).1
      ≡ events_of is_select (updates ps c).1
        ++ events_of is_select (update p now (updates ps c).0).1
selects_of_append ps p now c = rw (events_of_last ps p now c) (events_of-append is_select _ _)

-- All that the packets of one press of Back cause.
abbrev pub hold : PadState → ℕ → List (PadState × ℕ) → PadState → ℕ → List (PadState × ℕ)
hold p0 t0 ps p1 t1 = (p0, t0) ∷ ps ++ (p1, t1) ∷ []

-- Over the packets of one press of Back, from the first with its flag to the first without it, the
-- pad emits either no event of Back, and Home was fired, if some packet but the last came 750 ms
-- after the first or later, or else one Back tap, and Home was not fired.
pub hold_outcome :
    (c : Chord) (p0 p1 : PadState) (t0 t1 : ℕ) (ps : List (PadState × ℕ))
    → c.back_held ≡ false
    → HasBack (p0, t0)
    → All HasBack ps
    → back_of (p1, t1) ≡ false
    → ((updates (hold p0 t0 ps p1 t1) c).0.home_fired ≡ held_long t0 ps)
      × (events_of is_select (updates (hold p0 t0 ps p1 t1) c).1 ≡ (
          if held_long t0 ps
          then []
          else emit ev_key btn_select (pos 1) ∷ emit ev_key btn_select (pos 0) ∷ []))
unfolding updates
hold_outcome c p0 p1 t0 t1 ps n b0 bs b1 =
    let c0 = (update p0 t0 c).0 in
    let held = hold_run t0 ps false c0 bs (pressed-Holding p0 t0 c b0 n) in
    let end = released p1 t1 (updates ps c0).0 b1 held.0 in
    (
      ground (arith, end.0, updates-append ps ((p1, t1) ∷ []) c0),
      ground (
        arith,
        end.1,
        held.1,
        select_held p0 t0 c b0,
        selects_of_append ps p1 t1 c0,
        events_of-append is_select (update p0 t0 c).1 (updates (ps ++ (p1, t1) ∷ []) c0).1,
      ),
    )
