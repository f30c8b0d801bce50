-- ===== src/FakeUdev/Fields.antt =====
-- fake_udev.cpp (server/src/server): the properties of an event have no byte that would end them early.
use steamos_containerized.Common.{
  ◌==◌, if◌then◌else◌, Bool-cases, All, Text, text, ◌=?◌, ℕ, ◌≡◌, refl, inl, inr, Bool, true, false,
  not, ◌&&◌, [], ◌∷◌, map, arith,
}
use steamos_containerized.Common.Int.{ℤ, pos}
use steamos_containerized.StdLib.{StdLib}
use steamos_containerized.FakeUdev.{
  Device, Props, before, put_prop, put_props, class_props, event_fields, class_fields, base_event,
}
use steamos_containerized.FakeUdev.Message.{Lacks, IsPlain}

put_prop-IsPlain :
    (k v : Text) (m : Props) → IsPlain (k, v) → All IsPlain m → All IsPlain (put_prop k v m)
unfolding put_prop
put_prop-IsPlain k v [] p h = (p, tt)
put_prop-IsPlain k v ((i, w) ∷ m) p h = elim (Bool-cases (k =? i)) [
  | inl t ↦ rw t (p, h.1)
  | inr f ↦ rw f (elim (Bool-cases (before k i)) [
    | inl b ↦ rw b (p, h)
    | inr b ↦ rw b (h.0, put_prop-IsPlain k v m p h.1)
  ])
]

put_props-IsPlain :
    (kvs m : Props) → All IsPlain kvs → All IsPlain m → All IsPlain (put_props kvs m)
unfolding put_props
put_props-IsPlain [] m p h = h
put_props-IsPlain ((k, v) ∷ kvs) m p h =
    put_props-IsPlain kvs (put_prop k v m) p.1 (put_prop-IsPlain k v m p.0 h)

-- What `to_string` prints has no zero byte.
abbrev pub PrintsPlain : StdLib → Type 0
PrintsPlain lib = (x : ℤ) → Lacks 0 (lib.to_string x)

lacks : ℕ → Text → Bool
lacks s [] = true
lacks s (c ∷ t) = not (c == s) && lacks s t

lacks-Lacks : (s : ℕ) (t : Text) → lacks s t ≡ true → Lacks s t
unfolding lacks
lacks-Lacks s [] h = tt
lacks-Lacks s (c ∷ t) h = (ground arith, lacks-Lacks s t (ground arith))

-- A literal name with a value.
named-IsPlain : (k v : Text) → (lacks 0 k && lacks 61 k) ≡ true → Lacks 0 v → IsPlain (k, v)
named-IsPlain k v h p = (lacks-Lacks 0 k (ground arith), (lacks-Lacks 61 k (ground arith), p))

literal-IsPlain :
    (k v : Text) → (lacks 0 k && lacks 61 k) ≡ true → lacks 0 v ≡ true → IsPlain (k, v)
literal-IsPlain k v h p = named-IsPlain k v h (lacks-Lacks 0 v p)

class_of_IsPlain :
    (mouse keyboard : Bool)
    → All IsPlain (
        map
          (λ p. (p, text "1"))
          (if mouse
            then text "ID_INPUT_MOUSE" ∷ []
            else if keyboard
            then text "ID_INPUT_KEYBOARD" ∷ text "ID_INPUT_KEY" ∷ []
            else text "ID_INPUT_JOYSTICK" ∷ []))
unfolding lacks text
class_of_IsPlain true k = (literal-IsPlain (text "ID_INPUT_MOUSE") (text "1") refl refl, tt)
class_of_IsPlain false true = (
  literal-IsPlain (text "ID_INPUT_KEYBOARD") (text "1") refl refl,
  (literal-IsPlain (text "ID_INPUT_KEY") (text "1") refl refl, tt),
)
class_of_IsPlain false false = (literal-IsPlain (text "ID_INPUT_JOYSTICK") (text "1") refl refl, tt)

class_fields-IsPlain : (dev : Device) → All IsPlain (class_fields dev)
unfolding class_props
class_fields-IsPlain dev =
    class_of_IsPlain (dev.id_input_class =? text "mouse") (dev.id_input_class =? text "keyboard")

module _ (lib : StdLib) (pr : PrintsPlain lib) (now : ℕ) (dev : Device) (action : Text) where
  event_fields-IsPlain :
      Lacks 0 dev.devnode
      → Lacks 0 dev.syspath
      → Lacks 0 action
      → All IsPlain (event_fields lib now dev action)
  unfolding lacks text
  event_fields-IsPlain node path act = (
    named-IsPlain (text "ACTION") action refl act,
    (
      literal-IsPlain (text "SEQNUM") (text "7") refl refl,
      (
        named-IsPlain (text "USEC_INITIALIZED") (lib.to_string (pos now)) refl (pr (pos now)),
        (
          literal-IsPlain (text "SUBSYSTEM") (text "input") refl refl,
          (
            literal-IsPlain (text "ID_INPUT") (text "1") refl refl,
            (
              literal-IsPlain (text "ID_SERIAL") (text "noserial") refl refl,
              (
                literal-IsPlain (text "TAGS") (text ":seat:uaccess:") refl refl,
                (
                  literal-IsPlain (text "CURRENT_TAGS") (text ":seat:uaccess:") refl refl,
                  (
                    named-IsPlain (text "DEVNAME") dev.devnode refl node,
                    (
                      named-IsPlain (text "DEVPATH") dev.syspath refl path,
                      (
                        named-IsPlain (text "MAJOR") (lib.to_string (pos dev.major)) refl
                            (pr (pos dev.major)),
                        (
                          named-IsPlain (text "MINOR") (lib.to_string (pos dev.minor)) refl
                              (pr (pos dev.minor)),
                          tt,
                        ),
                      ),
                    ),
                  ),
                ),
              ),
            ),
          ),
        ),
      ),
    ),
  )

  pub base_event-IsPlain :
      Lacks 0 dev.devnode
      → Lacks 0 dev.syspath
      → Lacks 0 action
      → All IsPlain (base_event lib now dev action)
  unfolding base_event
  base_event-IsPlain node path act =
      put_props-IsPlain (class_fields dev) (put_props (event_fields lib now dev action) [])
        (class_fields-IsPlain dev)
        (put_props-IsPlain (event_fields lib now dev action) [] (event_fields-IsPlain node path act)
          tt)
