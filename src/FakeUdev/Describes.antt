-- ===== src/FakeUdev/Describes.antt =====
-- fake_udev.cpp (server/src/server): what stands under each key of the properties of an event.
use steamos_containerized.Common.{
  if◌then◌else◌, Bool-cases, Text, text, ◌=?◌, =?_iff, ℕ, ◌≡◌, refl, ap, ◌∙◌, inl, inr, Bool, false,
  ◌||◌, Option, none, some, List, [], ◌∷◌, arith,
}
use steamos_containerized.Common.Assoc.{lookup}
use steamos_containerized.Common.Int.{pos}
use steamos_containerized.StdLib.{StdLib}
use steamos_containerized.FakeUdev.{
  Device, Props, before, put_prop, put_props, class_props, event_fields, class_fields, base_event,
}

-- The map has what was put last, under each key.
lookup-put_prop :
    (j k : Text) (v : Text) (m : Props)
    → lookup j (put_prop k v m) ≡ (if k =? j then some v else lookup j m)
unfolding lookup put_prop
lookup-put_prop j k v [] = refl
lookup-put_prop j k v ((i, w) ∷ m) = elim (Bool-cases (k =? i)) [
  | inl t ↦ ground (arith, (=?_iff k i).0 t)
  | inr f ↦ elim (Bool-cases (before k i)) [
    | inl b ↦ ground arith
    | inr b ↦ elim (Bool-cases (i =? j)) [
      | inl e ↦ ground (arith, lookup-put_prop j k v m, (=?_iff i j).0 e)
      | inr e ↦ ground (arith, lookup-put_prop j k v m)
    ]
  ]
]

-- What stands under a key after the fields are put one after another.
abbrev final : Text → Props → Option Text → Option Text
final j [] o = o
final j ((k, v) ∷ kvs) o = final j kvs (if k =? j then some v else o)

lookup-put_props :
    (j : Text) (kvs m : Props) → lookup j (put_props kvs m) ≡ final j kvs (lookup j m)
unfolding put_props
lookup-put_props j [] m = refl
lookup-put_props j ((k, v) ∷ kvs) m =
    lookup-put_props j kvs (put_prop k v m) ∙ ap (final j kvs) (lookup-put_prop j k v m)

lookup-base_event :
    (lib : StdLib) (now : ℕ) (dev : Device) (action j : Text)
    → lookup j (base_event lib now dev action)
      ≡ final j (class_fields dev) (final j (event_fields lib now dev action) none)
unfolding base_event lookup
lookup-base_event lib now dev action j =
    lookup-put_props j (class_fields dev) (put_props (event_fields lib now dev action) [])
    ∙ ap (final j (class_fields dev)) (lookup-put_props j (event_fields lib now dev action) [])

abbrev is_one : List Text → Text → Bool
is_one [] j = false
is_one (k ∷ ks) j = k =? j || is_one ks j

not_class :
    (dev : Device) (j : Text) (o : Option Text)
    → is_one
        (text "ID_INPUT_MOUSE"
          ∷ text "ID_INPUT_KEYBOARD"
          ∷ text "ID_INPUT_KEY"
          ∷ text "ID_INPUT_JOYSTICK"
          ∷ [])
        j
      ≡ false
    → final j (class_fields dev) o ≡ o
unfolding class_props
not_class dev j o h = ground arith

-- Who the device is, as the properties say it.
abbrev pub Describes : StdLib → Device → Text → Props → Type 0
Describes lib dev action props =
    (lookup (text "ACTION") props ≡ some action)
    × ((lookup (text "DEVNAME") props ≡ some dev.devnode)
        × ((lookup (text "DEVPATH") props ≡ some dev.syspath)
            × ((lookup (text "MAJOR") props ≡ some (lib.to_string (pos dev.major)))
                × (lookup (text "MINOR") props ≡ some (lib.to_string (pos dev.minor))))))

pub base_event-Describes :
    (lib : StdLib) (now : ℕ) (dev : Device) (action : Text)
    → Describes lib dev action (base_event lib now dev action)
unfolding text ◌=?◌
base_event-Describes lib now dev action = (
  lookup-base_event lib now dev action (text "ACTION")
      ∙ not_class dev (text "ACTION") (some action) refl,
  (
    lookup-base_event lib now dev action (text "DEVNAME")
        ∙ not_class dev (text "DEVNAME") (some dev.devnode) refl,
    (
      lookup-base_event lib now dev action (text "DEVPATH")
          ∙ not_class dev (text "DEVPATH") (some dev.syspath) refl,
      (
        lookup-base_event lib now dev action (text "MAJOR")
            ∙ not_class dev (text "MAJOR") (some (lib.to_string (pos dev.major))) refl,
        lookup-base_event lib now dev action (text "MINOR")
            ∙ not_class dev (text "MINOR") (some (lib.to_string (pos dev.minor))) refl,
      ),
    ),
  ),
)
