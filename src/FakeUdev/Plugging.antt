-- ===== src/FakeUdev/Plugging.antt =====
-- fake_udev.cpp (server/src/server): what is seen of a device that is plugged in and unplugged.
use steamos_containerized.Common.{
  if◌then◌else◌, Bool-cases, Text, text, ◌=?◌, ℕ, ◌≡◌, refl, ap, ◌∙◌, inl, inr, Bool, false, Option,
  none, some, List, [], ◌∷◌, ◌++◌, length, ◌^◌, ◌<◌, true, map, is_some, =?_refl,
}
use steamos_containerized.Common.Int.{pos}
use steamos_containerized.StdLib.{StdLib}
use steamos_containerized.FakeUdev.{
  Device, Props, class_props, base_event, serialize_props, uevent_message, NetAnswers, send_uevent,
  Files, hwdb_path, hwdb_text, write_hwdb, remove_hwdb, control_path, ensure_udev_control, plug,
  unplug,
}
use steamos_containerized.FakeUdev.Describes.{Describes, base_event-Describes}
use steamos_containerized.FakeUdev.Message.{Lacks, receive, receive-uevent_message}
use steamos_containerized.FakeUdev.Fields.{PrintsPlain, base_event-IsPlain}

-- A device and a C++ library whose texts have no zero byte, and events of less than 4 GiB.
pub record IsPluggable (lib : StdLib) (dev : Device) : Type 0 where
  pub prints_plain : PrintsPlain lib
  pub plain_node : Lacks 0 dev.devnode
  pub plain_path : Lacks 0 dev.syspath
  pub short_add :
      (now : ℕ) → length (serialize_props (base_event lib now dev (text "add"))) < 2 ^ 32
  pub short_remove :
      (now : ℕ) → length (serialize_props (base_event lib now dev (text "remove"))) < 2 ^ 32

-- What a subscriber makes of the messages of a call.
abbrev pub heard : List Text → List (Option Props)
heard msgs = map receive msgs

abbrev pub all_sent : NetAnswers
all_sent = record { socket_ok = true; bind_ok = true; sendmsg_ok = true }

event_heard :
    (lib : StdLib) (dev : Device) (now : ℕ) (action : Text)
    → IsPluggable lib dev
    → Lacks 0 action
    → length (serialize_props (base_event lib now dev action)) < 2 ^ 32
    → receive (uevent_message (base_event lib now dev action))
      ≡ some (base_event lib now dev action)
event_heard lib dev now action p plain short =
    receive-uevent_message (base_event lib now dev action)
      (base_event-IsPlain lib p.prints_plain now dev action p.plain_node p.plain_path plain) short

plain_add : Lacks 0 (text "add")
unfolding text
plain_add = (refl, (refl, (refl, tt)))

plain_remove : Lacks 0 (text "remove")
unfolding text
plain_remove = (refl, (refl, (refl, (refl, (refl, (refl, tt))))))

-- If the kernel takes the messages, then a subscriber that goes by their headers hears, when a
-- device is plugged in and unplugged, exactly one event of each, with the properties that were sent;
-- they name the action, the node, the path and the numbers of the device.
pub heard-plug-unplug :
    (lib : StdLib) (dev : Device) (now later : ℕ) (opens removes : Text → Bool)
    → (files gone : Files) → IsPluggable lib dev
    → (heard (plug lib now opens all_sent dev files).1
        ≡ some (base_event lib now dev (text "add")) ∷ [])
      × ((heard (unplug lib later removes all_sent dev gone).1
            ≡ some (base_event lib later dev (text "remove")) ∷ [])
          × (Describes lib dev (text "add") (base_event lib now dev (text "add"))
              × Describes lib dev (text "remove") (base_event lib later dev (text "remove"))))
unfolding plug unplug send_uevent
heard-plug-unplug lib dev now later opens removes files gone p = (
  ap (λ o. o ∷ []) (event_heard lib dev now (text "add") p plain_add (p.short_add now)),
  (
    ap (λ o. o ∷ [])
        (event_heard lib dev later (text "remove") p plain_remove (p.short_remove later)),
    (
      base_event-Describes lib now dev (text "add"),
      base_event-Describes lib later dev (text "remove"),
    ),
  ),
)

-- Where the entry of a device is, and what it says of a device of its class.
abbrev pub entry_path : StdLib → Device → Text
entry_path lib dev =
    text "/run/udev/data/c"
    ++ (lib.to_string (pos dev.major) ++ (text ":" ++ lib.to_string (pos dev.minor)))

abbrev mouse_entry : Text
mouse_entry =
    text
      "E:ID_INPUT=1\nE:ID_INPUT_MOUSE=1\nE:ID_BUS=usb\nG:seat\nG:uaccess\nQ:seat\nQ:uaccess\nV:1\n"

abbrev keyboard_entry : Text
keyboard_entry =
    text
      "E:ID_INPUT=1\nE:ID_INPUT_KEYBOARD=1\nE:ID_INPUT_KEY=1\nE:ID_BUS=usb\nG:seat\nG:uaccess\nQ:seat\nQ:uaccess\nV:1\n"

abbrev joystick_entry : Text
joystick_entry =
    text
      "E:ID_INPUT=1\nE:ID_INPUT_JOYSTICK=1\nE:ID_BUS=usb\nG:seat\nG:uaccess\nQ:seat\nQ:uaccess\nV:1\n"

abbrev pub entry_text : Text → Text
entry_text cls =
    if cls =? text "mouse"
    then mouse_entry
    else if cls =? text "keyboard"
    then keyboard_entry
    else joystick_entry

hwdb_text-entry_text : (dev : Device) → hwdb_text dev ≡ entry_text dev.id_input_class
unfolding hwdb_text class_props text
hwdb_text-entry_text dev = elim (Bool-cases (dev.id_input_class =? text "mouse")) [
  | inl t ↦ rw t refl
  | inr f ↦ rw f (elim (Bool-cases (dev.id_input_class =? text "keyboard")) [
    | inl t ↦ rw t refl
    | inr g ↦ rw g refl
  ])
]

hwdb_path-entry_path : (lib : StdLib) (dev : Device) → hwdb_path lib dev ≡ entry_path lib dev
unfolding hwdb_path text
hwdb_path-entry_path lib dev = refl

-- The control file, by which programs tell that udev runs.
abbrev pub udev_control : Text
udev_control = text "/run/udev/control"

entry_not_control : (lib : StdLib) (dev : Device) → (hwdb_path lib dev =? control_path) ≡ false
unfolding hwdb_path text ◌=?◌
entry_not_control lib dev = refl

ensure_udev_control_there :
    (opens : Text → Bool) (files : Files)
    → opens control_path ≡ true
    → is_some (ensure_udev_control opens files control_path) ≡ true
unfolding ensure_udev_control
ensure_udev_control_there opens files c = elim (Bool-cases (is_some (files control_path))) [
  | inl t ↦ rw t t
  | inr f ↦ rw f (rw c (rw (=?_refl control_path) refl))
]

control_while_plugged :
    (lib : StdLib) (dev : Device) (now later : ℕ) (opens removes : Text → Bool)
    → (net net_later : NetAnswers) (files : Files) → opens (hwdb_path lib dev) ≡ true
    → opens control_path ≡ true
    → removes (hwdb_path lib dev) ≡ true
    → let plugged = (plug lib now opens net dev files).0 in
      let unplugged = (unplug lib later removes net_later dev plugged).0 in
      (is_some (plugged control_path) ≡ true) × (is_some (unplugged control_path) ≡ true)
unfolding plug unplug write_hwdb remove_hwdb
control_while_plugged lib dev now later opens removes net net_later files o c r =
    let there = ensure_udev_control_there opens files c in
    rw o (rw r (rw (entry_not_control lib dev) (there, there)))

entry_while_plugged :
    (lib : StdLib) (dev : Device) (now later : ℕ) (opens removes : Text → Bool)
    → (net net_later : NetAnswers) (files : Files) (path : Text) → opens (hwdb_path lib dev) ≡ true
    → opens control_path ≡ true
    → removes (hwdb_path lib dev) ≡ true
    → (hwdb_path lib dev =? path) ≡ false
    → (control_path =? path) ≡ false
    → let plugged = (plug lib now opens net dev files).0 in
      let unplugged = (unplug lib later removes net_later dev plugged).0 in
      (plugged (hwdb_path lib dev) ≡ some (hwdb_text dev))
      × ((unplugged (hwdb_path lib dev) ≡ none) × (unplugged path ≡ files path))
unfolding plug unplug write_hwdb remove_hwdb ensure_udev_control
entry_while_plugged lib dev now later opens removes net net_later files path o c r n m = rw o (
    rw r (
      rw (=?_refl (hwdb_path lib dev)) (
        refl,
        (
          refl,
          rw n (elim (Bool-cases (is_some (files control_path))) [
            | inl t ↦ rw t refl
            | inr f ↦ rw f (rw c (rw m refl))
          ]),
        ),
      )))

-- If the files can be written and removed, then while a device is plugged in, its entry is there,
-- under the numbers of its node and with the lines of its class, and so is the control file of udev;
-- once it is unplugged, its entry is gone and the control file stays, and no other file was touched.
pub unplug-plug :
    (lib : StdLib) (dev : Device) (now later : ℕ) (opens removes : Text → Bool)
    → (net net_later : NetAnswers) (files : Files) (path : Text) → opens (entry_path lib dev) ≡ true
    → opens udev_control ≡ true
    → removes (entry_path lib dev) ≡ true
    → (entry_path lib dev =? path) ≡ false
    → (udev_control =? path) ≡ false
    → let plugged = (plug lib now opens net dev files).0 in
      let unplugged = (unplug lib later removes net_later dev plugged).0 in
      ((plugged (entry_path lib dev) ≡ some (entry_text dev.id_input_class))
        × (is_some (plugged udev_control) ≡ true))
      × ((unplugged (entry_path lib dev) ≡ none)
          × ((is_some (unplugged udev_control) ≡ true) × (unplugged path ≡ files path)))
unfolding hwdb_path text
unplug-plug lib dev now later opens removes net net_later files path o c r n m =
    let (entry, (gone, same)) =
      entry_while_plugged lib dev now later opens removes net net_later files path o c r n m in
    let (there, stays) =
      control_while_plugged lib dev now later opens removes net net_later files o c r in
    ((entry ∙ ap some (hwdb_text-entry_text dev), there), (gone, (stays, same)))
