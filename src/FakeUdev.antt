-- ===== src/FakeUdev.antt =====
-- fake_udev.cpp (server/src/server): the events that announce a virtual device, and the entries of
-- /run/udev that go with it. `now` is the clock in seconds; the machine is little-endian.
pub mod Message
pub mod Fields
pub mod Describes
pub mod Plugging
use steamos_containerized.Common.{
  ltb, ◌==◌, if◌then◌else◌, length, replicate, Text, text, ◌=?◌, ℕ, zero, suc, ◌+◌, ◌*◌, ◌/◌, ◌%◌,
  ◌^◌, Bool, true, false, ◌&&◌, ◌||◌, List, [], ◌∷◌, ◌++◌, map, is_some, drop, is_empty, Option,
  none, some,
}
use steamos_containerized.Common.Int.{pos}
use steamos_containerized.StdLib.{StdLib}
use steamos_containerized.Video.{le32}
use steamos_containerized.Rtsp.Socket.{starts_with}

pub record Device : Type 0 where
  pub syspath : Text
  pub devnode : Text
  pub major : ℕ
  pub minor : ℕ
  pub id_input_class : Text

-- `^` on numbers below 2 ^ w
unfoldable pub bit_xor : ℕ → ℕ → ℕ → ℕ
bit_xor zero a b = 0
bit_xor (suc w) a b = (a + b) % 2 + 2 * bit_xor w (a / 2) (b / 2)

abbrev pub word : ℕ → ℕ
word n = n % 2 ^ 32

abbrev pub hash_factor : ℕ
hash_factor = 1540483477

abbrev pub mix_word : ℕ → ℕ → ℕ
mix_word k h =
    let k1 = word (k * hash_factor) in
    let k2 = bit_xor 32 k1 (k1 / 2 ^ 24) in
    bit_xor 32 (word (h * hash_factor)) (word (k2 * hash_factor))

abbrev pub mix_tail : List ℕ → ℕ → ℕ
mix_tail (a ∷ b ∷ c ∷ _) h =
    word (bit_xor 32 (bit_xor 32 (bit_xor 32 h (c * 2 ^ 16)) (b * 2 ^ 8)) a * hash_factor)
mix_tail (a ∷ b ∷ []) h = word (bit_xor 32 (bit_xor 32 h (b * 2 ^ 8)) a * hash_factor)
mix_tail (a ∷ []) h = word (bit_xor 32 h a * hash_factor)
mix_tail [] h = h

unfoldable pub mix : Text → ℕ → ℕ
mix (a ∷ b ∷ c ∷ d ∷ rest) h = mix rest (mix_word (a + 2 ^ 8 * b + 2 ^ 16 * c + 2 ^ 24 * d) h)
mix rest h = mix_tail rest h

unfoldable pub murmur2 : Text → ℕ → ℕ
unfolding mix bit_xor
murmur2 key seed =
    let h = mix key (bit_xor 32 seed (length key)) in
    let h1 = bit_xor 32 h (h / 2 ^ 13) in
    let h2 = word (h1 * hash_factor) in bit_xor 32 h2 (h2 / 2 ^ 15)

-- `htobe32` in memory
abbrev pub be32 : ℕ → Text
be32 n = n / 2 ^ 24 % 256 ∷ n / 2 ^ 16 % 256 ∷ n / 2 ^ 8 % 256 ∷ n % 256 ∷ []

abbrev pub no_filter : Text
no_filter = replicate 12 0

-- The bytes of a `MonitorNetlinkHeader`: its prefix, the magic number, its size, where the properties
-- start, how long they are, and the hash of the subsystem; no filter is set.
unfoldable pub monitor_header : ℕ → Text
unfolding murmur2
monitor_header properties_len =
    (text "libudev" ++ 0 ∷ [])
    ++ (be32 4277009102
        ++ (le32 40
            ++ (le32 40
                ++ (le32 properties_len ++ (be32 (murmur2 (text "input") 0) ++ no_filter)))))

abbrev pub Props : Type 0
Props = List (Text × Text)

-- `<` on strings
unfoldable pub before : Text → Text → Bool
before [] [] = false
before [] (y ∷ ys) = true
before (x ∷ xs) [] = false
before (x ∷ xs) (y ∷ ys) = ltb x y || (x == y && before xs ys)

-- `ev[k] = v` on a `std::map`, which keeps its keys in order
unfoldable pub put_prop : Text → Text → Props → Props
put_prop k v [] = (k, v) ∷ []
put_prop k v ((j, w) ∷ m) =
    let rest = put_prop k v m in
    if k =? j then (k, v) ∷ m else if before k j then (k, v) ∷ (j, w) ∷ m else (j, w) ∷ rest

unfoldable pub put_props : Props → Props → Props
unfolding put_prop
put_props [] m = m
put_props ((k, v) ∷ kvs) m = put_props kvs (put_prop k v m)

unfoldable pub class_props : Device → List Text
class_props dev =
    if dev.id_input_class =? text "mouse"
    then text "ID_INPUT_MOUSE" ∷ []
    else if dev.id_input_class =? text "keyboard"
    then text "ID_INPUT_KEYBOARD" ∷ text "ID_INPUT_KEY" ∷ []
    else text "ID_INPUT_JOYSTICK" ∷ []

abbrev pub event_fields : StdLib → ℕ → Device → Text → Props
event_fields lib now dev action =
    (text "ACTION", action)
    ∷ (text "SEQNUM", text "7")
    ∷ (text "USEC_INITIALIZED", lib.to_string (pos now))
    ∷ (text "SUBSYSTEM", text "input")
    ∷ (text "ID_INPUT", text "1")
    ∷ (text "ID_SERIAL", text "noserial")
    ∷ (text "TAGS", text ":seat:uaccess:")
    ∷ (text "CURRENT_TAGS", text ":seat:uaccess:")
    ∷ (text "DEVNAME", dev.devnode)
    ∷ (text "DEVPATH", dev.syspath)
    ∷ (text "MAJOR", lib.to_string (pos dev.major))
    ∷ (text "MINOR", lib.to_string (pos dev.minor))
    ∷ []

abbrev pub class_fields : Device → Props
class_fields dev = map (λ p. (p, text "1")) (class_props dev)

unfoldable pub base_event : StdLib → ℕ → Device → Text → Props
base_event lib now dev action =
    put_props (class_fields dev) (put_props (event_fields lib now dev action) [])

unfoldable pub serialize_props : Props → Text
serialize_props [] = []
serialize_props ((k, v) ∷ props) = k ++ 61 ∷ (v ++ 0 ∷ serialize_props props)

-- The datagram: the header, and then the properties.
unfoldable pub uevent_message : Props → Text
unfolding serialize_props monitor_header
uevent_message props =
    let payload = serialize_props props in monitor_header (length payload % 2 ^ 32) ++ payload

-- What the kernel answers, and the messages that it takes for the multicast group of udev.
pub record NetAnswers : Type 0 where
  pub socket_ok : Bool
  pub bind_ok : Bool
  pub sendmsg_ok : Bool

unfoldable pub send_uevent : NetAnswers → Props → Bool × List Text
unfolding uevent_message
send_uevent k props =
    if k.socket_ok && k.bind_ok
    then (if k.sendmsg_ok then (true, uevent_message props ∷ []) else (false, []))
    else (false, [])

-- The files below /run/udev.
abbrev pub Files : Type 0
Files = Text → Option Text

abbrev pub put_file : Text → Option Text → Files → Files
put_file path c files = λ p. if path =? p then c else files p

unfoldable pub hwdb_path : StdLib → Device → Text
hwdb_path lib dev =
    text "/run/udev/data"
    ++ (text "/c" ++ (lib.to_string (pos dev.major) ++ (text ":" ++ lib.to_string (pos dev.minor))))

abbrev pub class_lines : List Text → Text
class_lines [] = []
class_lines (p ∷ ps) = text "E:" ++ (p ++ (text "=1\n" ++ class_lines ps))

unfoldable pub hwdb_text : Device → Text
unfolding class_props
hwdb_text dev =
    text "E:ID_INPUT=1\n"
    ++ (class_lines (class_props dev)
        ++ text "E:ID_BUS=usb\nG:seat\nG:uaccess\nQ:seat\nQ:uaccess\nV:1\n")

-- `opens` is whether a file can be opened to write.
unfoldable pub write_hwdb : StdLib → (Text → Bool) → Device → Files → Files
unfolding hwdb_text
write_hwdb lib opens dev files =
    let path = hwdb_path lib dev in
    if opens path then put_file path (some (hwdb_text dev)) files else files

-- `removes` is whether the kernel lets the file be removed.
unfoldable pub remove_hwdb : StdLib → (Text → Bool) → Device → Files → Files
remove_hwdb lib removes dev files =
    let path = hwdb_path lib dev in if removes path then put_file path none files else files

abbrev pub control_path : Text
control_path = text "/run/udev/control"

unfoldable pub ensure_udev_control : (Text → Bool) → Files → Files
ensure_udev_control opens files =
    if is_some (files control_path)
    then files
    else if opens control_path
    then put_file control_path (some []) files
    else files

unfoldable pub plug : StdLib → ℕ → (Text → Bool) → NetAnswers → Device → Files → Files × List Text
unfolding ensure_udev_control write_hwdb send_uevent
plug lib now opens net dev files = (
  write_hwdb lib opens dev (ensure_udev_control opens files),
  (send_uevent net (base_event lib now dev (text "add"))).1,
)

unfoldable pub unplug : StdLib → ℕ → (Text → Bool) → NetAnswers → Device → Files → Files × List Text
unfolding remove_hwdb send_uevent
unplug lib now removes net dev files = (
  remove_hwdb lib removes dev files,
  (send_uevent net (base_event lib now dev (text "remove"))).1,
)

-- `stat` gives the numbers of a node.
abbrev pub with_numbers : Option (ℕ × ℕ) → Device → Bool × Device
with_numbers none out = (false, out)
with_numbers (some (a, b)) out = (true, record out { major = a; minor = b })

abbrev pub find_event : List Text → Text
find_event [] = []
find_event (n ∷ ns) = let rest = find_event ns in if starts_with (text "event") n then n else rest

-- `sysname` is the answer of the device, `entries` the names in its directory of sysfs.
unfoldable pub device_from_uinput_fd :
    Option Text → (Text → List Text) → (Text → Option (ℕ × ℕ)) → Device → Bool × Device
unfolding starts_with
device_from_uinput_fd none entries stat out = (false, out)
device_from_uinput_fd (some sysname) entries stat out =
    let event_name = find_event (entries (text "/sys/devices/virtual/input/" ++ sysname)) in
    let node = text "/dev/input/" ++ event_name in
    if is_empty event_name
    then (false, out)
    else with_numbers (stat node) (record out {
      devnode = node;
      syspath = text "/devices/virtual/input/" ++ (sysname ++ (text "/" ++ event_name));
    })

abbrev pub without_sys : Text → Text
without_sys t = if starts_with (text "/sys") t then drop 4 t else t

-- `filename` and `canonical` are those of `std::filesystem`.
unfoldable pub device_from_event_node :
    (Text → Text) → (Text → Option Text) → (Text → Option (ℕ × ℕ)) → Text → Device → Bool × Device
unfolding starts_with
device_from_event_node filename canonical stat node out =
    elim (canonical (text "/sys/class/input/" ++ filename node)) [
      | none ↦ (false, out)
      | some sys ↦
          with_numbers (stat node) (record out { devnode = node; syspath = without_sys sys })
    ]
