-- ===== src/Tests/Plugged.antt =====
-- Root starts the application, and a joystick is plugged in and unplugged.
use steamos_containerized.Common.{
  is_some, length, Text, text, ◌=?◌, ℕ, ◌≡◌, refl, Bool, true, Option, none, some, [], ◌∷◌, arith,
  ◌^◌, ◌<◌, false,
}
use steamos_containerized.StdLib.{plain_lib}
use steamos_containerized.Launcher.{Env, RunAs, Answers}
use steamos_containerized.Launcher.Credentials.{Cred}
use steamos_containerized.FakeUdev.{
  Device, before, put_prop, put_props, class_props, base_event, serialize_props, Files, plug,
  unplug,
}
use steamos_containerized.FakeUdev.Describes.{Describes}
use steamos_containerized.FakeUdev.Plugging.{
  entry_path, entry_text, udev_control, IsPluggable, heard, all_sent, heard-plug-unplug,
  unplug-plug,
}

abbrev empty_env : Env
empty_env k = none

abbrev reads_thousand : Text → Option ℕ
reads_thousand t = some 1000

abbrev retro : RunAs
retro = record {
  run_uid = 1000;
  run_gid = 1000;
  home = text "/home/retro";
  xdg = text "/tmp/sockets";
  user = text "retro";
}

abbrev root_forks : Answers
root_forks = record {
  readable = true;
  forked = some 40;
  exit_status = some 0;
  is_root = true;
  groups_ok = false;
  gid_ok = true;
  uid_ok = true;
}

abbrev root_cred : Cred
root_cred = record { uid = 0; gid = 0; groups_of = none }

abbrev joystick : Device
joystick = record {
  syspath = 47 ∷ 100 ∷ [];
  devnode = 47 ∷ 101 ∷ [];
  major = 13;
  minor = 64;
  id_input_class = text "joystick";
}

short_add_event :
    (now : ℕ) → length (serialize_props (base_event plain_lib now joystick (text "add"))) < 2 ^ 32
unfolding serialize_props base_event put_props put_prop before class_props text ◌=?◌
short_add_event now = omega arith

short_remove_event :
    (now : ℕ)
    → length (serialize_props (base_event plain_lib now joystick (text "remove"))) < 2 ^ 32
unfolding serialize_props base_event put_props put_prop before class_props text ◌=?◌
short_remove_event now = omega arith

joystick-IsPluggable : IsPluggable plain_lib joystick
unfolding text
joystick-IsPluggable = record {
  prints_plain = λ x. tt;
  plain_node = (refl, (refl, tt));
  plain_path = (refl, (refl, tt));
  short_add = short_add_event;
  short_remove = short_remove_event;
}

abbrev yes : Text → Bool
yes p = true

abbrev no_files : Files
no_files p = none

heard-plug-unplug_example :
    (heard (plug plain_lib 5 yes all_sent joystick no_files).1
      ≡ some (base_event plain_lib 5 joystick (text "add")) ∷ [])
    × ((heard (unplug plain_lib 9 yes all_sent joystick no_files).1
          ≡ some (base_event plain_lib 9 joystick (text "remove")) ∷ [])
        × (Describes plain_lib joystick (text "add") (base_event plain_lib 5 joystick (text "add"))
            × Describes plain_lib joystick
                (text "remove")
                (base_event plain_lib 9 joystick (text "remove"))))
heard-plug-unplug_example =
    heard-plug-unplug plain_lib joystick 5 9 yes yes no_files no_files joystick-IsPluggable

unplug-plug_example :
    let plugged = (plug plain_lib 5 yes all_sent joystick no_files).0 in
    let unplugged = (unplug plain_lib 9 yes all_sent joystick plugged).0 in
    ((plugged (entry_path plain_lib joystick) ≡ some (entry_text (text "joystick")))
      × (is_some (plugged udev_control) ≡ true))
    × ((unplugged (entry_path plain_lib joystick) ≡ none)
        × ((is_some (unplugged udev_control) ≡ true) × (unplugged [] ≡ no_files [])))
unfolding text ◌=?◌
unplug-plug_example =
    unplug-plug plain_lib joystick 5 9 yes yes all_sent all_sent no_files [] refl refl refl refl
      refl
