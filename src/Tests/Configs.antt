-- ===== src/Tests/Configs.antt =====
-- A TOML library of trees whose files hold trees, and the configuration saved and loaded with it.
use steamos_containerized.Common.{
  if◌then◌else◌, is_some, Text, text, ◌=?◌, ◌≡◌, refl, ap, Bool, true, Option, none, some, List, [],
  ◌∷◌, arith, value_or, ◌∙◌, ◌⊎◌,
}
use steamos_containerized.Common.Int.{ℤ}
use steamos_containerized.Session.{hevc}
use steamos_containerized.Encoder.{first_available, select_encoder}
use steamos_containerized.Encoder.Choice.{IsUsable}
use steamos_containerized.Encoder.Checks.{NamesEncoder}
use steamos_containerized.Encoder.Toml.{Toml, IsToml}
use steamos_containerized.Encoder.Defaults.{sw_h264, defaults}
use steamos_containerized.Encoder.File.{config_path, Disk, load, Writer, save, load_or_seed}
use steamos_containerized.Encoder.Saved.{load-save}
use steamos_containerized.Encoder.Seed.{load_or_seed_again, IsKept, load_or_seed_first}

mutual
  data Item : Type 0 where
    str : Text → Item
    int : ℤ → Item
    arr : Items → Item
    tbl : Members → Item

  data Items : Type 0 where
    no_items : Items
    item : Item → Items → Items

  data Members : Type 0 where
    no_members : Members
    member : Text → Item → Members → Members

abbrev items_of : List Item → Items
items_of [] = no_items
items_of (x ∷ xs) = item x (items_of xs)

abbrev list_of : Items → List Item
list_of no_items = []
list_of (item x xs) = x ∷ list_of xs

list_of-items_of : (xs : List Item) → list_of (items_of xs) ≡ xs
list_of-items_of [] = refl
list_of-items_of (x ∷ xs) = ap (λ l. x ∷ l) (list_of-items_of xs)

abbrev get_member : Text → Members → Option Item
get_member j no_members = none
get_member j (member k v t) = if k =? j then some v else get_member j t

abbrev insert_member : Text → Item → Members → Members
insert_member k v t = if is_some (get_member k t) then t else member k v t

get_member-insert_member :
    (j k : Text) (v : Item) (t : Members)
    → get_member k t ≡ none
    → get_member j (insert_member k v t) ≡ (if k =? j then some v else get_member j t)
get_member-insert_member j k v t e = rw e refl

abbrev item_string : Item → Option Text
item_string (str s) = some s
item_string _ = none

abbrev item_int : Item → Option ℤ
item_int (int x) = some x
item_int _ = none

abbrev item_array : Item → Option (List Item)
item_array (arr xs) = some (list_of xs)
item_array _ = none

abbrev item_table : Item → Option Members
item_table (tbl t) = some t
item_table _ = none

-- A file holds a tree, or what is no TOML.
abbrev tree_toml : Toml
tree_toml = record {
  Table = Members;
  Node = Item;
  Content = Option Members;
  empty_table = no_members;
  get = get_member;
  insert_node = insert_member;
  string_node = str;
  int_node = int;
  array_node = λ xs. arr (items_of xs);
  table_node = tbl;
  as_string = item_string;
  as_int = item_int;
  as_array = item_array;
  as_table = item_table;
  print_table = λ t. some t;
  parse_content = λ c. c;
}

tree_toml-IsToml : IsToml tree_toml
tree_toml-IsToml = record {
  get-empty_table = λ k. refl;
  get-insert_node = get_member-insert_member;
  as_string-string_node = λ s. refl;
  as_int-int_node = λ x h. refl;
  as_array-array_node = λ ns. ap some (list_of-items_of ns);
  as_table-table_node = λ t. refl;
  parse-print_table = λ t. refl;
}

abbrev no_env : Text → Option Text
no_env k = none

-- A disk that keeps what is written, and one that keeps nothing legible.
abbrev good_disk : Writer tree_toml
good_disk = record { opens = λ p. true; good = λ p c. true; kept = λ p c. some c }

abbrev bad_disk : Writer tree_toml
bad_disk = record { opens = λ p. true; good = λ p c. true; kept = λ p c. some none }

abbrev blank : Disk tree_toml
blank = λ p. none

load-save_example :
    load tree_toml
      (save tree_toml good_disk defaults (config_path no_env) blank).1
      (config_path no_env)
    ≡ some defaults
unfolding defaults
load-save_example =
    load-save tree_toml tree_toml-IsToml good_disk defaults (config_path no_env) blank
      (omega arith, (omega arith, omega arith)) refl refl

-- The file of a user, which does not load.
abbrev edited : Disk tree_toml
edited = λ p. if p =? config_path no_env then some none else none

load_or_seed_again_example :
    IsKept tree_toml good_disk no_env edited
    × (((config_path no_env ≡ []) ⊎ ((load_or_seed tree_toml good_disk no_env edited).1 [] ≡ none))
        × (load_or_seed tree_toml good_disk no_env
              (load_or_seed tree_toml good_disk no_env edited).1
            ≡ load_or_seed tree_toml good_disk no_env edited))
unfolding ◌=?◌ config_path text
load_or_seed_again_example = load_or_seed_again tree_toml good_disk no_env [] edited

-- A box without a GPU.
abbrev software_only : Text → Bool
software_only el = el =? text "x264enc"

software_default : select_encoder software_only defaults hevc ≡ some sw_h264
unfolding select_encoder first_available ◌=?◌ text defaults
software_default = refl

seeded : (load_or_seed tree_toml good_disk no_env blank).0 ≡ defaults
unfolding load_or_seed defaults
seeded =
    ap (λ o. value_or o defaults)
      (load-save tree_toml tree_toml-IsToml good_disk defaults (config_path no_env) blank
        (omega arith, (omega arith, omega arith)) refl refl)

software_chosen :
    select_encoder software_only (load_or_seed tree_toml good_disk no_env blank).0 hevc
    ≡ some sw_h264
software_chosen = ap (λ c. select_encoder software_only c hevc) seeded ∙ software_default

load_or_seed_first_example :
    (load tree_toml (load_or_seed tree_toml good_disk no_env blank).1 (config_path no_env)
      ≡ some defaults)
    × ((load_or_seed tree_toml good_disk no_env blank).0 ≡ defaults)
    × (NamesEncoder sw_h264 × IsUsable software_only sw_h264)
load_or_seed_first_example =
    load_or_seed_first tree_toml good_disk tree_toml-IsToml no_env blank software_only hevc sw_h264
      refl refl refl software_chosen
