-- ===== src/Encoder/Toml.antt =====
-- toml++, as encoder_config.cpp (server/src/server) uses it. The library is not part of the
-- repository: its tables, its values and what a file holds are unknown types.
use steamos_containerized.Common.{if◌then◌else◌, Text, ◌=?◌, ◌≡◌, Option, none, some, List}
use steamos_containerized.Common.Int.{ℤ, pos, negsuc, ◌≤ℤ◌}

pub record Toml : Type 1 where
  pub Table : Type 0
  pub Node : Type 0
  pub Content : Type 0
  pub empty_table : Table
  pub get : Text → Table → Option Node
  pub insert_node : Text → Node → Table → Table
  pub string_node : Text → Node
  pub int_node : ℤ → Node
  pub array_node : List Node → Node
  pub table_node : Table → Node
  -- `value<std::string>()`, `value<int>()`, `as_array()` and `as_table()`
  pub as_string : Node → Option Text
  pub as_int : Node → Option ℤ
  pub as_array : Node → Option (List Node)
  pub as_table : Node → Option Table
  -- `out << root` and `parse`
  pub print_table : Table → Content
  pub parse_content : Content → Option Table

-- The range of an `int`.
abbrev pub IsInt : ℤ → Type 0
IsInt x = (negsuc 2147483647 ≤ℤ x) × (x ≤ℤ pos 2147483647)

-- What toml++ documents: `insert` adds a key that is missing and changes no other, a value has the
-- type it was made with, and a table that was printed is read back.
pub record IsToml (T : Toml) : Type 0 where
  pub get-empty_table : (k : Text) → T.get k T.empty_table ≡ none
  pub get-insert_node :
      (j k : Text) (v : T.Node) (t : T.Table)
      → T.get k t ≡ none
      → T.get j (T.insert_node k v t) ≡ (if k =? j then some v else T.get j t)
  pub as_string-string_node : (s : Text) → T.as_string (T.string_node s) ≡ some s
  pub as_int-int_node : (x : ℤ) → IsInt x → T.as_int (T.int_node x) ≡ some x
  pub as_array-array_node : (ns : List T.Node) → T.as_array (T.array_node ns) ≡ some ns
  pub as_table-table_node : (t : T.Table) → T.as_table (T.table_node t) ≡ some t
  pub parse-print_table : (t : T.Table) → T.parse_content (T.print_table t) ≡ some t
