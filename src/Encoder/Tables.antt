-- ===== src/Encoder/Tables.antt =====
-- encoder_config.cpp (server/src/server): tables that are made by inserting keys one after another.
use steamos_containerized.Common.{
  and_then, Text, ◌=?◌, =?_refl, ◌≡◌, refl, ap, ◌∙◌, false, Option, none, some, List, [], ◌∷◌,
  arith,
}
use steamos_containerized.Common.Assoc.{lookup}
use steamos_containerized.Encoder.Toml.{Toml, IsToml}
use steamos_containerized.Encoder.File.{insert_some}

module _ (T : Toml) (L : IsToml T) where
  -- A table made by inserting keys that differ holds them all.
  abbrev pub built : List (Text × T.Node) → T.Table
  built [] = T.empty_table
  built ((k, v) ∷ kvs) = T.insert_node k v (built kvs)

  abbrev pub KeysDiffer : List (Text × T.Node) → Type 0
  KeysDiffer [] = Unit
  KeysDiffer ((k, v) ∷ kvs) = (lookup k kvs ≡ none) × KeysDiffer kvs

  pub get-built :
      (kvs : List (Text × T.Node)) (j : Text) → KeysDiffer kvs → T.get j (built kvs) ≡ lookup j kvs
  unfolding lookup
  get-built [] j d = L.get-empty_table j
  get-built ((k, v) ∷ kvs) j d =
      ground (
        arith,
        L.get-insert_node j k v (built kvs) (get-built kvs k d.1 ∙ d.0),
        get-built kvs j d.1,
      )

  pub got :
      {A : Type 0} (kvs : List (Text × T.Node)) (read : T.Node → Option A) (j : Text) (a : Option A)
      → KeysDiffer kvs
      → and_then (lookup j kvs) read ≡ a
      → and_then (T.get j (built kvs)) read ≡ a
  got kvs read j a d e = ap (λ o. and_then o read) (get-built kvs j d) ∙ e

  abbrev pub optional : Text → Option Text → List (Text × T.Node) → List (Text × T.Node)
  optional k none kvs = kvs
  optional k (some s) kvs = (k, T.string_node s) ∷ kvs

  pub built-optional :
      (k : Text) (z : Option Text) (kvs : List (Text × T.Node))
      → insert_some T k z (built kvs) ≡ built (optional k z kvs)
  built-optional k none kvs = refl
  built-optional k (some s) kvs = refl

  pub KeysDiffer-optional :
      (k : Text) (z : Option Text) (kvs : List (Text × T.Node))
      → KeysDiffer kvs
      → lookup k kvs ≡ none
      → KeysDiffer (optional k z kvs)
  KeysDiffer-optional k none kvs d e = d
  KeysDiffer-optional k (some s) kvs d e = (e, d)

  pub lookup-optional :
      (k : Text) (z : Option Text) (kvs : List (Text × T.Node)) (j : Text)
      → (k =? j) ≡ false
      → lookup j (optional k z kvs) ≡ lookup j kvs
  unfolding lookup
  lookup-optional k none kvs j e = refl
  lookup-optional k (some s) kvs j e = ground arith

  pub as_string-optional :
      (k : Text) (z : Option Text) (kvs : List (Text × T.Node))
      → lookup k kvs ≡ none
      → and_then (lookup k (optional k z kvs)) T.as_string ≡ z
  unfolding lookup
  as_string-optional k none kvs e = ground arith
  as_string-optional k (some s) kvs e = ground (arith, =?_refl k, L.as_string-string_node s)
