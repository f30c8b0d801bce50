-- ===== src/Encoder/Roundtrip.antt =====
-- encoder_config.cpp (server/src/server): an encoder that was written to TOML is read back.
use steamos_containerized.Common.{
  value_or, and_then, Text, text, ◌=?◌, ◌≡◌, refl, ap, ◌∙◌, false, Option, some, List, [], ◌∷◌, map,
  arith,
}
use steamos_containerized.Common.Assoc.{lookup}
use steamos_containerized.Encoder.{GstEncoder}
use steamos_containerized.Encoder.Toml.{Toml, IsToml}
use steamos_containerized.Encoder.File.{
  encoder_to_toml, strings_of, encoder_from_toml, encoders_to_toml, encoders_of_nodes,
  encoders_from_toml,
}
use steamos_containerized.Encoder.Tables.{
  built, KeysDiffer, got, optional, built-optional, KeysDiffer-optional, lookup-optional,
  as_string-optional,
}

module _ (T : Toml) (L : IsToml T) where
  strings_of_strings : (ss : List Text) → strings_of T (map T.string_node ss) ≡ ss
  unfolding strings_of
  strings_of_strings [] = refl
  strings_of_strings (s ∷ ss) = ground (arith, L.as_string-string_node s, strings_of_strings ss)

  encoder_members : GstEncoder → List (Text × T.Node)
  encoder_members e =
      (text "video_params", T.string_node e.video_params)
      ∷ (text "encoder_pipeline", T.string_node e.encoder_pipeline)
      ∷ (text "check_elements", T.array_node (map T.string_node e.check_elements))
      ∷ (text "plugin_name", T.string_node e.plugin_name)
      ∷ []

  encoder_members_differ : (e : GstEncoder) → KeysDiffer T L (encoder_members e)
  unfolding encoder_members lookup text ◌=?◌
  encoder_members_differ e = (refl, (refl, (refl, (refl, tt))))

  all_encoder_members : GstEncoder → List (Text × T.Node)
  unfolding encoder_members
  all_encoder_members e =
      optional T L (text "video_params_zero_copy") e.video_params_zero_copy (encoder_members e)

  encoder_to_toml-built : (e : GstEncoder) → encoder_to_toml T e ≡ built T L (all_encoder_members e)
  unfolding encoder_to_toml all_encoder_members encoder_members
  encoder_to_toml-built e =
      built-optional T L (text "video_params_zero_copy") e.video_params_zero_copy
        (encoder_members e)

  all_encoder_members_differ : (e : GstEncoder) → KeysDiffer T L (all_encoder_members e)
  unfolding all_encoder_members encoder_members lookup text ◌=?◌
  all_encoder_members_differ e =
      KeysDiffer-optional T L (text "video_params_zero_copy") e.video_params_zero_copy
        (encoder_members e) (encoder_members_differ e) refl

  encoder_member :
      {A : Type 0} (e : GstEncoder) (read : T.Node → Option A) (j : Text) (a : A)
      → (text "video_params_zero_copy" =? j) ≡ false
      → and_then (lookup j (encoder_members e)) read ≡ some a
      → and_then (T.get j (built T L (all_encoder_members e))) read ≡ some a
  unfolding all_encoder_members
  encoder_member e read j a n m =
      got T L (all_encoder_members e) read j (some a) (all_encoder_members_differ e) (
        ap (λ o. and_then o read)
          (lookup-optional T L (text "video_params_zero_copy") e.video_params_zero_copy
            (encoder_members e) j n)
        ∙ m)

  encoder_from_built :
      (e : GstEncoder) → encoder_from_toml T (built T L (all_encoder_members e)) ≡ e
  unfolding encoder_from_toml encoder_members all_encoder_members lookup text ◌=?◌
  encoder_from_built e =
      let plugin =
        encoder_member e T.as_string (text "plugin_name") e.plugin_name refl
          (L.as_string-string_node e.plugin_name) in
      let checks =
        encoder_member e T.as_array (text "check_elements") (map T.string_node e.check_elements)
          refl (L.as_array-array_node (map T.string_node e.check_elements)) in
      let pipeline =
        encoder_member e T.as_string (text "encoder_pipeline") e.encoder_pipeline refl
          (L.as_string-string_node e.encoder_pipeline) in
      let params =
        encoder_member e T.as_string (text "video_params") e.video_params refl
          (L.as_string-string_node e.video_params) in
      let zero =
        got T L (all_encoder_members e) T.as_string (text "video_params_zero_copy")
          e.video_params_zero_copy (all_encoder_members_differ e)
          (as_string-optional T L (text "video_params_zero_copy") e.video_params_zero_copy
            (encoder_members e) refl) in
      λ i. record {
        plugin_name = value_or (plugin i) [];
        check_elements =
            (ap (λ o. strings_of T (value_or o [])) checks ∙ strings_of_strings e.check_elements) i;
        encoder_pipeline = value_or (pipeline i) [];
        video_params = value_or (params i) [];
        video_params_zero_copy = zero i;
      }

  pub encoder_from-to_toml : (e : GstEncoder) → encoder_from_toml T (encoder_to_toml T e) ≡ e
  encoder_from-to_toml e = ap (encoder_from_toml T) (encoder_to_toml-built e) ∙ encoder_from_built e

  encoders_of_nodes_of :
      (es : List GstEncoder)
      → encoders_of_nodes T (map (λ e. T.table_node (encoder_to_toml T e)) es) ≡ es
  unfolding encoders_of_nodes
  encoders_of_nodes_of [] = refl
  encoders_of_nodes_of (e ∷ es) = ground (
    arith,
    L.as_table-table_node (encoder_to_toml T e),
    encoder_from-to_toml e,
    encoders_of_nodes_of es,
  )

  pub encoders_from-to_toml :
      (es : List GstEncoder) → encoders_from_toml T (T.as_array (encoders_to_toml T es)) ≡ es
  unfolding encoders_from_toml
  encoders_from-to_toml es =
      rw (L.as_array-array_node (map (λ e. T.table_node (encoder_to_toml T e)) es))
        (encoders_of_nodes_of es)
