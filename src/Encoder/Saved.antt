-- ===== src/Encoder/Saved.antt =====
-- encoder_config.cpp (server/src/server): a configuration that was saved is the one that is loaded.
use steamos_containerized.Common.{
  value_or, and_then, Text, text, ◌=?◌, ◌≡◌, refl, ap, ◌∙◌, false, Option, none, some, List, [],
  ◌∷◌, =?_refl, true,
}
use steamos_containerized.Common.Assoc.{lookup}
use steamos_containerized.Encoder.{GstVideoCfg, GstAudioCfg, GstEncoder, EncoderConfig}
use steamos_containerized.Encoder.Toml.{Toml, IsInt, IsToml}
use steamos_containerized.Encoder.Defaults.{defaults}
use steamos_containerized.Encoder.File.{
  encoders_to_toml, audio_from_toml, video_to_toml, audio_to_toml, array_at, table_at,
  encoders_from_toml, video_from_toml, config_from_toml, Disk, load, config_to_toml, Writer, save,
}
use steamos_containerized.Encoder.Tables.{
  built, KeysDiffer, got, optional, built-optional, KeysDiffer-optional, lookup-optional,
  as_string-optional,
}
use steamos_containerized.Encoder.Roundtrip.{encoders_from-to_toml}

-- The bitrates are `int` values.
abbrev pub HasIntBitrates : GstAudioCfg → Type 0
HasIntBitrates a = IsInt a.bitrate_stereo × (IsInt a.bitrate_51 × IsInt a.bitrate_71)

module _ (T : Toml) (L : IsToml T) where
  audio_members : GstAudioCfg → List (Text × T.Node)
  audio_members a =
      (text "bitrate_71", T.int_node a.bitrate_71)
      ∷ (text "bitrate_51", T.int_node a.bitrate_51)
      ∷ (text "bitrate_stereo", T.int_node a.bitrate_stereo)
      ∷ (text "default_opus_encoder", T.string_node a.default_opus_encoder)
      ∷ (text "default_source", T.string_node a.audio_source)
      ∷ (text "sink_name", T.string_node a.sink_name)
      ∷ []

  audio_member :
      {A : Type 0} (a : GstAudioCfg) (read : T.Node → Option A) (j : Text) (x : A)
      → and_then (lookup j (audio_members a)) read ≡ some x
      → and_then (T.get j (audio_to_toml T a)) read ≡ some x
  unfolding audio_to_toml audio_members lookup text ◌=?◌
  audio_member a read j x e =
      got T L (audio_members a) read j (some x) (refl, (refl, (refl, (refl, (refl, (refl, tt)))))) e

  audio_from-to_toml :
      (d a : GstAudioCfg) → HasIntBitrates a → audio_from_toml T d (some (audio_to_toml T a)) ≡ a
  unfolding audio_from_toml audio_members lookup text ◌=?◌
  audio_from-to_toml d a (h2, (h51, h71)) =
      let str = L.as_string-string_node in
      let sink = audio_member a T.as_string (text "sink_name") a.sink_name (str a.sink_name) in
      let source =
        audio_member a T.as_string (text "default_source") a.audio_source (str a.audio_source) in
      let opus =
        audio_member a T.as_string (text "default_opus_encoder") a.default_opus_encoder
          (str a.default_opus_encoder) in
      let stereo =
        audio_member a T.as_int (text "bitrate_stereo") a.bitrate_stereo
          (L.as_int-int_node a.bitrate_stereo h2) in
      let b51 =
        audio_member a T.as_int (text "bitrate_51") a.bitrate_51
          (L.as_int-int_node a.bitrate_51 h51) in
      let b71 =
        audio_member a T.as_int (text "bitrate_71") a.bitrate_71
          (L.as_int-int_node a.bitrate_71 h71) in
      λ i. record {
        sink_name = value_or (sink i) d.sink_name;
        audio_source = value_or (source i) d.audio_source;
        default_opus_encoder = value_or (opus i) d.default_opus_encoder;
        bitrate_stereo = value_or (stereo i) d.bitrate_stereo;
        bitrate_51 = value_or (b51 i) d.bitrate_51;
        bitrate_71 = value_or (b71 i) d.bitrate_71;
      }

  abbrev source_members : GstVideoCfg → List (Text × T.Node)
  source_members v = (text "default_source", T.string_node v.default_source) ∷ []

  abbrev list_members : GstVideoCfg → List (Text × T.Node) → List (Text × T.Node)
  list_members v kvs =
      (text "av1_encoders", encoders_to_toml T v.av1_encoders)
      ∷ (text "hevc_encoders", encoders_to_toml T v.hevc_encoders)
      ∷ (text "h264_encoders", encoders_to_toml T v.h264_encoders)
      ∷ (text "default_sink", T.string_node v.default_sink)
      ∷ kvs

  abbrev zero_key : Text
  zero_key = text "default_source_zero_copy"

  video_members : GstVideoCfg → List (Text × T.Node)
  video_members v =
      list_members v (optional T L zero_key v.default_source_zero_copy (source_members v))

  -- A key that the source's table has not is not in the optional part either.
  not_optional :
      (v : GstVideoCfg) (j : Text)
      → (zero_key =? j) ≡ false
      → lookup j (source_members v) ≡ none
      → lookup j (optional T L zero_key v.default_source_zero_copy (source_members v)) ≡ none
  not_optional v j n e =
      lookup-optional T L zero_key v.default_source_zero_copy (source_members v) j n ∙ e

  video_members_differ : (v : GstVideoCfg) → KeysDiffer T L (video_members v)
  unfolding video_members lookup text ◌=?◌
  video_members_differ v = (
    not_optional v (text "av1_encoders") refl refl,
    (
      not_optional v (text "hevc_encoders") refl refl,
      (
        not_optional v (text "h264_encoders") refl refl,
        (
          not_optional v (text "default_sink") refl refl,
          KeysDiffer-optional T L zero_key v.default_source_zero_copy (source_members v) (refl, tt)
              refl,
        ),
      ),
    ),
  )

  video_to_toml-built : (v : GstVideoCfg) → video_to_toml T v ≡ built T L (video_members v)
  unfolding video_to_toml video_members
  video_to_toml-built v =
      ap (λ t. built_lists v t)
        (built-optional T L zero_key v.default_source_zero_copy (source_members v))
    where
      built_lists : GstVideoCfg → T.Table → T.Table
      built_lists v t = T.insert_node (text "av1_encoders") (encoders_to_toml T v.av1_encoders) (
          T.insert_node (text "hevc_encoders") (encoders_to_toml T v.hevc_encoders) (
            T.insert_node (text "h264_encoders") (encoders_to_toml T v.h264_encoders)
              (T.insert_node (text "default_sink") (T.string_node v.default_sink) t)))

  video_member :
      {A : Type 0} (v : GstVideoCfg) (read : T.Node → Option A) (j : Text) (x : Option A)
      → and_then (lookup j (video_members v)) read ≡ x
      → and_then (T.get j (video_to_toml T v)) read ≡ x
  video_member v read j x e =
      ap (λ t. and_then (T.get j t) read) (video_to_toml-built v)
      ∙ got T L (video_members v) read j x (video_members_differ v) e

  video_list :
      (v : GstVideoCfg) (j : Text) (es : List GstEncoder)
      → lookup j (video_members v) ≡ some (encoders_to_toml T es)
      → encoders_from_toml T (array_at T j (video_to_toml T v)) ≡ es
  video_list v j es e =
      ap (encoders_from_toml T) (
        video_member v T.as_array j (T.as_array (encoders_to_toml T es))
          (ap (λ o. and_then o T.as_array) e))
      ∙ encoders_from-to_toml T L es

  video_from-to_toml : (v : GstVideoCfg) → video_from_toml T (video_to_toml T v) ≡ v
  unfolding video_from_toml video_members lookup text ◌=?◌
  video_from-to_toml v =
      let zc = v.default_source_zero_copy in
      let source = video_member v T.as_string (text "default_source") (some v.default_source) (
        ap (λ o. and_then o T.as_string)
          (lookup-optional T L zero_key zc (source_members v) (text "default_source") refl)
        ∙ L.as_string-string_node v.default_source) in
      let zero =
        video_member v T.as_string zero_key zc
          (as_string-optional T L zero_key zc (source_members v) refl) in
      let sink =
        video_member v T.as_string (text "default_sink") (some v.default_sink)
          (L.as_string-string_node v.default_sink) in
      λ i. record {
        default_source = value_or (source i) [];
        default_source_zero_copy = zero i;
        default_sink = value_or (sink i) [];
        h264_encoders = video_list v (text "h264_encoders") v.h264_encoders refl i;
        hevc_encoders = video_list v (text "hevc_encoders") v.hevc_encoders refl i;
        av1_encoders = video_list v (text "av1_encoders") v.av1_encoders refl i;
      }

  root_members : EncoderConfig → List (Text × T.Node)
  root_members cfg =
      (text "audio", T.table_node (audio_to_toml T cfg.audio_cfg))
      ∷ (text "video", T.table_node (video_to_toml T cfg.video_cfg))
      ∷ []

  root_table :
      (cfg : EncoderConfig) (j : Text) (t : T.Table)
      → lookup j (root_members cfg) ≡ some (T.table_node t)
      → table_at T j (config_to_toml T cfg) ≡ some t
  unfolding config_to_toml root_members lookup text ◌=?◌
  root_table cfg j t e =
      got T L (root_members cfg) T.as_table j (some t) (refl, (refl, tt))
        (ap (λ o. and_then o T.as_table) e ∙ L.as_table-table_node t)

  pub config_from-to_toml :
      (cfg : EncoderConfig)
      → HasIntBitrates cfg.audio_cfg
      → config_from_toml T (config_to_toml T cfg) ≡ some cfg
  unfolding root_members lookup text ◌=?◌
  config_from-to_toml cfg h =
      let video = root_table cfg (text "video") (video_to_toml T cfg.video_cfg) refl in
      let audio = root_table cfg (text "audio") (audio_to_toml T cfg.audio_cfg) refl in
      rw video (
        rw audio (λ i. some (record {
          video_cfg = video_from-to_toml cfg.video_cfg i;
          audio_cfg = audio_from-to_toml defaults.audio_cfg cfg.audio_cfg h i;
        })))

  -- If a configuration is saved where the file can be opened, and the file holds what was printed
  -- once the stream is closed, then loading the file gives the configuration: its encoders, its
  -- texts, empty ones included, which optional texts it has, and its bitrates, which are `int`s.
  pub load-save :
      (w : Writer T) (cfg : EncoderConfig) (path : Text) (d : Disk T)
      → HasIntBitrates cfg.audio_cfg
      → w.opens path ≡ true
      → w.kept path (T.print_table (config_to_toml T cfg))
        ≡ some (T.print_table (config_to_toml T cfg))
      → load T (save T w cfg path d).1 path ≡ some cfg
  unfolding load save
  load-save w cfg path d h o k = rw o (
      rw (=?_refl path)
        (rw k (rw (L.parse-print_table (config_to_toml T cfg)) (config_from-to_toml cfg h))))
