-- ===== src/Encoder/File.antt =====
-- encoder_config.cpp (server/src/server): the configuration as a file, over toml++ (Encoder/Toml).
-- A disk tells what each file holds; a file that is missing or cannot be opened holds nothing. What
-- an `ofstream` does is a parameter, `Writer`. `getenv` is a function into options.
use steamos_containerized.Common.{
  if◌then◌else◌, is_some, value_or, Text, text, ◌=?◌, Bool, false, Option, none, some, List, [],
  ◌∷◌, ◌++◌, map, and_then,
}
use steamos_containerized.Common.Int.{ℤ}
use steamos_containerized.Encoder.{GstEncoder, GstVideoCfg, GstAudioCfg, EncoderConfig}
use steamos_containerized.Encoder.Defaults.{defaults}
use steamos_containerized.Encoder.Toml.{Toml}

unfoldable pub config_path : (Text → Option Text) → Text
config_path env = elim (env (text "STEAM_STREAM_ENCODER_CONFIG")) [
  | some p ↦ p
  | none ↦
      value_or (env (text "STEAM_STREAM_STATE_DIR")) (text "/var/lib/steam-stream")
      ++ text "/encoders.toml"
]

module _ (T : Toml) where
  -- `t[k].value_or(...)`, `t[k].value<...>()`, `t[k].as_array()` and `t[k].as_table()`
  abbrev pub value_string : Text → T.Table → Option Text
  value_string k t = and_then (T.get k t) T.as_string

  abbrev pub value_int : Text → T.Table → Option ℤ
  value_int k t = and_then (T.get k t) T.as_int

  abbrev pub array_at : Text → T.Table → Option (List T.Node)
  array_at k t = and_then (T.get k t) T.as_array

  abbrev pub table_at : Text → T.Table → Option T.Table
  table_at k t = and_then (T.get k t) T.as_table

  abbrev pub insert_string : Text → Text → T.Table → T.Table
  insert_string k s t = T.insert_node k (T.string_node s) t

  -- The insertion of a member that is present.
  abbrev pub insert_some : Text → Option Text → T.Table → T.Table
  insert_some k none t = t
  insert_some k (some s) t = insert_string k s t

  unfoldable pub encoder_to_toml : GstEncoder → T.Table
  encoder_to_toml e = insert_some (text "video_params_zero_copy") e.video_params_zero_copy (
      insert_string (text "video_params") e.video_params (
        insert_string (text "encoder_pipeline") e.encoder_pipeline (
          T.insert_node (text "check_elements") (T.array_node (map T.string_node e.check_elements))
            (insert_string (text "plugin_name") e.plugin_name T.empty_table))))

  -- The strings of an array; what is not a string is passed over.
  unfoldable pub strings_of : List T.Node → List Text
  strings_of [] = []
  strings_of (n ∷ ns) =
      let rest = strings_of ns in elim (T.as_string n) [ some s ↦ s ∷ rest | none ↦ rest ]

  unfoldable pub encoder_from_toml : T.Table → GstEncoder
  unfolding strings_of
  encoder_from_toml t = record {
    plugin_name = value_or (value_string (text "plugin_name") t) [];
    check_elements = strings_of (value_or (array_at (text "check_elements") t) []);
    encoder_pipeline = value_or (value_string (text "encoder_pipeline") t) [];
    video_params = value_or (value_string (text "video_params") t) [];
    video_params_zero_copy = value_string (text "video_params_zero_copy") t;
  }

  abbrev pub encoders_to_toml : List GstEncoder → T.Node
  encoders_to_toml encs = T.array_node (map (λ e. T.table_node (encoder_to_toml e)) encs)

  unfoldable pub encoders_of_nodes : List T.Node → List GstEncoder
  encoders_of_nodes [] = []
  encoders_of_nodes (n ∷ ns) =
      let rest = encoders_of_nodes ns in
      elim (T.as_table n) [ some t ↦ encoder_from_toml t ∷ rest | none ↦ rest ]

  unfoldable pub encoders_from_toml : Option (List T.Node) → List GstEncoder
  unfolding encoders_of_nodes
  encoders_from_toml none = []
  encoders_from_toml (some ns) = encoders_of_nodes ns

  unfoldable pub video_from_toml : T.Table → GstVideoCfg
  unfolding encoders_from_toml
  video_from_toml v = record {
    default_source = value_or (value_string (text "default_source") v) [];
    default_source_zero_copy = value_string (text "default_source_zero_copy") v;
    default_sink = value_or (value_string (text "default_sink") v) [];
    h264_encoders = encoders_from_toml (array_at (text "h264_encoders") v);
    hevc_encoders = encoders_from_toml (array_at (text "hevc_encoders") v);
    av1_encoders = encoders_from_toml (array_at (text "av1_encoders") v);
  }

  -- `d` is the audio part of the defaults.
  unfoldable pub audio_from_toml : GstAudioCfg → Option T.Table → GstAudioCfg
  audio_from_toml d none = d
  audio_from_toml d (some a) = record {
    sink_name = value_or (value_string (text "sink_name") a) d.sink_name;
    audio_source = value_or (value_string (text "default_source") a) d.audio_source;
    default_opus_encoder =
        value_or (value_string (text "default_opus_encoder") a) d.default_opus_encoder;
    bitrate_stereo = value_or (value_int (text "bitrate_stereo") a) d.bitrate_stereo;
    bitrate_51 = value_or (value_int (text "bitrate_51") a) d.bitrate_51;
    bitrate_71 = value_or (value_int (text "bitrate_71") a) d.bitrate_71;
  }

  -- From the tables [video] and [audio], where they are there.
  abbrev pub config_of : Option T.Table → Option T.Table → Option EncoderConfig
  config_of none audio = none
  config_of (some v) audio = some (record {
    video_cfg = video_from_toml v;
    audio_cfg = audio_from_toml defaults.audio_cfg audio;
  })

  abbrev pub config_from_toml : T.Table → Option EncoderConfig
  config_from_toml root = config_of (table_at (text "video") root) (table_at (text "audio") root)

  abbrev pub Disk : Type 0
  Disk = Text → Option T.Content

  -- A file that cannot be opened is a parse error too.
  unfoldable pub load : Disk → Text → Option EncoderConfig
  unfolding audio_from_toml video_from_toml
  load d path = and_then (and_then (d path) T.parse_content) config_from_toml

  unfoldable pub video_to_toml : GstVideoCfg → T.Table
  unfolding encoder_to_toml
  video_to_toml v = T.insert_node (text "av1_encoders") (encoders_to_toml v.av1_encoders) (
      T.insert_node (text "hevc_encoders") (encoders_to_toml v.hevc_encoders) (
        T.insert_node (text "h264_encoders") (encoders_to_toml v.h264_encoders) (
          insert_string (text "default_sink") v.default_sink (
            insert_some (text "default_source_zero_copy") v.default_source_zero_copy
              (insert_string (text "default_source") v.default_source T.empty_table)))))

  unfoldable pub audio_to_toml : GstAudioCfg → T.Table
  audio_to_toml a = T.insert_node (text "bitrate_71") (T.int_node a.bitrate_71) (
      T.insert_node (text "bitrate_51") (T.int_node a.bitrate_51) (
        T.insert_node (text "bitrate_stereo") (T.int_node a.bitrate_stereo) (
          insert_string (text "default_opus_encoder") a.default_opus_encoder (
            insert_string (text "default_source") a.audio_source
              (insert_string (text "sink_name") a.sink_name T.empty_table)))))

  unfoldable pub config_to_toml : EncoderConfig → T.Table
  unfolding audio_to_toml video_to_toml
  config_to_toml cfg =
      T.insert_node (text "audio") (T.table_node (audio_to_toml cfg.audio_cfg))
        (T.insert_node (text "video") (T.table_node (video_to_toml cfg.video_cfg)) T.empty_table)

  -- `opens` is whether the file can be opened to write. `good` is the state of the stream after
  -- `<<`, and `kept` what the file holds once the stream is closed.
  pub record Writer : Type 0 where
    pub opens : Text → Bool
    pub good : Text → T.Content → Bool
    pub kept : Text → T.Content → Option T.Content

  abbrev pub put_file : Text → Option T.Content → Disk → Disk
  put_file path c d = λ p. if path =? p then c else d p

  unfoldable pub save : Writer → EncoderConfig → Text → Disk → Bool × Disk
  unfolding config_to_toml
  save w cfg path d =
      let out = T.print_table (config_to_toml cfg) in
      if w.opens path then (w.good path out, put_file path (w.kept path out) d) else (false, d)

  abbrev pub create_default_if_missing : Writer → Text → Disk → Disk
  create_default_if_missing w path d = if is_some (d path) then d else (save w defaults path d).1

  unfoldable pub load_or_seed : Writer → (Text → Option Text) → Disk → EncoderConfig × Disk
  unfolding save
  load_or_seed w env d =
      let path = config_path env in
      let seeded = create_default_if_missing w path d in
      (value_or (load seeded path) defaults, seeded)
