-- ===== src/Encoder/Checks.antt =====
-- encoder_config.cpp (server/src/server): what a configuration without issues has.
use steamos_containerized.Common.{
  is_some, All, Text, text, ℕ, ◌+◌, ◌≡◌, refl, true, List, [], ◌∷◌, ◌++◌, arith, find_if-eq-some,
  All-find_if, All-append, sym, ◌∙◌, Bool, some,
}
use steamos_containerized.Session.{VideoFormat, h264, hevc, av1}
use steamos_containerized.Rtsp.Socket.{find_text}
use steamos_containerized.Encoder.{
  GstEncoder, check_list, EncoderConfig, is_available, encoders_of, select_encoder, check_name,
  check_fields, video_issues, list_issues, audio_issues, validate,
}
use steamos_containerized.Encoder.Choice.{IsUsable, all_made_iff, chosen}

-- `update_bitrate` finds the element by this name.
abbrev pub NamesEncoder : GstEncoder → Type 0
NamesEncoder e = is_some (find_text (text "name=video_encoder") e.encoder_pipeline) ≡ true

append_nil_parts : {A : Type 0} (xs ys : List A) → xs ++ ys ≡ [] → (xs ≡ []) × (ys ≡ [])
append_nil_parts [] ys e = (refl, e)
append_nil_parts (x ∷ xs) ys e = cc e

check_list-NamesEncoder :
    (name : Text) (i : ℕ) (es : List GstEncoder) → check_list name i es ≡ [] → All NamesEncoder es
unfolding check_list
check_list-NamesEncoder name i [] h = tt
check_list-NamesEncoder name i (e ∷ es) h =
    let after =
      append_nil_parts (check_fields name i e)
        (check_name name i e.encoder_pipeline ++ check_list name (i + 1) es) h in
    let parts =
      append_nil_parts (check_name name i e.encoder_pipeline) (check_list name (i + 1) es)
        after.1 in
    (ground (arith, parts.0), check_list-NamesEncoder name (i + 1) es parts.1)

lists_checked :
    (cfg : EncoderConfig) (fmt : VideoFormat)
    → validate cfg ≡ []
    → All NamesEncoder (encoders_of fmt cfg)
unfolding validate
lists_checked cfg fmt h =
    let v = cfg.video_cfg in
    let after = append_nil_parts (video_issues v) (list_issues v ++ audio_issues cfg.audio_cfg) h in
    let lists = append_nil_parts (list_issues v) (audio_issues cfg.audio_cfg) after.1 in
    let first =
      append_nil_parts (check_list (text "h264_encoders") 0 v.h264_encoders)
        (check_list (text "hevc_encoders") 0 v.hevc_encoders
          ++ check_list (text "av1_encoders") 0 v.av1_encoders)
        lists.0 in
    let rest =
      append_nil_parts (check_list (text "hevc_encoders") 0 v.hevc_encoders)
        (check_list (text "av1_encoders") 0 v.av1_encoders) first.1 in
    elim fmt as (λ k. All NamesEncoder (encoders_of k cfg)) [
      | h264 ↦ check_list-NamesEncoder (text "h264_encoders") 0 v.h264_encoders first.0
      | hevc ↦ check_list-NamesEncoder (text "hevc_encoders") 0 v.hevc_encoders rest.0
      | av1 ↦ check_list-NamesEncoder (text "av1_encoders") 0 v.av1_encoders rest.1
    ]

-- If a configuration has no issues, then the encoder chosen for any codec, the fallback to H264
-- included, can be made and names the element that a change of the bitrate looks for.
pub select_encoder-NamesEncoder :
    (makes : Text → Bool) (cfg : EncoderConfig) (fmt : VideoFormat) (e : GstEncoder)
    → validate cfg ≡ []
    → select_encoder makes cfg fmt ≡ some e
    → NamesEncoder e × IsUsable makes e
select_encoder-NamesEncoder makes cfg fmt e h s =
    let all = encoders_of fmt cfg ++ cfg.video_cfg.h264_encoders in
    let found = sym (chosen makes cfg fmt) ∙ s in
    (
      All-find_if NamesEncoder (is_available makes) all
          (All-append NamesEncoder (encoders_of fmt cfg) cfg.video_cfg.h264_encoders
            (lists_checked cfg fmt h) (lists_checked cfg h264 h))
          found,
      (all_made_iff makes e.check_elements).0 (find_if-eq-some (is_available makes) all e found),
    )
