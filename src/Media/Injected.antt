-- ===== src/Media/Injected.antt =====
-- media.cpp (server/src/server): which events a session sends into its pipeline.
use steamos_containerized.Common.{
  if◌then◌else◌, and_then, Text, ℕ, ◌≡◌, refl, Bool, Option, some, List, [], ◌∷◌, ◌++◌, is_empty,
  ap, ◌∙◌, true, false, none,
}
use steamos_containerized.Common.Int.{ℤ, pos, leb_ℤ}
use steamos_containerized.Media.Pipelines.{Env, Built, encoder_vbv_kbit}
use steamos_containerized.Media.Live.{
  AudioPipeline, MediaSession, UpstreamEvent, mouse_move_relative, mouse_move_absolute,
  mouse_axis_event, mouse_button_event, keyboard_key_event, force_key_unit, send_wayland_event,
  force_idr, VideoPipeline, note_client_mouse, set_bitrate, in_pipeline, update_bitrate, drop_sinks,
  refresh_unless, retarget, rebuild_audio,
}
use steamos_containerized.Media.Running.{
  MediaCall, mouse_move_rel, mouse_move_abs, mouse_axis, mouse_button, keyboard_key,
  pointer_injects, pads_change, wants_idr, new_bitrate, retargets, rebuilds_audio, parts,
  media_call, media_calls, parts-media_call,
}

unchanged : (o : Option ℕ) → o ≡ and_then o (λ last. some last)
unchanged none = refl
unchanged (some a) = refl

changed_pipeline : (Text → ℤ) → Env → ℤ → MediaSession → Option VideoPipeline
changed_pipeline atol env b m =
    and_then m.video_pipeline
      (λ p. some (in_pipeline (set_bitrate b (encoder_vbv_kbit atol env b)) p))

module _ {D : Type 0} where
  abbrev when : Bool → UpstreamEvent D → List (UpstreamEvent D)
  when b e = if b then e ∷ [] else []

  -- By which parts there are: the video pipeline, its source of input, the pointer synchronisation.
  abbrev pub event_of : Bool × (Bool × Bool) → MediaCall D → List (UpstreamEvent D)
  event_of (v, (w, p)) (mouse_move_rel now x y) = when w (mouse_move_relative x y)
  event_of (v, (w, p)) (mouse_move_abs now x y) = when w (mouse_move_absolute x y)
  event_of (v, (w, p)) (mouse_axis x y) = when w (mouse_axis_event x y)
  event_of (v, (w, p)) (mouse_button b pressed) = when w (mouse_button_event b pressed)
  event_of (v, (w, p)) (keyboard_key k pressed) = when w (keyboard_key_event k pressed)
  event_of (v, (w, p)) (pointer_injects x y) = if p then when w (mouse_move_absolute x y) else []
  event_of (v, (w, p)) wants_idr = when v force_key_unit
  event_of (v, (w, p)) _ = []

  abbrev pub events_of : Bool × (Bool × Bool) → List (MediaCall D) → List (UpstreamEvent D)
  events_of q [] = []
  events_of q (c ∷ cs) = event_of q c ++ events_of q cs

  -- The time of the last mouse movement of the client; an injection is none.
  abbrev pub noted : ℕ → List (MediaCall D) → ℕ
  noted last [] = last
  noted last (mouse_move_rel now x y ∷ cs) = noted now cs
  noted last (mouse_move_abs now x y ∷ cs) = noted now cs
  noted last (_ ∷ cs) = noted last cs

  module _ (atol : Text → ℤ) (env : Env) (launched : Built → Option AudioPipeline) where
    event_of-media_call :
        (c : MediaCall D) (m : MediaSession)
        → (media_call atol env launched c m).1 ≡ event_of (parts m) c
    unfolding media_call send_wayland_event force_idr
    event_of-media_call (mouse_move_rel now x y) m = refl
    event_of-media_call (mouse_move_abs now x y) m = refl
    event_of-media_call (mouse_axis x y) m = refl
    event_of-media_call (mouse_button b pressed) m = refl
    event_of-media_call (keyboard_key k pressed) m = refl
    event_of-media_call (pointer_injects x y) m = refl
    event_of-media_call (pads_change g) m = refl
    event_of-media_call wants_idr m = refl
    event_of-media_call (new_bitrate b) m = refl
    event_of-media_call (retargets s) m = refl
    event_of-media_call (rebuilds_audio t channels) m = refl

    pointer_sync-media_call :
        (c : MediaCall D) (m : MediaSession)
        → (media_call atol env launched c m).0.pointer_sync
          ≡ and_then m.pointer_sync (λ last. some (noted last (c ∷ [])))
    unfolding media_call note_client_mouse update_bitrate retarget refresh_unless rebuild_audio
        changed_pipeline
    pointer_sync-media_call (mouse_move_rel now x y) m = refl
    pointer_sync-media_call (mouse_move_abs now x y) m = refl
    pointer_sync-media_call (mouse_axis x y) m = unchanged m.pointer_sync
    pointer_sync-media_call (mouse_button b pressed) m = unchanged m.pointer_sync
    pointer_sync-media_call (keyboard_key k pressed) m = unchanged m.pointer_sync
    pointer_sync-media_call (pointer_injects x y) m = unchanged m.pointer_sync
    pointer_sync-media_call (pads_change g) m = unchanged m.pointer_sync
    pointer_sync-media_call wants_idr m = unchanged m.pointer_sync
    pointer_sync-media_call (new_bitrate b) m =
        elim (leb_ℤ b (pos 0))
          as (λ k.
            (if k
              then m
              else record m { video_pipeline = changed_pipeline atol env b m }).pointer_sync
            ≡ and_then m.pointer_sync (λ last. some last)) [
              | true ↦ unchanged m.pointer_sync
              | false ↦ unchanged m.pointer_sync
            ]
    pointer_sync-media_call (retargets s) m =
        elim (is_empty s.aes_key)
          as (λ k.
            (refresh_unless k s (drop_sinks m)).pointer_sync
            ≡ and_then m.pointer_sync (λ last. some last)) [
              | true ↦ unchanged m.pointer_sync
              | false ↦ unchanged m.pointer_sync
            ]
    pointer_sync-media_call (rebuilds_audio t channels) m = unchanged m.pointer_sync

    noted-cons :
        (c : MediaCall D) (cs : List (MediaCall D)) (last : ℕ)
        → noted (noted last (c ∷ [])) cs ≡ noted last (c ∷ cs)
    noted-cons (mouse_move_rel now x y) cs last = refl
    noted-cons (mouse_move_abs now x y) cs last = refl
    noted-cons (mouse_axis x y) cs last = refl
    noted-cons (mouse_button b pressed) cs last = refl
    noted-cons (keyboard_key k pressed) cs last = refl
    noted-cons (pointer_injects x y) cs last = refl
    noted-cons (pads_change g) cs last = refl
    noted-cons wants_idr cs last = refl
    noted-cons (new_bitrate b) cs last = refl
    noted-cons (retargets s) cs last = refl
    noted-cons (rebuilds_audio t channels) cs last = refl

    noted_twice :
        (c : MediaCall D) (cs : List (MediaCall D)) (o : Option ℕ)
        → and_then (and_then o (λ last. some (noted last (c ∷ [])))) (λ last. some (noted last cs))
          ≡ and_then o (λ last. some (noted last (c ∷ cs)))
    noted_twice c cs none = refl
    noted_twice c cs (some last) = ap some (noted-cons c cs last)

    -- Whatever calls come, the events sent are those of the calls, in order and unchanged: input and
    -- the injected positions as long as the session has its source of input, a request for a key
    -- frame as long as it has its video pipeline. The pointer synchronisation is told of the
    -- movements of the client alone, and not of what it injects itself.
    pub media_calls-events_of :
        (cs : List (MediaCall D)) (m : MediaSession)
        → ((media_calls atol env launched cs m).1 ≡ events_of (parts m) cs)
          × ((media_calls atol env launched cs m).0.pointer_sync
              ≡ and_then m.pointer_sync (λ last. some (noted last cs)))
    unfolding media_calls
    media_calls-events_of [] m = (refl, unchanged m.pointer_sync)
    media_calls-events_of (c ∷ cs) m =
        let now = (media_call atol env launched c m).0 in
        let rest = media_calls-events_of cs now in
        (
          (λ i.
              event_of-media_call c m i
              ++ (rest.0 ∙ ap (λ q. events_of q cs) (parts-media_call atol env launched c m)) i),
          rest.1
              ∙ ap (λ o. and_then o (λ last. some (noted last cs))) (pointer_sync-media_call c m)
              ∙ noted_twice c cs m.pointer_sync,
        )
