-- ===== src/Media/Running.antt =====
-- media.cpp (server/src/server): a media session while it runs and when it stops.
use steamos_containerized.Common.{
  if◌then◌else◌, is_some, and_then, Text, ℕ, ◌≡◌, refl, ap, Bool, true, Option, none, some, List,
  [], ◌∷◌, ◌++◌, is_empty, false, ◌∙◌,
}
use steamos_containerized.Common.Int.{ℤ, pos, leb_ℤ}
use steamos_containerized.Session.{StreamSession}
use steamos_containerized.Control.Pads.{Gamepads}
use steamos_containerized.Media.Pipelines.{Env, Built, encoder_vbv_kbit}
use steamos_containerized.Media.Live.{
  AudioPipeline, MediaSession, is_active, UpstreamEvent, mouse_move_relative, mouse_move_absolute,
  mouse_axis_event, mouse_button_event, keyboard_key_event, send_wayland_event, note_client_mouse,
  force_idr, update_bitrate, retarget, rebuild_audio, set_bitrate, in_pipeline, drop_sinks,
  refresh_unless,
}

-- The calls on a session, and the injections of the thread of the pointer synchronisation.
pub data MediaCall (D : Type 0) : Type 0 where
  mouse_move_rel : ℕ → D → D → MediaCall D
  mouse_move_abs : ℕ → D → D → MediaCall D
  mouse_axis : D → D → MediaCall D
  mouse_button : ℕ → Bool → MediaCall D
  keyboard_key : ℕ → Bool → MediaCall D
  pointer_injects : D → D → MediaCall D
  pads_change : Gamepads → MediaCall D
  wants_idr : MediaCall D
  new_bitrate : ℤ → MediaCall D
  retargets : StreamSession → MediaCall D
  rebuilds_audio : Built → ℤ → MediaCall D

-- Which parts a session has.
abbrev pub parts : MediaSession → Bool × (Bool × Bool)
parts m = (is_active m, (m.wayland_src, is_some m.pointer_sync))

-- The source of input is part of the running video pipeline, and the thread of the pointer
-- synchronisation, which injects into it, runs only while it is held.
abbrev pub ValidParts : Bool × (Bool × Bool) → Type 0
ValidParts q = (q.1.0 ≡ true → q.0 ≡ true) × (q.1.1 ≡ true → q.1.0 ≡ true)

abbrev pub IsValid : MediaSession → Type 0
IsValid m = ValidParts (parts m)

same_some :
    {A B : Type 0} (o : Option A) (f : A → B) → is_some (and_then o (λ a. some (f a))) ≡ is_some o
same_some none f = refl
same_some (some a) f = refl

parts_if :
    (b : Bool) (x y : MediaSession) (p : Bool × (Bool × Bool))
    → parts x ≡ p
    → parts y ≡ p
    → parts (if b then x else y) ≡ p
parts_if true x y p f g = f
parts_if false x y p f g = g

module _ {D : Type 0} (atol : Text → ℤ) (env : Env) (launched : Built → Option AudioPipeline) where
  unfoldable pub media_call : MediaCall D → MediaSession → MediaSession × List (UpstreamEvent D)
  unfolding note_client_mouse send_wayland_event force_idr update_bitrate retarget rebuild_audio
  media_call (mouse_move_rel now x y) m =
      (note_client_mouse now m, send_wayland_event m (mouse_move_relative x y))
  media_call (mouse_move_abs now x y) m =
      (note_client_mouse now m, send_wayland_event m (mouse_move_absolute x y))
  media_call (mouse_axis x y) m = (m, send_wayland_event m (mouse_axis_event x y))
  media_call (mouse_button b pressed) m = (m, send_wayland_event m (mouse_button_event b pressed))
  media_call (keyboard_key k pressed) m = (m, send_wayland_event m (keyboard_key_event k pressed))
  media_call (pointer_injects x y) m =
      (m, if is_some m.pointer_sync then send_wayland_event m (mouse_move_absolute x y) else [])
  media_call (pads_change g) m = (record m { gamepads = g }, [])
  media_call wants_idr m = (m, force_idr m)
  media_call (new_bitrate b) m = (update_bitrate atol env b m, [])
  media_call (retargets s) m = (retarget s m, [])
  media_call (rebuilds_audio t channels) m = (rebuild_audio launched t channels m, [])

  unfoldable pub media_calls :
      List (MediaCall D) → MediaSession → MediaSession × List (UpstreamEvent D)
  unfolding media_call
  media_calls [] m = (m, [])
  media_calls (c ∷ cs) m =
      let (now, out) = media_call c m in
      let (after, rest) = media_calls cs now in (after, out ++ rest)

  pub parts-media_call : (c : MediaCall D) (m : MediaSession) → parts (media_call c m).0 ≡ parts m
  unfolding media_call note_client_mouse update_bitrate retarget refresh_unless rebuild_audio
  parts-media_call (mouse_move_rel now x y) m =
      ap (λ b. (is_active m, (m.wayland_src, b))) (same_some m.pointer_sync (λ last. now))
  parts-media_call (mouse_move_abs now x y) m =
      ap (λ b. (is_active m, (m.wayland_src, b))) (same_some m.pointer_sync (λ last. now))
  parts-media_call (mouse_axis x y) m = refl
  parts-media_call (mouse_button b pressed) m = refl
  parts-media_call (keyboard_key k pressed) m = refl
  parts-media_call (pointer_injects x y) m = refl
  parts-media_call (pads_change g) m = refl
  parts-media_call wants_idr m = refl
  parts-media_call (new_bitrate b) m =
      parts_if (leb_ℤ b (pos 0)) m
        (record m {
          video_pipeline =
              and_then m.video_pipeline
                (λ p. some (in_pipeline (set_bitrate b (encoder_vbv_kbit atol env b)) p));
        })
        (parts m) refl
        (ap (λ a. (a, (m.wayland_src, is_some m.pointer_sync)))
          (same_some m.video_pipeline (in_pipeline (set_bitrate b (encoder_vbv_kbit atol env b)))))
  parts-media_call (retargets s) m =
      elim (is_empty s.aes_key) as (λ k. parts (refresh_unless k s (drop_sinks m)) ≡ parts m) [
        | true ↦ refl
        | false ↦ refl
      ]
  parts-media_call (rebuilds_audio t channels) m = refl

  pub parts-media_calls :
      (cs : List (MediaCall D)) (m : MediaSession) → parts (media_calls cs m).0 ≡ parts m
  unfolding media_calls
  parts-media_calls [] m = refl
  parts-media_calls (c ∷ cs) m = parts-media_calls cs (media_call c m).0 ∙ parts-media_call c m
