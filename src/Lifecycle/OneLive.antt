-- ===== src/Lifecycle/OneLive.antt =====
-- What is live after the actions of `on_play` and `stop_session` (main.cpp).
use steamos_containerized.Common.{
  ◌==◌, if◌then◌else◌, ==_refl, Bool-cases, Option-cases, ℕ, ◌≡◌, refl, ◌∙◌, inl, inr, Bool, Option,
  none, some, List, [], ◌∷◌, ◌++◌, arith,
}
use steamos_containerized.Session.{StreamSession, Ptr, SessionRegistry}
use steamos_containerized.Lifecycle.{
  Media, Action, start_media, stop_media, Effect, stop_session, resume_media, launch_media,
  is_resume, play_found, play_by, on_play, Call, play, stop, call, calls,
}

-- An independent observer of the actions: from the id of the live media session, none where none is
-- live, to that after the action. Starting a second one, or stopping or changing one that is not
-- live, is an error.
unfoldable pub observe : Action → Option ℕ → Option (Option ℕ)
observe (start_media id) none = some (some id)
observe (start_media id) (some live) = none
observe (stop_media id) none = none
observe (stop_media id) (some live) = if live == id then some none else none
observe _ none = none
observe _ (some live) = some (some live)

unfoldable pub observe_all : List Action → Option ℕ → Option (Option ℕ)
unfolding observe
observe_all [] live = some live
observe_all (a ∷ more) live = elim (observe a live) [
  | none ↦ none
  | some next ↦ observe_all more next
]

abbrev pub live_of : Option Media → Option ℕ
live_of none = none
live_of (some m) = some m.session_id

observe_all-append :
    (more bs : List Action) (live mid : Option ℕ)
    → observe_all more live ≡ some mid
    → observe_all (more ++ bs) live ≡ observe_all bs mid
unfolding observe_all
observe_all-append [] bs live mid e = ground arith
observe_all-append (a ∷ more) bs live mid e = elim (Option-cases (observe a live)) [
  | inl n ↦ ground arith
  | inr (next, o) ↦ ground (arith, o, observe_all-append more bs next mid)
]

-- One call leads from the live session of the holder before to that of the holder after.
abbrev pub Tracks : Option Media → Effect → Type 0
Tracks holder e = observe_all e.0 (live_of holder) ≡ some (live_of e.1)

stop_session-Tracks : (sid : ℕ) (holder : Option Media) → Tracks holder (stop_session sid holder)
unfolding stop_session observe_all observe
stop_session-Tracks sid none = refl
stop_session-Tracks sid (some m) = ground (arith, ==_refl m.session_id)

resume_media-Tracks : (s : StreamSession) (m : Media) → Tracks (some m) (resume_media s m)
unfolding resume_media observe_all observe
resume_media-Tracks s m = ground arith

launch_media-Tracks :
    (sess : StreamSession) (previous : Option Media) → Tracks previous (launch_media sess previous)
unfolding launch_media observe_all observe
launch_media-Tracks sess none = refl
launch_media-Tracks sess (some m) = ground (arith, ==_refl m.session_id)

play_found-Tracks :
    (is_active : Bool) (s sess : StreamSession) (holder : Option Media)
    → Tracks holder (play_found is_active s sess holder)
unfolding play_found
play_found-Tracks is_active s sess none = launch_media-Tracks sess none
play_found-Tracks is_active s sess (some m) = elim (Bool-cases (is_resume is_active s (some m))) [
  | inl t ↦ rw t (resume_media-Tracks s m)
  | inr f ↦ rw f (launch_media-Tracks sess (some m))
]

play_by-Tracks :
    (is_active : Bool) (r : SessionRegistry) (s : StreamSession) (holder : Option Media)
    (o : Option Ptr)
    → Tracks holder (play_by is_active r s holder o)
unfolding observe_all
play_by-Tracks is_active r s holder none = refl
play_by-Tracks is_active r s holder (some p) = play_found-Tracks is_active s (r.heap p) holder

call-Tracks : (c : Call) (holder : Option Media) → Tracks holder (call c holder)
unfolding call on_play
call-Tracks (play is_active r s) holder = play_by-Tracks is_active r s holder _
call-Tracks (stop sid) holder = stop_session-Tracks sid holder

-- In any sequence of PLAYs and stops, run one after another, a media session is started only when
-- none is live, only the live one is ever stopped or changed, and the holder is the live one.
pub calls-Tracks : (cs : List Call) (holder : Option Media) → Tracks holder (calls cs holder)
unfolding calls
calls-Tracks [] holder = unfold observe_all in refl
calls-Tracks (c ∷ cs) holder =
    observe_all-append (call c holder).0 (calls cs (call c holder).1).0 (live_of holder)
      (live_of (call c holder).1) (call-Tracks c holder)
    ∙ calls-Tracks cs (call c holder).1
