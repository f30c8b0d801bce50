-- ===== src/Launcher/Environment.antt =====
-- launcher.cpp (server/src/server): the environment of the application.
use steamos_containerized.Common.{
  if◌then◌else◌, Bool-cases, Text, ◌=?◌, ◌≡◌, refl, inl, inr, Bool, false, ◌||◌, Option, none, some,
  List, [], ◌∷◌, ◌++◌, arith, Option-cases, text, =?_iff, sym, ap, ◌∙◌, true, is_some, not, ◌&&◌,
  =?_refl,
}
use steamos_containerized.Common.Assoc.{lookup}
use steamos_containerized.StdLib.{StdLib}
use steamos_containerized.Session.{StreamSession}
use steamos_containerized.Launcher.{
  Env, Variable, push_passthrough, passthrough_keys, LaunchSpec, spec_of, RunAs, pulse_server,
  software_renderer, fixed_env, env_with, is_desktop, spec_for, pulse_value, app_env,
}

abbrev pub or_else {ℓ} : {A : Type ℓ} → Option A → Option A → Option A
or_else none p = p
or_else (some a) p = some a

abbrev pub is_one_of : List Text → Text → Bool
is_one_of [] k = false
is_one_of (n ∷ ns) k = n =? k || is_one_of ns k

lookup-append :
    (k : Text) (xs ys : List Variable) → lookup k (xs ++ ys) ≡ or_else (lookup k xs) (lookup k ys)
unfolding lookup
lookup-append k [] ys = refl
lookup-append k ((j, v) ∷ xs) ys = ground (arith, lookup-append k xs ys)

passed :
    (env : Env) (j : Text) (k : Text) (rest : List Variable) (tail : Bool)
    → lookup k rest ≡ (if tail then env k else none)
    → lookup k (elim (env j) [ none ↦ rest | some v ↦ (j, v) ∷ rest ])
      ≡ (if j =? k || tail then env k else none)
unfolding lookup
passed env j k rest tail h = elim (Bool-cases (j =? k)) [
  | inl t ↦
      let same = ap env ((=?_iff j k).0 t) in
      elim (Option-cases (env j)) [
        | inl n ↦
            rw n (h ∙ missing (sym same ∙ n) tail ∙ sym (missing (sym same ∙ n) (j =? k || tail)))
        | inr (v, e) ↦ rw e (rw t (sym e ∙ same))
      ]
  | inr f ↦ elim (Option-cases (env j)) [ inl n ↦ rw n (rw f h) | inr (v, e) ↦ rw e (rw f h) ]
]
  where
    missing : {k : Text} → env k ≡ none → (b : Bool) → (if b then env k else none) ≡ none
    missing n true = n
    missing n false = refl

lookup-push_passthrough :
    (env : Env) (ks : List Text) (k : Text)
    → lookup k (push_passthrough env ks) ≡ (if is_one_of ks k then env k else none)
unfolding lookup push_passthrough
lookup-push_passthrough env [] k = refl
lookup-push_passthrough env (j ∷ ks) k =
    passed env j k (push_passthrough env ks) (is_one_of ks k) (lookup-push_passthrough env ks k)

-- The variables that the source names.
abbrev pub known_names : List Text
known_names =
    text "HOME"
    ∷ text "USER"
    ∷ text "LOGNAME"
    ∷ text "XDG_RUNTIME_DIR"
    ∷ text "WAYLAND_DISPLAY"
    ∷ text "RUN_SWAY"
    ∷ text "RUN_GAMESCOPE"
    ∷ text "APPIMAGE_EXTRACT_AND_RUN"
    ∷ text "PULSE_SINK"
    ∷ text "GAMESCOPE_WIDTH"
    ∷ text "GAMESCOPE_HEIGHT"
    ∷ text "GAMESCOPE_REFRESH"
    ∷ text "PATH"
    ∷ text "PULSE_SERVER"
    ∷ passthrough_keys

module _ (lib : StdLib) (env : Env) (r : RunAs) (s : StreamSession) (display sink : Text) where
  lookup-env_with :
      (spec : LaunchSpec) (k : Text)
      → lookup k (env_with lib env r s spec display sink)
        ≡ or_else (lookup k (fixed_env lib env r s spec display sink)) (
            or_else (lookup k (pulse_server env)) (
              or_else
                (lookup k (software_renderer env spec))
                (if is_one_of passthrough_keys k then env k else none)))
  unfolding env_with
  lookup-env_with spec k =
      let fixed = fixed_env lib env r s spec display sink in
      let pulse = pulse_server env in
      let soft = software_renderer env spec in
      let pass = push_passthrough env passthrough_keys in
      lookup-append k fixed (pulse ++ (soft ++ pass))
      ∙ ap (or_else (lookup k fixed)) (
          lookup-append k pulse (soft ++ pass)
          ∙ ap (or_else (lookup k pulse)) (
              lookup-append k soft pass
              ∙ ap (or_else (lookup k soft)) (lookup-push_passthrough env passthrough_keys k)))

  pulse_value_other :
      (o : Option Text) (k : Text)
      → (text "PULSE_SERVER" =? k) ≡ false
      → lookup k (pulse_value o) ≡ none
  unfolding lookup
  pulse_value_other none k n = refl
  pulse_value_other (some p) k n = ground arith

  pulse_other : (k : Text) → (text "PULSE_SERVER" =? k) ≡ false → lookup k (pulse_server env) ≡ none
  pulse_other k n = pulse_value_other (env (text "PULSE_SERVER")) k n

  soft_renderer :
      (b : Bool)
      → or_else
          (lookup (text "WLR_RENDERER") (software_renderer env (spec_of b)))
          (env (text "WLR_RENDERER"))
        ≡ (if b && not (is_some (env (text "WLR_RENDERER")))
            then some (text "pixman")
            else env (text "WLR_RENDERER"))
  unfolding lookup
  soft_renderer false = refl
  soft_renderer true = elim (Option-cases (env (text "WLR_RENDERER"))) [
    | inl e ↦ rw e (rw (=?_refl (text "WLR_RENDERER")) refl)
    | inr (v, e) ↦ rw e refl
  ]

  no_renderer :
      (b : Bool)
      → lookup (text "WLR_RENDERER") (fixed_env lib env r s (spec_of b) display sink) ≡ none
  unfolding lookup text ◌=?◌
  no_renderer true = refl
  no_renderer false = refl

  renderer_of :
      (b : Bool)
      → lookup (text "WLR_RENDERER") (env_with lib env r s (spec_of b) display sink) ≡ (
          if b && not (is_some (env (text "WLR_RENDERER")))
          then some (text "pixman")
          else env (text "WLR_RENDERER"))
  unfolding text ◌=?◌
  renderer_of b =
      let k = text "WLR_RENDERER" in
      lookup-env_with (spec_of b) k
      ∙ (λ i. or_else (no_renderer b i) (
          or_else (pulse_other k refl i)
            (or_else (lookup k (software_renderer env (spec_of b))) (env k))))
      ∙ soft_renderer b

  display_of :
      (b : Bool)
      → lookup (text "WAYLAND_DISPLAY") (env_with lib env r s (spec_of b) display sink)
        ≡ some display
  unfolding lookup text ◌=?◌ env_with
  display_of b = refl

  -- A name that the source does not mention.
  abbrev pub IsUnknown : Text → Type 0
  IsUnknown k = is_one_of known_names k ≡ false

  unknown_in_fixed :
      (b : Bool) (k : Text)
      → IsUnknown k
      → lookup k (fixed_env lib env r s (spec_of b) display sink) ≡ none
  unfolding lookup
  unknown_in_fixed true k u = ground arith
  unknown_in_fixed false k u = ground arith

  unknown_soft :
      (b : Bool) (k : Text) → IsUnknown k → lookup k (software_renderer env (spec_of b)) ≡ none
  unfolding lookup
  unknown_soft false k u = refl
  unknown_soft true k u = ground arith

  unknown_of :
      (b : Bool) (k : Text)
      → IsUnknown k
      → lookup k (env_with lib env r s (spec_of b) display sink) ≡ none
  unknown_of b k u =
      let other = pulse_other k (ground arith) in
      lookup-env_with (spec_of b) k
      ∙ (λ i. or_else (unknown_in_fixed b k u i) (
          or_else (other i) (
            or_else (unknown_soft b k u i) (if is_one_of passthrough_keys k then env k else none))))
      ∙ ground arith

  -- What the application sees: the Wayland display is that of its session; the renderer of the
  -- desktop is pixman unless the server's environment names one, which the application then gets;
  -- and no variable that the source does not name is passed on from the server.
  pub lookup-app_env :
      (k : Text)
      → IsUnknown k
      → (lookup (text "WAYLAND_DISPLAY") (app_env lib env r s display sink) ≡ some display)
        × ((lookup (text "WLR_RENDERER") (app_env lib env r s display sink) ≡ (
              if is_desktop s && not (is_some (env (text "WLR_RENDERER")))
              then some (text "pixman")
              else env (text "WLR_RENDERER")))
            × (lookup k (app_env lib env r s display sink) ≡ none))
  unfolding app_env spec_for
  lookup-app_env k u = let b = is_desktop s in (display_of b, (renderer_of b, unknown_of b k u))
