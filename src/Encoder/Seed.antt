-- ===== src/Encoder/Seed.antt =====
-- encoder_config.cpp (server/src/server): the configuration the server starts with.
use steamos_containerized.Common.{
  if◌then◌else◌, ◌⊎◌, =?_iff, Option-cases, Bool-cases, is_some, Text, text, ◌=?◌, ◌≡◌, refl, inl,
  inr, true, false, Option, [], value_or, sym, ap, ◌∙◌, Bool, none, some, arith,
}
use steamos_containerized.Session.{VideoFormat}
use steamos_containerized.Encoder.{check_list, validate, GstEncoder, select_encoder}
use steamos_containerized.Encoder.Choice.{IsUsable}
use steamos_containerized.Encoder.Checks.{NamesEncoder, select_encoder-NamesEncoder}
use steamos_containerized.Encoder.Toml.{Toml, IsToml}
use steamos_containerized.Encoder.Defaults.{defaults}
use steamos_containerized.Encoder.File.{
  Disk, Writer, put_file, save, create_default_if_missing, config_path, load, config_to_toml,
  load_or_seed,
}
use steamos_containerized.Encoder.Saved.{load-save}
use steamos_containerized.Rtsp.Socket.{starts_with, find_text}

-- The compiled-in configuration has no issues.
pub defaults_clean : validate defaults ≡ []
unfolding validate check_list find_text starts_with text defaults
defaults_clean = refl

module _ (T : Toml) (w : Writer T) where
  put_file_twice :
      (path : Text) (c : Option T.Content) (d : Disk T)
      → put_file T path c (put_file T path c d) ≡ put_file T path c d
  put_file_twice path c d = λ i p.
      elim (path =? p) as (λ b. (if b then c else if b then c else d p) ≡ (if b then c else d p)) [
        | true ↦ refl
        | false ↦ refl
      ]
        i

  create_there :
      (path : Text) (d : Disk T)
      → is_some (d path) ≡ true
      → create_default_if_missing T w path d ≡ d
  create_there path d t = rw t refl

  create_missing :
      (path : Text) (d : Disk T)
      → is_some (d path) ≡ false
      → create_default_if_missing T w path d ≡ (save T w defaults path d).1
  create_missing path d f = rw f refl

  save_opens :
      (path : Text) (d : Disk T)
      → w.opens path ≡ true
      → (save T w defaults path d).1
        ≡ put_file T path (w.kept path (T.print_table (config_to_toml T defaults))) d
  unfolding save
  save_opens path d o = rw o refl

  save_refused :
      (path : Text) (d : Disk T) → w.opens path ≡ false → (save T w defaults path d).1 ≡ d
  unfolding save
  save_refused path d o = rw o refl

  create_put :
      (path : Text) (d : Disk T)
      → w.opens path ≡ true
      → create_default_if_missing T w path
          (put_file T path (w.kept path (T.print_table (config_to_toml T defaults))) d)
        ≡ put_file T path (w.kept path (T.print_table (config_to_toml T defaults))) d
  create_put path d o =
      let c = w.kept path (T.print_table (config_to_toml T defaults)) in
      let d1 = put_file T path c d in
      elim (Bool-cases (is_some (d1 path))) [
        | inl t ↦ create_there path d1 t
        | inr f ↦ create_missing path d1 f ∙ save_opens path d1 o ∙ put_file_twice path c d
      ]

  create_twice :
      (path : Text) (d : Disk T)
      → create_default_if_missing T w path (create_default_if_missing T w path d)
        ≡ create_default_if_missing T w path d
  create_twice path d =
      let create = create_default_if_missing T w path in
      elim (Bool-cases (is_some (d path))) [
        | inl t ↦ ap create (create_there path d t)
        | inr f ↦ elim (Bool-cases (w.opens path)) [
          | inl o ↦
              let made = create_missing path d f ∙ save_opens path d o in
              ap create made ∙ create_put path d o ∙ sym made
          | inr o ↦ ap create (create_missing path d f ∙ save_refused path d o)
        ]
      ]

  -- The file of the configuration is there, and a start leaves the disk alone and reads that file; or
  -- it is not there.
  abbrev pub IsKept : (Text → Option Text) → Disk T → Type 0
  IsKept env d =
      (d (config_path env) ≡ none)
      ⊎ (load_or_seed T w env d ≡ (value_or (load T d (config_path env)) defaults, d))

  start-IsKept : (env : Text → Option Text) (d : Disk T) → IsKept env d
  unfolding load_or_seed
  start-IsKept env d = elim (Option-cases (d (config_path env))) [
    | inl n ↦ inl n
    | inr (c, s) ↦ inr (
        ap (λ e. (value_or (load T e (config_path env)) defaults, e))
          (create_there (config_path env) d (ap is_some s)))
  ]

  save_elsewhere :
      (path other : Text) (d : Disk T)
      → (path =? other) ≡ false
      → (save T w defaults path d).1 other ≡ d other
  unfolding save
  save_elsewhere path other d n = elim (Bool-cases (w.opens path)) [
    | inl o ↦ rw o (rw n refl)
    | inr o ↦ rw o refl
  ]

  start_elsewhere :
      (env : Text → Option Text) (path : Text) (d : Disk T)
      → (config_path env =? path) ≡ false
      → (load_or_seed T w env d).1 path ≡ d path
  unfolding load_or_seed
  start_elsewhere env path d n = elim (Bool-cases (is_some (d (config_path env)))) [
    | inl t ↦ ap (λ e. e path) (create_there (config_path env) d t)
    | inr f ↦
        ap (λ e. e path) (create_missing (config_path env) d f)
        ∙ save_elsewhere (config_path env) path d n
  ]

  -- If the file of the configuration is there, whatever it holds, a start changes nothing on the disk
  -- and takes the configuration that the file loads to, or the compiled-in one if it does not load.
  -- No other file is ever changed. Starting again, with the same environment, on the disk that a start
  -- left gives the same configuration and changes nothing, even if the file could not be written.
  pub load_or_seed_again :
      (env : Text → Option Text) (path : Text) (d : Disk T)
      → IsKept env d
        × (((config_path env ≡ path) ⊎ ((load_or_seed T w env d).1 path ≡ d path))
            × (load_or_seed T w env (load_or_seed T w env d).1 ≡ load_or_seed T w env d))
  unfolding load_or_seed
  load_or_seed_again env path d = (
    start-IsKept env d,
    (
      elim (Bool-cases (config_path env =? path)) [
        | inl t ↦ inl ((=?_iff (config_path env) path).0 t)
        | inr f ↦ inr (start_elsewhere env path d f)
      ],
      ap (λ e. (value_or (load T e (config_path env)) defaults, e))
          (create_twice (config_path env) d),
    ),
  )

  -- If no file is there, and a file can be opened and then holds what was printed, the server starts
  -- with the compiled-in configuration; the file then loads to it; and any encoder chosen from it for
  -- any codec can be made and names the element that a change of the bitrate looks for.
  pub load_or_seed_first :
      IsToml T
      → (env : Text → Option Text) (d : Disk T)
      → (makes : Text → Bool) (fmt : VideoFormat) (e : GstEncoder) → d (config_path env) ≡ none
      → w.opens (config_path env) ≡ true
      → w.kept (config_path env) (T.print_table (config_to_toml T defaults))
        ≡ some (T.print_table (config_to_toml T defaults))
      → select_encoder makes (load_or_seed T w env d).0 fmt ≡ some e
      → (load T (load_or_seed T w env d).1 (config_path env) ≡ some defaults)
        × ((load_or_seed T w env d).0 ≡ defaults)
        × (NamesEncoder e × IsUsable makes e)
  unfolding load_or_seed defaults
  load_or_seed_first L env d makes fmt e m o k s =
      let path = config_path env in
      let created = create_missing path d (rw m refl) in
      let loads =
        ap (λ x. load T x path) created
        ∙ load-save T L w defaults path d (omega arith, (omega arith, omega arith)) o k in
      let same = ap (λ c. value_or c defaults) loads in
      (
        loads,
        same,
        select_encoder-NamesEncoder makes defaults fmt e defaults_clean
            (sym (ap (λ c. select_encoder makes c fmt) same) ∙ s),
      )
