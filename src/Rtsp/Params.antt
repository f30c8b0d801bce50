-- ===== src/Rtsp/Params.antt =====
-- What ANNOUNCE makes of the client's lines.
use steamos_containerized.Common.{
  if◌then◌else◌, Bool-cases, value_or, Text, text, ◌=?◌, ℕ, ◌*◌, ◌/◌, ◌^◌, ◌≤◌, ◌<◌, ◌≡◌, refl, inl,
  inr, ◌&&◌, Option, none, some, List, [], ◌∷◌, arith, ◌-◌, min,
}
use steamos_containerized.Common.Int.{ℤ, pos, ◌-ℤ◌, ◌*ℤ◌, ◌/ℤ◌}
use steamos_containerized.Common.Assoc.{lookup, insert, lookup-insert}
use steamos_containerized.StdLib.{StdLib, DivRatioExact}
use steamos_containerized.Rtsp.Commands.{
  Args, parse_arg_line, collect_args, flatten_arg, arg, adjust_bitrate, min_ℤ,
}

abbrev pub or_else {ℓ} : {A : Type ℓ} → Option A → Option A → Option A
or_else (some a) o = some a
or_else none o = o

cut_fifth : (a k : ℕ) → pos a -ℤ min_ℤ (pos k) (pos a /ℤ 5) ≡ pos (a - min k (a / 5))
unfolding ◌-ℤ◌
cut_fifth a k = ground arith

cut_tenth : (a k : ℕ) → pos a -ℤ min_ℤ (pos k) (pos a /ℤ 10) ≡ pos (a - min k (a / 10))
unfolding ◌-ℤ◌
cut_tenth a k = ground arith

times_96 : (n : ℕ) → pos 96 *ℤ pos n ≡ pos (96 * n)
unfolding ◌*ℤ◌
times_96 n = ground arith

unfolded_empty : (k : Text) → lookup {V = Option ℤ} k [] ≡ none
unfolding lookup
unfolded_empty k = refl

module _ (lib : StdLib) where
  -- The value of the last line "a=k:…", searched from the end; its inner option is none where the
  -- value is no number.
  unfoldable pub last_value : Text → List (Text × Text) → Option (Option ℤ)
  last_value k [] = none
  last_value k (line ∷ lines) = or_else (last_value k lines) (
      if line.0 =? text "a" && (parse_arg_line lib line).0 =? k
      then some (parse_arg_line lib line).1
      else none)

  lookup-collect_args :
      (k : Text) (args : Args) (lines : List (Text × Text))
      → lookup k (collect_args lib args lines) ≡ or_else (last_value k lines) (lookup k args)
  unfolding collect_args last_value
  lookup-collect_args k args [] = refl
  lookup-collect_args k args (line ∷ lines) =
      let here = (parse_arg_line lib line).0 in
      let v = (parse_arg_line lib line).1 in
      elim (Bool-cases (line.0 =? text "a")) [
        | inr n ↦ rw n (ground (arith, lookup-collect_args k args lines))
        | inl y ↦ rw y (
            ground (
              arith,
              lookup-collect_args k (insert here v args) lines,
              lookup-insert here k v args,
            ))
      ]

  -- Every negotiated number comes from the last line for its key that the client sent, if that line
  -- holds a number, and is the default otherwise.
  pub arg-last_value :
      (k : Text) (def : ℤ) (lines : List (Text × Text))
      → arg lib (collect_args lib [] lines) k def
        ≡ value_or (flatten_arg lib (last_value k lines)) def
  unfolding arg
  arg-last_value k def lines = rw (lookup-collect_args k [] lines, unfolded_empty k) (ground arith)

  -- For a configured bitrate below 2 ^ 22 kbps and any number of channels, the encoder gets at most
  -- the 80 percent that FEC leaves, at least 72 percent of those, and never a negative bitrate.
  pub adjust_bitrate_bounds :
      (b channels : ℕ)
      → DivRatioExact lib
      → b < 2 ^ 22
      → (r : ℕ) × (adjust_bitrate lib (pos b) 20 (pos channels) ≡ pos r)
        × (r ≤ b * 80 / 100)
        × (18 * (b * 80 / 100) ≤ 25 * r)
  unfolding adjust_bitrate
  adjust_bitrate_bounds b channels exact h =
      let a : ℕ = b * 80 / 100 in
      let kept : ℕ = a - min (96 * channels) (a / 5) in
      (
        kept - min 500 (kept / 10),
        rw (exact b h) (rw (times_96 channels, cut_fifth a (96 * channels)) (cut_tenth kept 500)),
        omega arith,
        omega arith,
      )
