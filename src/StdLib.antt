-- ===== src/StdLib.antt =====
-- What the server calls of the C++ library and of the machine's floating point, as parameters:
-- `scan_mode` is the integers that `sscanf(mode, "%dx%dx%d", …)` converts, `stoi` is none where it
-- throws, `to_string` prints an integer in decimal, and `div_ratio b n` is a `long` after
-- `b /= 100.f / n`, and `ceil_div` is `(int)std::ceil((float)n / d)`.
use steamos_containerized.Common.{
  Text, ℕ, ◌+◌, ◌-◌, ◌*◌, ◌/◌, ◌^◌, ◌<◌, ◌≡◌, Option, some, List, [],
}
use steamos_containerized.Common.Int.{ℤ, pos, negsuc}

pub record StdLib : Type 0 where
  pub scan_mode : Text → List ℤ
  pub stoi : Text → Option ℤ
  pub to_string : ℤ → Text
  pub div_ratio : ℤ → ℕ → ℤ
  pub ceil_div : ℕ → ℕ → ℕ

-- Below 2 ^ 22 a `long` and its quotient by 1.25 are exact enough in a `float` for the truncated
-- result to be the truncated quotient.
abbrev pub DivRatioExact : StdLib → Type 0
DivRatioExact lib = (b : ℕ) → b < 2 ^ 22 → lib.div_ratio (pos b) 80 ≡ pos (b * 80 / 100)

-- Below 2 ^ 24 an integer is exact in a `float`, and its quotient by a positive integer is never
-- rounded to or past an integer.
abbrev pub CeilDivExact : StdLib → Type 0
CeilDivExact lib = (n d : ℕ) → 0 < d → n < 2 ^ 24 → lib.ceil_div n d ≡ (n + d - 1) / d

-- A library for tests: it reads no number, and prints none.
abbrev pub plain_lib : StdLib
plain_lib = record {
  scan_mode = λ t. [];
  stoi = λ t. some (pos 196610);
  to_string = λ n. [];
  div_ratio = λ b n. elim b [ pos k ↦ pos (k * n / 100) | negsuc k ↦ pos 0 ];
  ceil_div = λ n d. (n + d - 1) / d;
}
