-- ===== src/Pointer.antt =====
-- pointer_sync.cpp (server/src/server): what the loop of `PointerSync::run` does with one Xwayland, a
-- poll at a time. The position that the server answers with, the clock and the time of the last mouse
-- event of the client come with the poll. The injected position is a `double` that holds an integer.
pub mod Settles
pub mod Servers
use steamos_containerized.Common.{
  ltb, leb, if◌then◌else◌, ℕ, ◌+◌, ◌-◌, Bool, true, false, not, ◌&&◌, ◌||◌, Option, none, some,
  List, [], ◌∷◌,
}
use steamos_containerized.Common.Int.{ℤ, pos, pos_part, neg_part, ◌-ℤ◌, leb_ℤ}

pub record Conn : Type 0 where
  pub primed : Bool
  pub last_x : ℤ
  pub last_y : ℤ
  pub injected : Bool
  pub inj_x : ℤ
  pub inj_y : ℤ

abbrev pub new_conn : Conn
new_conn = record {
  primed = false;
  last_x = pos 0;
  last_y = pos 0;
  injected = false;
  inj_x = pos 0;
  inj_y = pos 0;
}

-- `std::abs(a - b)`
unfoldable pub distance : ℤ → ℤ → ℕ
distance a b = pos_part (a -ℤ b) + neg_part (a -ℤ b)

abbrev eq_ℤ : ℤ → ℤ → Bool
eq_ℤ a b = leb_ℤ a b && leb_ℤ b a

pub record Poll : Type 0 where
  pub x : ℤ
  pub y : ℤ
  pub now_ms : ℕ
  pub last_client_ms : ℕ

unfoldable pub client_quiet : Poll → Bool
client_quiet p = ltb 250 (p.now_ms - p.last_client_ms)

unfoldable pub far : Poll → Conn → Bool
unfolding distance
far p c = not c.injected || leb 2 (distance p.x c.inj_x) || leb 2 (distance p.y c.inj_y)

abbrev pub at_origin : Poll → Bool
at_origin p = eq_ℤ p.x (pos 0) && eq_ℤ p.y (pos 0)

-- The position that is injected, if any.
abbrev pub Injection : Type 0
Injection = Option (ℤ × ℤ)

unfoldable pub inject_at : Poll → Conn → Conn × Injection
unfolding client_quiet far
inject_at p c =
    if client_quiet p && far p c
    then (record c { injected = true; inj_x = p.x; inj_y = p.y }, some (p.x, p.y))
    else (c, none)

unfoldable pub poll : Poll → Conn → Conn × Injection
unfolding inject_at
poll p c =
    let seen = record c { last_x = p.x; last_y = p.y } in
    if not c.primed
    then (record seen { primed = true }, none)
    else if eq_ℤ p.x c.last_x && eq_ℤ p.y c.last_y
    then (c, none)
    else if at_origin p
    then (seen, none)
    else inject_at p seen

abbrev pub with_injection : Injection → List (ℤ × ℤ) → List (ℤ × ℤ)
with_injection none is = is
with_injection (some i) is = i ∷ is

-- All that the polls inject.
unfoldable pub polls : List Poll → Conn → List (ℤ × ℤ)
unfolding poll
polls [] c = []
polls (p ∷ ps) c = let (c', i) = poll p c in with_injection i (polls ps c')
