-- ===== src/Pointer/Servers.antt =====
-- pointer_sync.cpp (server/src/server): the loop of `PointerSync::run` over all X servers. What a server
-- answers, which connections are lost, and what the clock says come with each turn.
pub mod Tracked
use steamos_containerized.Common.{
  ltb, leb, ◌==◌, if◌then◌else◌, ℕ, ◌+◌, Bool, false, not, ◌&&◌, ◌||◌, Option, none, some, List, [],
  ◌∷◌, ◌++◌,
}
use steamos_containerized.Common.Int.{ℤ}
use steamos_containerized.Pointer.{Conn, new_conn, Poll, Injection, poll}

-- The answers of a display: whether it connects, the atom of the name that gamescope sets, if there
-- is a reply, and the type of the property of its root, if there is a reply. 0 is XCB_ATOM_NONE.
pub record Server : Type 0 where
  pub connects : Bool
  pub atom_reply : Option ℕ
  pub property_type : Option ℕ

abbrev pub is_set : Option ℕ → Bool
is_set none = false
is_set (some n) = not (n == 0)

unfoldable pub is_gamescope : Server → Bool
is_gamescope s = is_set s.atom_reply && is_set s.property_type

-- A turn of the loop: the clock before and after the test for a discovery, the displays, the
-- connections that are lost, and the replies to `query_pointer`.
pub record Turn : Type 0 where
  pub now : ℕ
  pub now_again : ℕ
  pub server : ℕ → Server
  pub is_lost : ℕ → Bool
  pub reply : ℕ → Option Poll

abbrev pub Conns : Type 0
Conns = List (ℕ × Conn)

pub record Loop : Type 0 where
  pub conns : Conns
  pub next_discovery : ℕ

abbrev pub has_conn : ℕ → Conns → Bool
has_conn n [] = false
has_conn n ((k, c) ∷ m) = k == n || has_conn n m

-- The map is in the order of the displays.
abbrev pub insert_conn : ℕ → Conns → Conns
insert_conn n [] = (n, new_conn) ∷ []
insert_conn n ((k, c) ∷ m) =
    let rest = insert_conn n m in if ltb n k then (n, new_conn) ∷ (k, c) ∷ m else (k, c) ∷ rest

abbrev pub try_display : (ℕ → Server) → ℕ → Conns → Conns
try_display server n m =
    if has_conn n m
    then m
    else if (server n).connects && is_gamescope (server n)
    then insert_conn n m
    else m

abbrev pub try_displays : (ℕ → Server) → List ℕ → Conns → Conns
try_displays server [] m = m
try_displays server (n ∷ ns) m = try_displays server ns (try_display server n m)

unfoldable pub discover : Turn → Loop → Loop
discover t l =
    if leb l.next_discovery t.now
    then record {
      conns = try_displays t.server (0 ∷ 1 ∷ 2 ∷ 3 ∷ 4 ∷ []) l.conns;
      next_discovery = t.now_again + 2000;
    }
    else l

-- The injections, with the display that each comes from.
abbrev pub Injections : Type 0
Injections = List (ℕ × (ℤ × ℤ))

abbrev pub from_display : ℕ → Injection → Injections → Injections
from_display n none is = is
from_display n (some i) is = (n, i) ∷ is

abbrev pub polled : Option Poll → Conn → Conn × Injection
polled none c = (c, none)
polled (some p) c = poll p c

unfoldable pub visit : Turn → Conns → Conns × Injections
unfolding poll
visit t [] = ([], [])
visit t ((n, c) ∷ m) =
    let (kept, is) = visit t m in
    let (after, i) = polled (t.reply n) c in
    if t.is_lost n then (kept, is) else ((n, after) ∷ kept, from_display n i is)

unfoldable pub turn : Turn → Loop → Loop × Injections
unfolding discover visit
turn t l =
    let found = discover t l in
    let (kept, is) = visit t found.conns in (record found { conns = kept }, is)

unfoldable pub turns : List Turn → Loop → Loop × Injections
unfolding turn
turns [] l = (l, [])
turns (t ∷ ts) l =
    let (now, is) = turn t l in let (after, rest) = turns ts now in (after, is ++ rest)

abbrev pub no_conns : Loop
no_conns = record { conns = []; next_discovery = 0 }
