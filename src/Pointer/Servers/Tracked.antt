-- ===== src/Pointer/Servers/Tracked.antt =====
-- pointer_sync.cpp (server/src/server): which X servers the loop takes positions from.
use steamos_containerized.Common.{
  ltb, leb, Bool-cases, All, All-append, In, ℕ, ◌≤◌, ◌<◌, ◌≡◌, inl, inr, true, none, some, List, [],
  ◌∷◌, refl, arith, Option,
}
use steamos_containerized.Pointer.{Injection}
use steamos_containerized.Pointer.Servers.{
  is_gamescope, is_set, Server, Turn, Conns, Loop, has_conn, insert_conn, try_display, discover,
  Injections, from_display, polled, visit, turn, turns, try_displays, no_conns,
}

-- The display knows the atom of gamescope's name, and its root has the property.
abbrev pub IsGamescope : Server → Type 0
IsGamescope s =
    (atom type : ℕ) × ((s.atom_reply ≡ some atom) × (s.property_type ≡ some type))
    × ((0 < atom) × (0 < type))

-- In some turn the display, one of the first five, said that gamescope runs it.
abbrev pub SaidGamescope : List Turn → ℕ → Type 0
SaidGamescope ts n = (n ≤ 4) × ((t : Turn) × (In t ts × IsGamescope (t.server n)))

is_set-some : (o : Option ℕ) → is_set o ≡ true → (n : ℕ) × ((o ≡ some n) × (0 < n))
is_set-some none h = cc h
is_set-some (some n) h = (n, (refl, ground arith))

is_gamescope-IsGamescope : (s : Server) → is_gamescope s ≡ true → IsGamescope s
unfolding is_gamescope
is_gamescope-IsGamescope s h =
    let (atom, (atom_is, atom_set)) = is_set-some s.atom_reply (ground arith) in
    let (type, (type_is, type_set)) = is_set-some s.property_type (ground arith) in
    (atom, type, (atom_is, type_is), (atom_set, type_set))

module _ (P : ℕ → Type 0) where
  abbrev AllConns : Conns → Type 0
  AllConns = All (λ k. P k.0)

  -- The displays that a turn may add.
  abbrev Admits : Turn → Type 0
  Admits t = (n : ℕ) → n ≤ 4 → is_gamescope (t.server n) ≡ true → P n

  insert_conn-All : (n : ℕ) (m : Conns) → P n → AllConns m → AllConns (insert_conn n m)
  insert_conn-All n [] p h = (p, tt)
  insert_conn-All n ((k, c) ∷ m) p h = elim (Bool-cases (ltb n k)) [
    | inl t ↦ rw t (p, h)
    | inr f ↦ rw f (h.0, insert_conn-All n m p h.1)
  ]

  try_display-All :
      (t : Turn) (n : ℕ) (m : Conns)
      → n ≤ 4
      → Admits t
      → AllConns m
      → AllConns (try_display t.server n m)
  unfolding is_gamescope
  try_display-All t n m le a h = elim (Bool-cases (has_conn n m)) [
    | inl b ↦ rw b h
    | inr b ↦ rw b (elim (Bool-cases ((t.server n).connects)) [
      | inr c ↦ rw c h
      | inl c ↦ rw c (elim (Bool-cases (is_gamescope (t.server n))) [
        | inr g ↦ rw g h
        | inl g ↦ rw g (insert_conn-All n m (a n le g) h)
      ])
    ])
  ]

  try_displays-All :
      (t : Turn) (ns : List ℕ) (m : Conns)
      → All (λ n. n ≤ 4) ns
      → Admits t
      → AllConns m
      → AllConns (try_displays t.server ns m)
  try_displays-All t [] m le a h = h
  try_displays-All t (n ∷ ns) m le a h =
      try_displays-All t ns (try_display t.server n m) le.1 a (try_display-All t n m le.0 a h)

  discover-All : (t : Turn) (l : Loop) → Admits t → AllConns l.conns → AllConns (discover t l).conns
  unfolding discover
  discover-All t l a h = elim (Bool-cases (leb l.next_discovery t.now)) [
    | inr f ↦ rw f h
    | inl b ↦ rw b (
        try_displays-All t (0 ∷ 1 ∷ 2 ∷ 3 ∷ 4 ∷ []) l.conns
          (omega arith, (omega arith, (omega arith, (omega arith, (omega arith, tt))))) a h)
  ]

  visit-All :
      (t : Turn) (m : Conns) → AllConns m → AllConns (visit t m).0 × All (λ i. P i.0) (visit t m).1
  unfolding visit
  visit-All t [] h = (tt, tt)
  visit-All t ((n, c) ∷ m) h =
      let rest = visit-All t m h.1 in
      elim (Bool-cases (t.is_lost n)) [
        | inl b ↦ rw b rest
        | inr b ↦
            rw b ((h.0, rest.0), with_display n (polled (t.reply n) c).1 (visit t m).1 h.0 rest.1)
      ]
    where
      with_display :
          (n : ℕ) (i : Injection) (is : Injections)
          → P n
          → All (λ i. P i.0) is
          → All (λ i. P i.0) (from_display n i is)
      with_display n none is p h = h
      with_display n (some i) is p h = (p, h)

  turns-All :
      (ts : List Turn) (l : Loop)
      → All Admits ts
      → AllConns l.conns
      → All (λ i. P i.0) (turns ts l).1
  unfolding turns turn
  turns-All [] l a h = tt
  turns-All (t ∷ ts) l a h =
      let seen = visit-All t (discover t l).conns (discover-All t l a.0 h) in
      All-append (λ i. P i.0) (visit t (discover t l).conns).1 (turns ts (turn t l).0).1 seen.1
        (turns-All ts (turn t l).0 a.1 seen.0)

All-In : {A : Type 0} (Q : A → Type 0) (xs : List A) → ((a : A) → In a xs → Q a) → All Q xs
All-In Q [] h = tt
All-In Q (x ∷ xs) h = (h x (inl refl), All-In Q xs (λ a m. h a (inr m)))

-- Over any turns of the loop from its start, every position that is injected comes from one of the
-- first five displays, and in one of the turns this display knew the atom of gamescope's name and
-- its root had the property of this name.
pub turns-SaidGamescope : (ts : List Turn) → All (λ i. SaidGamescope ts i.0) (turns ts no_conns).1
turns-SaidGamescope ts =
    turns-All (SaidGamescope ts) ts no_conns
      (All-In (λ t. (n : ℕ) → n ≤ 4 → is_gamescope (t.server n) ≡ true → SaidGamescope ts n) ts
        (λ t m n le g. (le, (t, (m, is_gamescope-IsGamescope (t.server n) g)))))
      tt
