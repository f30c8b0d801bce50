-- ===== src/Pointer/Settles.antt =====
-- pointer_sync.cpp (server/src/server): the positions injected over many polls.
use steamos_containerized.Common.{
  sym, ap, ◌∙◌, if◌then◌else◌, ◌≤◌, ◌≡◌, ◌⊎◌, none, some, List, [], ◌∷◌, arith, Bool-cases,
  Option-cases, ◌+◌, refl, subst, inl, inr, true,
}
use steamos_containerized.Common.Int.{ℤ, pos, negsuc, ◌-ℤ◌}
use steamos_containerized.Pointer.{
  Conn, distance, Poll, far, Injection, inject_at, poll, new_conn, client_quiet, with_injection,
  polls,
}

-- What the connection injected last.
abbrev pub last_injection : Conn → Injection
last_injection c = if c.injected then some (c.inj_x, c.inj_y) else none

abbrev pub Apart : Injection → ℤ × ℤ → Type 0
Apart none q = Unit
Apart (some i) q = (2 ≤ distance q.0 i.0) ⊎ (2 ≤ distance q.1 i.1)

-- None is the origin, and each is at least two pixels from the one before in a coordinate.
abbrev pub Spaced : Injection → List (ℤ × ℤ) → Type 0
Spaced before [] = Unit
Spaced before (q ∷ qs) = Apart before q × ¬ ((q.0 ≡ pos 0) × (q.1 ≡ pos 0)) × Spaced (some q) qs

-- The positions are those of some of the polls, in the order of the polls.
abbrev pub Polled : List (ℤ × ℤ) → List Poll → Type 0
Polled qs [] = qs ≡ []
Polled qs (p ∷ ps) =
    Polled qs ps ⊎ ((rest : List (ℤ × ℤ)) × ((qs ≡ (p.x, p.y) ∷ rest) × Polled rest ps))

poll_quiet :
    (p : Poll) (c : Conn) → (poll p c).1 ≡ none → last_injection (poll p c).0 ≡ last_injection c
unfolding poll inject_at
poll_quiet p c e = ground arith

-- An injection comes from `inject_at`, which saw the position.
poll_through :
    (p : Poll) (c : Conn) {q : ℤ × ℤ}
    → (poll p c).1 ≡ some q
    → (inject_at p (record c { last_x = p.x; last_y = p.y })).1 ≡ some q
unfolding poll
poll_through p c e = ground arith

inject_at-far :
    (p : Poll) (c : Conn) (q : ℤ × ℤ)
    → (inject_at p c).1 ≡ some q
    → (far p c ≡ true) × (some (p.x, p.y) ≡ some q)
unfolding inject_at
inject_at-far p c q e = (ground arith, ground arith)

far-Apart : (p : Poll) (c : Conn) → far p c ≡ true → Apart (last_injection c) (p.x, p.y)
unfolding far
far-Apart p c e = elim (Bool-cases c.injected) [ inl t ↦ rw t (ground arith) | inr f ↦ rw f tt ]

some_eq : {a b : ℤ × ℤ} → Path Injection (some a) (some b) → a ≡ b
some_eq e = cc e

poll_injects :
    (p : Poll) (c : Conn) (q : ℤ × ℤ)
    → (poll p c).1 ≡ some q
    → Apart (last_injection c) q
      × ¬ ((q.0 ≡ pos 0) × (q.1 ≡ pos 0))
      × (last_injection (poll p c).0 ≡ some q)
unfolding poll inject_at far
poll_injects p c q e =
    let seen = record c { last_x = p.x; last_y = p.y } in
    let at = inject_at-far p seen q (poll_through p c e) in
    (
      subst (Apart (last_injection c)) (some_eq at.1) (far-Apart p seen at.0),
      λ z. ground arith,
      ground arith,
    )

with_injection-Spaced :
    (before : Injection) (p : Poll) (c : Conn) (rest : List (ℤ × ℤ))
    → before ≡ last_injection c
    → Spaced (last_injection (poll p c).0) rest
    → Spaced before (with_injection (poll p c).1 rest)
with_injection-Spaced before p c rest b h = elim (Option-cases (poll p c).1) [
  | inl n ↦ rw (n, b, ← poll_quiet p c n) h
  | inr (q, e) ↦
      let facts = poll_injects p c q e in
      rw (e, b) (facts.0, facts.1, subst (λ i. Spaced i rest) facts.2 h)
]

polls-Spaced : (ps : List Poll) (c : Conn) → Spaced (last_injection c) (polls ps c)
unfolding polls
polls-Spaced [] c = tt
polls-Spaced (p ∷ ps) c =
    with_injection-Spaced (last_injection c) p c (polls ps (poll p c).0) refl
      (polls-Spaced ps (poll p c).0)

with_injection-Polled :
    (p : Poll) (ps : List Poll) (i : Injection) (rest : List (ℤ × ℤ))
    → ((q : ℤ × ℤ) → i ≡ some q → (p.x, p.y) ≡ q)
    → Polled rest ps
    → Polled (with_injection i rest) (p ∷ ps)
with_injection-Polled p ps none rest at h = inl h
with_injection-Polled p ps (some q) rest at h =
    inr (rest, (ap (λ x. x ∷ rest) (sym (at q refl)), h))

polls-Polled : (ps : List Poll) (c : Conn) → Polled (polls ps c) ps
unfolding polls
polls-Polled [] c = refl
polls-Polled (p ∷ ps) c =
    with_injection-Polled p ps (poll p c).1 (polls ps (poll p c).0)
      (λ q e.
        some_eq
          (inject_at-far p (record c { last_x = p.x; last_y = p.y }) q (poll_through p c e)).1)
      (polls-Polled ps (poll p c).0)

same_place : (a : ℤ) → distance a a ≡ 0
unfolding distance ◌-ℤ◌
same_place (pos n) = ground arith
same_place (negsuc n) = ground arith

settled :
    (p : Poll) (c : Conn)
    → c.injected ≡ true
    → ◌≡◌ {A = ℤ × ℤ} (p.x, p.y) (c.inj_x, c.inj_y)
    → (poll p c).1 ≡ none
settled p c t e = elim (Option-cases (poll p c).1) [
  | inl n ↦ n
  | inr (q, f) ↦
      let at = poll_injects p c q f in
      let seen = inject_at-far p (record c { last_x = p.x; last_y = p.y }) q (poll_through p c f) in
      let last : ℤ × ℤ = (c.inj_x, c.inj_y) in
      let here : last ≡ q = sym e ∙ some_eq seen.1 in
      absurd (
        not_apart last q here
          (subst (λ i. Apart i q) (ap (λ b. if b then some (c.inj_x, c.inj_y) else none) t) at.0))
]
  where
    not_apart : (a q : ℤ × ℤ) → a ≡ q → Apart (some a) q → ⊥
    not_apart a q e h = elim (subst (Apart (some a)) (sym e) h) [
      | inl x ↦ ground (arith, same_place a.0)
      | inr x ↦ ground (arith, same_place a.1)
    ]

last_is : (c : Conn) → c.injected ≡ true → last_injection c ≡ some (c.inj_x, c.inj_y)
last_is c t = rw t refl

settles : (q : Poll) (c : Conn) → last_injection c ≡ some (q.x, q.y) → (poll q c).1 ≡ none
settles q c e = elim (Bool-cases c.injected) [
  | inl t ↦ settled q c t (sym (some_eq (sym (last_is c t) ∙ e)))
  | inr f ↦ absurd (ground arith)
]

recent : (q : Poll) (c : Conn) → q.now_ms ≤ q.last_client_ms + 250 → (poll q c).1 ≡ none
unfolding poll inject_at client_quiet
recent q c h = ground arith

-- Over any polls of a new connection, the injected positions are those of some of the polls, in their
-- order; none is the origin, and each is at least two pixels from the one before in one of the
-- coordinates. Whatever the connection saw, a poll that answers what was injected last injects
-- nothing, and neither does one at which the client moved the mouse at most 250 ms before, or later.
pub injections-Spaced :
    (ps : List Poll) (q : Poll) (c : Conn)
    → Polled (polls ps new_conn) ps
      × (Spaced none (polls ps new_conn)
          × ((last_injection c ≡ some (q.x, q.y) → (poll q c).1 ≡ none)
              × (q.now_ms ≤ q.last_client_ms + 250 → (poll q c).1 ≡ none)))
injections-Spaced ps q c =
    (polls-Polled ps new_conn, (polls-Spaced ps new_conn, (settles q c, recent q c)))
