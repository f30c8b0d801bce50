-- ===== src/Session/Registry.antt =====
-- The laws of `SessionRegistry`: what each call keeps, and what the searches return.
use steamos_containerized.Common.{
  ◌==◌, if◌then◌else◌, Bool-cases, find_if, remove_if, All, All-remove_if, All-append, All-map, ℕ,
  ◌+◌, ◌^◌, ◌<◌, ◌≡◌, sym, ◌∙◌, ◌≢◌, inl, inr, Bool, none, List, [], ◌∷◌, ◌++◌, arith,
}
use steamos_containerized.Session.{
  StreamSession, Ptr, SessionRegistry, make_shared, modify, add, remove, get_by_id, take_id,
}

-- No two entries of the list have one session id.
abbrev pub Distinct : (Ptr → StreamSession) → List Ptr → Type 0
Distinct h [] = Unit
Distinct h (p ∷ ps) = All (λ q. (h q).session_id ≢ (h p).session_id) ps × Distinct h ps

-- A registered pointer is allocated, and its id was handed out by `next_id`.
abbrev pub Known : SessionRegistry → Ptr → Type 0
Known r p = (p < r.allocated) × ((r.heap p).session_id < r.next_id)

pub record IsValid (r : SessionRegistry) : Type 0 where
  pub known : All (Known r) r.sessions
  pub distinct : Distinct r.heap r.sessions

Distinct-remove_if :
    (h : Ptr → StreamSession) (p : Ptr → Bool) (ps : List Ptr)
    → Distinct h ps
    → Distinct h (remove_if p ps)
Distinct-remove_if h p [] d = tt
Distinct-remove_if h p (q ∷ qs) d = elim (Bool-cases (p q)) [
  | inl t ↦ rw t (Distinct-remove_if h p qs d.1)
  | inr e ↦ rw e (All-remove_if _ p qs d.0, Distinct-remove_if h p qs d.1)
]

pub remove-IsValid : (id : ℕ) (r : SessionRegistry) → IsValid r → IsValid (remove id r)
unfolding remove
remove-IsValid id r v = record {
  known = All-remove_if (Known r) _ r.sessions v.known;
  distinct = Distinct-remove_if r.heap _ r.sessions v.distinct;
}

find_if-remove_if :
    (h : Ptr → StreamSession) (i j : ℕ) (ps : List Ptr)
    → find_if (λ p. (h p).session_id == j) (remove_if (λ p. (h p).session_id == i) ps)
      ≡ (if i == j then none else find_if (λ p. (h p).session_id == j) ps)
find_if-remove_if h i j [] = ground arith
find_if-remove_if h i j (p ∷ ps) = ground (arith, find_if-remove_if h i j ps)

-- After `remove(i)` no session has the id `i`, and every other id finds what it found before.
pub get_by_id-remove :
    (i j : ℕ) (r : SessionRegistry)
    → get_by_id j (remove i r) ≡ (if i == j then none else get_by_id j r)
unfolding get_by_id remove
get_by_id-remove i j r = find_if-remove_if r.heap i j r.sessions

-- A pointer below `allocated` means the same session after a new one is made.
Known-make_shared :
    (s : StreamSession) (r : SessionRegistry) (p : Ptr) → Known r p → Known (make_shared s r).1 p
unfolding make_shared
Known-make_shared s r p k = ground arith

Distinct-make_shared :
    (s : StreamSession) (r : SessionRegistry) (ps : List Ptr)
    → All (Known r) ps
    → Distinct r.heap ps
    → Distinct (make_shared s r).1.heap ps
unfolding make_shared
Distinct-make_shared s r [] k d = tt
Distinct-make_shared s r (p ∷ ps) k d = (ids ps k.1 d.0, Distinct-make_shared s r ps k.1 d.1)
  where
    ids :
        (qs : List Ptr)
        → All (Known r) qs
        → All (λ q. (r.heap q).session_id ≢ (r.heap p).session_id) qs
        → All
            (λ q. ((make_shared s r).1.heap q).session_id ≢ ((make_shared s r).1.heap p).session_id)
            qs
    ids [] f g = tt
    ids (q ∷ qs) f g = (ground arith, ids qs f.1 g.1)

pub make_shared-IsValid :
    (s : StreamSession) (r : SessionRegistry) → IsValid r → IsValid (make_shared s r).1
make_shared-IsValid s r v = record {
  known = unfold make_shared in All-map (Known r) _ r.sessions (Known-make_shared s r) v.known;
  distinct = unfold make_shared in Distinct-make_shared s r r.sessions v.known v.distinct;
}

-- Ids are handed out in ascending order, as long as the 64-bit counter does not wrap.
pub take_id-IsValid :
    (r : SessionRegistry) → r.next_id + 1 < 2 ^ 64 → IsValid r → IsValid (take_id r).1
unfolding take_id
take_id-IsValid r h v = record {
  known = All-map (Known r) _ r.sessions (λ p k. ground arith) v.known;
  distinct = v.distinct;
}

Distinct-append :
    (h : Ptr → StreamSession) (ps : List Ptr) (p : Ptr)
    → Distinct h ps
    → All (λ q. (h q).session_id ≢ (h p).session_id) ps
    → Distinct h (ps ++ p ∷ [])
Distinct-append h [] p d n = (tt, tt)
Distinct-append h (q ∷ qs) p d n =
    (All-append _ qs (p ∷ []) d.0 ((λ e. n.0 (sym e)), tt), Distinct-append h qs p d.1 n.1)

-- A session with an id of its own may be added.
pub add-IsValid :
    (p : Ptr) (r : SessionRegistry)
    → Known r p
    → All (λ q. (r.heap q).session_id ≢ (r.heap p).session_id) r.sessions
    → IsValid r
    → IsValid (add p r)
unfolding add
add-IsValid p r k n v = record {
  known = All-append (Known r) r.sessions (p ∷ []) v.known (k, tt);
  distinct = Distinct-append r.heap r.sessions p v.distinct n;
}

-- A write that leaves the id alone keeps the registry valid.
module _ (p : Ptr) (f : StreamSession → StreamSession)
    (keeps : (s : StreamSession) → (f s).session_id ≡ s.session_id) where
  pub session_id-modify :
      (r : SessionRegistry) (q : Ptr) → ((modify p f r).heap q).session_id ≡ (r.heap q).session_id
  unfolding modify
  session_id-modify r q = ground (arith, keeps (r.heap p))

  Distinct-modify :
      (r : SessionRegistry) (ps : List Ptr) → Distinct r.heap ps → Distinct (modify p f r).heap ps
  Distinct-modify r [] d = tt
  Distinct-modify r (q ∷ qs) d = (
    All-map _ _ qs (λ x n e. n (sym (session_id-modify r x) ∙ e ∙ session_id-modify r q)) d.0,
    Distinct-modify r qs d.1,
  )

  pub modify-IsValid : (r : SessionRegistry) → IsValid r → IsValid (modify p f r)
  modify-IsValid r v = record {
    known =
        All-map (Known r) _ (modify p f r).sessions
          (λ q k. (unfold modify in k.0, rw session_id-modify (unfold modify in k.1)))
          (unfold modify in v.known);
    distinct = Distinct-modify r (modify p f r).sessions (unfold modify in v.distinct);
  }

-- A new session with the next id goes into a fresh cell of the registry.
pub register-IsValid :
    (s : StreamSession) (r : SessionRegistry)
    → r.next_id + 1 < 2 ^ 64
    → s.session_id ≡ r.next_id
    → IsValid r
    → IsValid (add (make_shared s (take_id r).1).0 (make_shared s (take_id r).1).1)
register-IsValid s r h e v =
    add-IsValid _ _ (unfold make_shared take_id in (ground arith, ground arith))
      (unfold make_shared take_id in All-map (Known r) _ r.sessions (λ q k. ground arith) v.known)
      (make_shared-IsValid s _ (take_id-IsValid r h v))
