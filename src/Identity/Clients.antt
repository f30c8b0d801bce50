-- ===== src/Identity/Clients.antt =====
-- state.cpp (server/src/server): the files of the clients that a start reads, and those that stay when
-- another one is written.
use steamos_containerized.Common.{
  Bool-cases, In, Text, text, ◌=?◌, =?_iff, is_empty, ◌≡◌, sym, ap, ◌∙◌, ◌≢◌, inl, inr, false, List,
  [], ◌∷◌,
}
use steamos_containerized.Common.Assoc.{erase}
use steamos_containerized.Identity.{load_clients}

pub In-load_clients :
    (ext : Text → Text) (name pem : Text) (dir : List (Text × Text))
    → ext name ≡ text ".pem"
    → is_empty pem ≡ false
    → In (name, pem) dir
    → In pem (load_clients ext dir)
unfolding load_clients
In-load_clients ext name pem [] x n m = absurd m
In-load_clients ext name pem ((k, p) ∷ dir) x n (inl e) =
    let key : ext k ≡ text ".pem" = ap (λ q. ext q.0) (sym e) ∙ x in
    let full : is_empty p ≡ false = ap (λ q. is_empty q.1) (sym e) ∙ n in
    rw ((=?_iff (ext k) (text ".pem")).1 key, full) (inl (ap (λ q. q.1) e))
In-load_clients ext name pem ((k, p) ∷ dir) x n (inr m) =
    let rest = In-load_clients ext name pem dir x n m in
    elim (Bool-cases (ext k =? text ".pem")) [
      | inr f ↦ rw f rest
      | inl t ↦
          rw t (elim (Bool-cases (is_empty p)) [ inl u ↦ rw u rest | inr u ↦ rw u (inr rest) ])
    ]

pub In-erase :
    (key name pem : Text) (dir : List (Text × Text))
    → name ≢ key
    → In (name, pem) dir
    → In (name, pem) (erase key dir)
unfolding erase
In-erase key name pem [] ne m = absurd m
In-erase key name pem ((k, p) ∷ dir) ne (inl e) = elim (Bool-cases (k =? key)) [
  | inl t ↦ absurd (ne (ap (λ q. q.0) e ∙ (=?_iff k key).0 t))
  | inr f ↦ rw f (inl e)
]
In-erase key name pem ((k, p) ∷ dir) ne (inr m) =
    let rest = In-erase key name pem dir ne m in
    elim (Bool-cases (k =? key)) [ inl t ↦ rw t rest | inr f ↦ rw f (inr rest) ]
