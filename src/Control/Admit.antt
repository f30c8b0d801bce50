-- ===== src/Control/Admit.antt =====
-- control.cpp (server/src/server): which peers have an effect on the server.
use steamos_containerized.Common.{
  ◌==◌, if◌then◌else◌, Text, ℕ, ◌≡◌, Option, none, some, List, [], ◌∷◌, arith, Bool-cases,
  Option-cases, ◌≢◌, ◌⊎◌, inl, inr, refl, sym, ap, ◌∙◌, Bool,
}
use steamos_containerized.Session.{Ptr, SessionRegistry, StreamSession}
use steamos_containerized.Control.{◌>>=◌}
use steamos_containerized.Control.Layout.{Gcm, decrypt_packet}
use steamos_containerized.Control.Dispatch.{
  Effect, match_session, Clients, find_peer, erase_peer, EnetEvent, connect, turn, disconnect,
  receive, other, dispatch, receive_from, decrypted, receive_packet,
}

-- The turns of the loop, the newest event first; an event that the model gives no result is passed
-- over.
abbrev after_turn : Clients → Option (Clients × List Effect) → Clients
after_turn m none = m
after_turn m (some r) = r.0

unfoldable pub clients_after : Gcm → List EnetEvent → Clients
unfolding turn
clients_after c [] = []
clients_after c (e ∷ before) = let m = clients_after c before in after_turn m (turn c e m)

-- The event leaves the session of the peer as it is.
abbrev pub Leaves : ℕ → EnetEvent → Type 0
Leaves peer (connect k data_ ip r) = (k ≢ peer) ⊎ (match_session data_ ip r ≡ none)
Leaves peer (disconnect k) = k ≢ peer
Leaves peer _ = Unit

-- The peer connected and matched this session, and since then every event left that as it is.
pub data Joined (peer : ℕ) (p : Ptr) : List EnetEvent → Type 0 where
  joins :
      {k data_ : ℕ} {ip : Text} {r : SessionRegistry} {before : List EnetEvent}
      → k ≡ peer
      → match_session data_ ip r ≡ some p
      → Joined peer p (connect k data_ ip r ∷ before)
  stays :
      {e : EnetEvent} {before : List EnetEvent}
      → Leaves peer e
      → Joined peer p before
      → Joined peer p (e ∷ before)

find_peer-erase_peer :
    (n k : ℕ) (m : Clients)
    → find_peer k (erase_peer n m) ≡ (if n == k then none else find_peer k m)
unfolding find_peer erase_peer
find_peer-erase_peer n k [] = ground arith
find_peer-erase_peer n k ((j, c) ∷ m) = ground (arith, find_peer-erase_peer n k m)

received :
    (m : Clients) (o : Option (List Effect)) → after_turn m (o >>= λ effects. some (m, effects)) ≡ m
received m none = refl
received m (some effects) = refl

find_peer-Joined :
    (c : Gcm) (h : List EnetEvent) (peer : ℕ) (p : Ptr)
    → find_peer peer (clients_after c h) ≡ some p
    → Joined peer p h
unfolding clients_after turn find_peer
find_peer-Joined c [] peer p e = cc e
find_peer-Joined c (connect k data_ ip r ∷ h) peer p e =
    elim (Option-cases (match_session data_ ip r)) [
      | inl n ↦ stays (inr n) (find_peer-Joined c h peer p (ground arith))
      | inr (q, m) ↦ elim (Bool-cases (k == peer)) [
        | inl t ↦ joins (ground arith) (ground arith)
        | inr f ↦ stays (inl (ground arith)) (
            find_peer-Joined c h peer p
              (ground (arith, find_peer-erase_peer k peer (clients_after c h))))
      ]
    ]
find_peer-Joined c (disconnect k ∷ h) peer p e =
    let old = find_peer-erase_peer k peer (clients_after c h) in
    stays (ground (arith, old)) (find_peer-Joined c h peer p (ground (arith, old)))
find_peer-Joined c (receive k packet r media ∷ h) peer p e =
    let m = clients_after c h in
    stays tt (
      find_peer-Joined c h peer p (
        ap (find_peer peer) (sym (received m (receive_from c r media packet (find_peer k m)))) ∙ e))
find_peer-Joined c (other ∷ h) peer p e = stays tt (find_peer-Joined c h peer p e)

bound :
    (m m' : Clients) (o : Option (List Effect)) {effects : List Effect}
    → Path (Option (Clients × List Effect)) (o >>= λ b. some (m, b)) (some (m', effects))
    → o ≡ some effects
bound m m' none e = cc e
bound m m' (some b) e = cc e

decrypted_first :
    (c : Gcm) (s : StreamSession) (media : Bool) (packet : Text) {x : Effect}
    {effects : List Effect}
    → receive_packet c s media packet ≡ some (x ∷ effects)
    → (plain : Text) × (decrypt_packet c packet s.aes_key ≡ some (some plain))
      × (dispatch s media plain ≡ some (x ∷ effects))
unfolding receive_packet decrypted
decrypted_first c s media packet e = elim (Option-cases (decrypt_packet c packet s.aes_key)) [
  | inl n ↦ absurd (ground arith)
  | inr (none, d) ↦ absurd (ground arith)
  | inr (some plain, d) ↦ (plain, d, ground arith)
]

-- For any events so far, if a packet of a peer has an effect, the peer had connected and matched a
-- session, which later events left it, and the packet was decrypted under the key of that session; its
-- effects are those of the decrypted text.
pub effects_need_session :
    (c : Gcm) (h : List EnetEvent) (peer : ℕ) (packet : Text) (r : SessionRegistry) (media : Bool)
    (m : Clients) (x : Effect) (effects : List Effect)
    → turn c (receive peer packet r media) (clients_after c h) ≡ some (m, x ∷ effects)
    → (p : Ptr) × Joined peer p h
      × ((plain : Text) × (decrypt_packet c packet (r.heap p).aes_key ≡ some (some plain))
          × (dispatch (r.heap p) media plain ≡ some (x ∷ effects)))
unfolding turn
effects_need_session c h peer packet r media m x effects e =
    elim (Option-cases (find_peer peer (clients_after c h))) [
      | inl n ↦ absurd (ground arith)
      | inr (p, f) ↦ (
        p,
        find_peer-Joined c h peer p f,
        decrypted_first c (r.heap p) media packet
            (bound (clients_after c h) m (receive_packet c (r.heap p) media packet) (rw f at e)),
      )
    ]
