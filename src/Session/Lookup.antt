-- ===== src/Session/Lookup.antt =====
-- Which session `get_for_rtsp` and `get_by_client_ip` pick.
use steamos_containerized.Common.{
  FirstMatch, find_if-FirstMatch, Text, text, =?_iff, is_empty, ◌≡◌, refl, ◌≢◌, ◌↔◌, ◌⊎◌, inr, true,
  some, List, [], ◌∷◌, arith,
}
use steamos_containerized.Session.{StreamSession, Ptr, SessionRegistry, matches_rtsp, get_for_rtsp}

-- The reasons for which an RTSP request belongs to a session: the fake IP of its URI or of its Host
-- header, or the peer's own address where the Host header names nobody.
abbrev pub BelongsTo : Text → Text → Text → StreamSession → Type 0
BelongsTo uri_ip host_opt peer_ip s =
    (s.rtsp_fake_ip ≡ uri_ip)
    ⊎ (host_opt ≡ s.rtsp_fake_ip)
    ⊎ (((host_opt ≡ text "0.0.0.0") ⊎ (host_opt ≡ [])) × (s.client_ip ≡ peer_ip))

is_empty_iff : (t : Text) → (is_empty t ≡ true) ↔ (t ≡ [])
is_empty_iff t = ground arith

matches_rtsp_iff :
    (uri_ip host_opt peer_ip : Text) (s : StreamSession)
    → (matches_rtsp uri_ip host_opt peer_ip s ≡ true) ↔ BelongsTo uri_ip host_opt peer_ip s
matches_rtsp_iff uri_ip host_opt peer_ip s = ground (
  arith,
  =?_iff s.rtsp_fake_ip uri_ip,
  =?_iff host_opt s.rtsp_fake_ip,
  =?_iff host_opt (text "0.0.0.0"),
  is_empty_iff host_opt,
  =?_iff s.client_ip peer_ip,
)

-- The RTSP lookup returns the first registered session, in the order of launch, that the request
-- belongs to, and none exactly if it belongs to none of them.
pub get_for_rtsp-FirstMatch :
    (uri_ip host_opt peer_ip : Text) (r : SessionRegistry)
    → FirstMatch
        (λ p. BelongsTo uri_ip host_opt peer_ip (r.heap p))
        r.sessions
        (get_for_rtsp uri_ip host_opt peer_ip r)
unfolding get_for_rtsp
get_for_rtsp-FirstMatch uri_ip host_opt peer_ip r =
    find_if-FirstMatch _ _ (λ p. matches_rtsp_iff uri_ip host_opt peer_ip (r.heap p)) r.sessions

-- Where the Host header is missing, an older session of the same peer address is returned although
-- a later one has the fake IP of the request's URI.
pub get_for_rtsp_fallback_first :
    (uri_ip peer_ip : Text) (r : SessionRegistry) (p q : Ptr) (rest : List Ptr)
    → r.sessions ≡ p ∷ q ∷ rest
    → (r.heap p).client_ip ≡ peer_ip
    → (r.heap q).rtsp_fake_ip ≡ uri_ip
    → (r.heap p).rtsp_fake_ip ≢ uri_ip
    → p ≢ q
    → (get_for_rtsp uri_ip [] peer_ip r ≡ some p) × (get_for_rtsp uri_ip [] peer_ip r ≢ some q)
unfolding get_for_rtsp
get_for_rtsp_fallback_first uri_ip peer_ip r p q rest e same fake other ne =
    let hit = (matches_rtsp_iff uri_ip [] peer_ip (r.heap p)).1 (inr (inr (inr refl, same))) in
    let first : get_for_rtsp uri_ip [] peer_ip r ≡ some p = rw e (ground (arith, hit)) in
    (first, ground (arith, first))
