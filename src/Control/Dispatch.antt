-- ===== src/Control/Dispatch.antt =====
-- control.cpp (server/src/server): `match_session` and one turn of the loop of `ControlServer::run`.
-- The callbacks of main.cpp are set, and an event comes with the registry as it is then.
use steamos_containerized.Common.{
  ◌==◌, if◌then◌else◌, Text, ◌=?◌, ℕ, Bool, ◌||◌, Option, none, some, List, [], ◌∷◌, ◌++◌, map,
}
use steamos_containerized.Session.{StreamSession, Ptr, SessionRegistry, get_running}
use steamos_containerized.Control.{◌>>=◌, MediaCall}
use steamos_containerized.Control.Layout.{
  input_data, termination, idr_frame, encrypted, Gcm, type_of, decrypt_packet,
}
use steamos_containerized.Control.Inputs.{handle_input}

-- What a turn of the loop does besides its own map.
pub data Effect : Type 0 where
  input : MediaCall → Effect
  on_idr : ℕ → Effect
  on_stop : ℕ → Effect
  disconnect_now : ℕ → Effect

unfoldable pub match_session : ℕ → Text → SessionRegistry → Option Ptr
match_session connect_data ip r = matching (get_running r)
  where
    matching : Option Ptr → Option Ptr
    matching none = none
    matching (some p) =
        if (r.heap p).enet_secret_payload == connect_data || (r.heap p).client_ip =? ip
        then some p
        else none

abbrev pub inputs : Option (List MediaCall) → Option (List Effect)
inputs none = none
inputs (some calls) = some (map input calls)

unfoldable pub dispatch_type : StreamSession → Bool → ℕ → Text → Option (List Effect)
unfolding handle_input
dispatch_type s media sub_type t =
    if sub_type == input_data
    then inputs (handle_input s.video media t)
    else if sub_type == idr_frame
    then some (on_idr s.session_id ∷ [])
    else if sub_type == termination
    then some (on_stop s.session_id ∷ [])
    else some []

-- A decrypted text, with the NUL that `data()` has after it.
unfoldable pub dispatch : StreamSession → Bool → Text → Option (List Effect)
unfolding dispatch_type
dispatch s media plain = do
  sub_type ← type_of (plain ++ 0 ∷ [])
  dispatch_type s media sub_type (plain ++ 0 ∷ [])

-- A packet whose decryption throws is dropped.
abbrev pub dispatch_plain : StreamSession → Bool → Option Text → Option (List Effect)
dispatch_plain s media none = some []
dispatch_plain s media (some plain) = dispatch s media plain

unfoldable pub decrypted : Gcm → StreamSession → Bool → Text → Option (List Effect)
unfolding decrypt_packet dispatch
decrypted c s media packet = do
  plain ← decrypt_packet c packet s.aes_key
  dispatch_plain s media plain

unfoldable pub receive_packet : Gcm → StreamSession → Bool → Text → Option (List Effect)
unfolding decrypted
receive_packet c s media packet = do
  type ← type_of packet
  if type == encrypted then decrypted c s media packet else some []

-- `clients`, the session of each peer.
abbrev pub Clients : Type 0
Clients = List (ℕ × Ptr)

unfoldable pub find_peer : ℕ → Clients → Option Ptr
find_peer peer [] = none
find_peer peer ((k, p) ∷ m) = if k == peer then some p else find_peer peer m

unfoldable pub erase_peer : ℕ → Clients → Clients
erase_peer peer [] = []
erase_peer peer ((k, p) ∷ m) =
    let rest = erase_peer peer m in if k == peer then rest else (k, p) ∷ rest

pub data EnetEvent : Type 0 where
  connect : ℕ → ℕ → Text → SessionRegistry → EnetEvent
  disconnect : ℕ → EnetEvent
  receive : ℕ → Text → SessionRegistry → Bool → EnetEvent
  other : EnetEvent

abbrev pub connect_matched : ℕ → Clients → Option Ptr → Clients × List Effect
connect_matched peer m none = (m, disconnect_now peer ∷ [])
connect_matched peer m (some p) = ((peer, p) ∷ erase_peer peer m, [])

abbrev pub receive_from : Gcm → SessionRegistry → Bool → Text → Option Ptr → Option (List Effect)
receive_from c r media packet none = some []
receive_from c r media packet (some p) = receive_packet c (r.heap p) media packet

unfoldable pub turn : Gcm → EnetEvent → Clients → Option (Clients × List Effect)
unfolding match_session receive_packet find_peer erase_peer
turn c (connect peer data_ ip r) m = some (connect_matched peer m (match_session data_ ip r))
turn c (disconnect peer) m = some (erase_peer peer m, [])
turn c (receive peer packet r media) m = do
  effects ← receive_from c r media packet (find_peer peer m)
  some (m, effects)
turn c other m = some (m, [])
