-- ===== src/Launch/Info.antt =====
-- moonlight_proto.cpp and servers.cpp (server/src/server): what /serverinfo, /applist and the HTTPS
-- /pair answer. A document is the values below its root, by name, and the nodes that repeat.
use steamos_containerized.Common.{
  ◌==◌, if◌then◌else◌, is_some, value_or, Text, text, ◌=?◌, ℕ, ◌/◌, ◌%◌, ◌^◌, ◌≡◌, refl, Bool, true,
  false, Option, List, [], ◌∷◌, map,
}
use steamos_containerized.Common.Int.{ℤ, pos}
use steamos_containerized.StdLib.{StdLib}
use steamos_containerized.Session.{get_running}
use steamos_containerized.Video.{bit_or}
use steamos_containerized.Launch.{App, Server}

pub record DisplayMode : Type 0 where
  pub mode_width : ℤ
  pub mode_height : ℤ
  pub refresh_rate : ℤ

-- What `main` sets once besides the fields of `Server`.
pub record HostInfo : Type 0 where
  pub https_port : ℤ
  pub http_port : ℤ
  pub uuid : Text
  pub hostname : Text
  pub mac_address : Text
  pub display_modes : List DisplayMode

abbrev pub Fields : Type 0
Fields = List (Text × Text)

pub record Document : Type 0 where
  pub values : Fields
  pub nodes : List Fields

-- The bits of H264, H265 and AV1.
unfoldable pub codec_support : Bool → Bool → ℕ
unfolding bit_or
codec_support has_hevc has_av1 =
    let base = if has_hevc then bit_or 32 1 256 else 1 in
    if has_av1 then bit_or 32 base 65536 else base

abbrev pub number_or_zero : Bool → ℕ → ℕ
number_or_zero b n = if b then n else 0

module _ (lib : StdLib) where
  abbrev pub number : ℕ → Text
  number n = lib.to_string (pos n)

  abbrev pub mode_node : DisplayMode → Fields
  mode_node m =
      (text "Width", lib.to_string m.mode_width)
      ∷ (text "Height", lib.to_string m.mode_height)
      ∷ (text "RefreshRate", lib.to_string m.refresh_rate)
      ∷ []

  -- `game` is the current app, 0 if there is none.
  unfoldable pub serverinfo : Bool → ℕ → HostInfo → Text → ℕ → Bool → Bool → Document
  unfolding codec_support
  serverinfo busy game h local_ip pair_status has_hevc has_av1 = record {
    values =
        (text "status_code", number 200)
        ∷ (text "hostname", h.hostname)
        ∷ (text "appversion", text "7.1.431.-1")
        ∷ (text "GfeVersion", text "3.23.0.74")
        ∷ (text "uniqueid", h.uuid)
        ∷ (text "MaxLumaPixelsHEVC", number (number_or_zero has_hevc 1869449984))
        ∷ (text "ServerCodecModeSupport", number (codec_support has_hevc has_av1))
        ∷ (text "HttpsPort", lib.to_string h.https_port)
        ∷ (text "ExternalPort", lib.to_string h.http_port)
        ∷ (text "mac", h.mac_address)
        ∷ (text "LocalIP", local_ip)
        ∷ (text "PairStatus", number pair_status)
        ∷ (text "currentgame", number game)
        ∷ (text "state", if busy then text "SUNSHINE_SERVER_BUSY" else text "SUNSHINE_SERVER_FREE")
        ∷ [];
    nodes = map mode_node h.display_modes;
  }

  abbrev pub app_node : App → Fields
  app_node a =
      (text "IsHdrSupported", number (number_or_zero a.support_hdr 1))
      ∷ (text "AppTitle", a.title)
      ∷ (text "ID", a.id)
      ∷ []

  unfoldable pub applist : List App → Document
  applist apps = record {
    values = (text "status_code", number 200) ∷ [];
    nodes = map app_node apps;
  }

  -- The answer of a handler: a status and a document, the refusal of an unpaired client, or nothing.
  pub data InfoAnswer : Type 0 where
    document : ℕ → Document → InfoAnswer
    unauthorized : InfoAnswer
    no_answer : InfoAnswer

  abbrev pub serverinfo_answer : HostInfo → Server → Text → Bool → InfoAnswer
  serverinfo_answer h sv local_ip paired =
      let running = is_some (get_running sv.sessions) in
      document 200 (
        serverinfo running (number_or_zero running 1) h local_ip (number_or_zero paired 1)
          sv.support_hevc sv.support_av1)

  -- Over HTTP nobody is known to be paired.
  unfoldable pub http_serverinfo : HostInfo → Server → Text → InfoAnswer
  unfolding serverinfo
  http_serverinfo h sv local_ip = serverinfo_answer h sv local_ip false

  -- `paired` is whether the certificate of the connection is that of a paired client.
  unfoldable pub https_serverinfo : Bool → HostInfo → Server → Text → InfoAnswer
  unfolding serverinfo
  https_serverinfo paired h sv local_ip =
      if paired then serverinfo_answer h sv local_ip true else unauthorized

  unfoldable pub https_applist : Bool → Server → InfoAnswer
  unfolding applist
  https_applist paired sv = if paired then document 200 (applist sv.apps) else unauthorized

  -- A paired client that asks for another phrase gets no answer.
  unfoldable pub https_pair : Bool → Option Text → InfoAnswer
  https_pair paired phrase =
      if paired
      then (if value_or phrase [] =? text "pairchallenge"
          then document 200 (record {
            values = (text "paired", number 1) ∷ (text "status_code", number 200) ∷ [];
            nodes = [];
          })
          else no_answer)
      else unauthorized

  -- Bit `k` of the codecs, as a client tests it.
  abbrev has_bit : ℕ → ℕ → Bool
  has_bit k n = n / 2 ^ k % 2 == 1

  -- A client reads from the codecs that H264 is there, and HEVC and AV1 exactly if the server has
  -- them.
  pub codec_support_bits :
      (has_hevc has_av1 : Bool)
      → (has_bit 0 (codec_support has_hevc has_av1) ≡ true)
        × ((has_bit 8 (codec_support has_hevc has_av1) ≡ has_hevc)
            × (has_bit 16 (codec_support has_hevc has_av1) ≡ has_av1))
  unfolding codec_support bit_or
  codec_support_bits false false = (refl, (refl, refl))
  codec_support_bits false true = (refl, (refl, refl))
  codec_support_bits true false = (refl, (refl, refl))
  codec_support_bits true true = (refl, (refl, refl))
