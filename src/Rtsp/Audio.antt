-- ===== src/Rtsp/Audio.antt =====
-- `audio_cfg` of rtsp_commands.hpp: the Opus layouts, and the speaker string of surround-params.
use steamos_containerized.Common.{
  ltb, ◌==◌, if◌then◌else◌, value_or, take, drop, find_if, All, In, Text, ℕ, ◌+◌, ◌≡◌, ◌⊎◌, Bool,
  false, List, [], ◌∷◌, ◌++◌, map, arith,
}
use steamos_containerized.Common.Int.{ℤ, pos, negsuc}

pub record Config : Type 0 where
  pub channels : ℕ
  pub streams : ℕ
  pub coupled_streams : ℕ
  pub bitrate : ℕ

abbrev pub stereo : Config
stereo = record { channels = 2; streams = 1; coupled_streams = 1; bitrate = 96000 }

abbrev pub configurations : List Config
configurations =
    stereo
    ∷ record { channels = 6; streams = 4; coupled_streams = 2; bitrate = 256000 }
    ∷ record { channels = 8; streams = 5; coupled_streams = 3; bitrate = 450000 }
    ∷ []

-- `std::rotate(begin + 3, begin + 4, end)`
unfoldable pub rotate : List ℕ → List ℕ
rotate m = take 3 m ++ (drop 4 m ++ take 1 (drop 3 m))

unfoldable pub channel_mapping : ℕ → List ℕ
channel_mapping channels =
    if channels == 6
    then 0 ∷ 1 ∷ 4 ∷ 5 ∷ 2 ∷ 3 ∷ []
    else if channels == 8
    then 0 ∷ 1 ∷ 6 ∷ 7 ∷ 2 ∷ 3 ∷ 4 ∷ 5 ∷ []
    else 0 ∷ 1 ∷ []

unfoldable pub speaker_string : Config → Text
unfolding rotate channel_mapping
speaker_string c =
    let m = channel_mapping c.channels in
    map (λ coded. coded + b'0') (if ltb 2 c.channels then rotate m else m)

abbrev pub eq_ℤ : ℕ → ℤ → Bool
eq_ℤ n (pos m) = n == m
eq_ℤ n (negsuc m) = false

unfoldable pub for_channels : ℤ → Config
for_channels channels = value_or (find_if (λ c. eq_ℤ c.channels channels) configurations) stereo

-- The layout for any channel count is an advertised one: that with this many channels, or stereo.
pub for_channels_lem :
    (channels : ℤ)
    → In (for_channels channels) configurations
      × ((pos (for_channels channels).channels ≡ channels)
          ⊎ ((for_channels channels ≡ stereo)
              × All (λ c. eq_ℤ c.channels channels ≡ false) configurations))
unfolding for_channels
for_channels_lem channels = ground arith
