-- ===== src/Connection/Tests.antt =====
-- A connection that starts, one whose control stream does not, and settings.
use tesla_moonlight_ubuntu.Base.{
  ℕ, ℤ, pos, negsuc, ◌<◌, ◌≡◌, refl, ◌⊎◌, true, false, Option, some, List, [], ◌∷◌, ◌++◌, ◌==◌,
  arith, if◌then◌else◌,
}
use tesla_moonlight_ubuntu.Connection.{
  Connection, stop_connection, connection_terminated, start_connection, rtsp_port, auto, remote,
  parse_rtsp_port_number_from_url, behind_last_colon, round_packet_size, cap_packet_size,
}
use tesla_moonlight_ubuntu.Connection.Stop.{undone_from, stop_connection_undoes}
use tesla_moonlight_ubuntu.Connection.Start.{HasStarted, HasGivenUp, start_connection-cases}
use tesla_moonlight_ubuntu.Connection.Settings.{
  IsNumberOf, IsUsable, IsRounded, IsCapped, rtsp_port_in_range, packet_size-IsUsable,
}

abbrev idle : Connection
idle = record {
  stage = 0;
  already_terminated = false;
  connection_interrupted = false;
  actions = [];
}

-- The control stream cannot be set up: stage 5 returns 7.
abbrev no_control : ℕ → ℕ
no_control k = if k == 5 then 7 else 0

start_connection-cases_example :
    HasStarted idle (start_connection no_control 0 idle)
    ⊎ ((j : ℕ) × (j < 11) × HasGivenUp no_control j idle (start_connection no_control 0 idle))
start_connection-cases_example = start_connection-cases no_control idle refl

abbrev midway : Connection
midway = record idle { stage = 5 }

stop_connection_undoes_example :
    ((stop_connection midway).stage ≡ 0)
    × ((stop_connection midway).actions ≡ [] ++ undone_from 5)
    × ((err : ℕ) → connection_terminated err (stop_connection midway) ≡ stop_connection midway)
stop_connection_undoes_example = stop_connection_undoes midway (omega arith)

-- "h:7", and the number of its digit
abbrev short_url : Option (List ℕ)
short_url = some (104 ∷ 58 ∷ 55 ∷ [])

abbrev seven : List ℕ → ℤ
seven digits = pos 7

rtsp_port_in_range_example :
    (0 < rtsp_port seven short_url)
    × (rtsp_port seven short_url < 65536)
    × ((rtsp_port seven short_url ≡ 48010) ⊎ IsNumberOf seven short_url (rtsp_port seven short_url))
rtsp_port_in_range_example = rtsp_port_in_range seven short_url

-- "h:-65536", by its number: a test for 0 alone would let it pass, and cut it to port 0.
far_below : rtsp_port (λ digits. negsuc 65535) short_url ≡ 48010
unfolding rtsp_port parse_rtsp_port_number_from_url behind_last_colon
far_below = refl

rounded : round_packet_size (pos 1400) ≡ some (pos 1392)
unfolding round_packet_size
rounded = refl

-- -20 is accepted as -16.
rounded_below : round_packet_size (negsuc 19) ≡ some (negsuc 15)
unfolding round_packet_size
rounded_below = refl

-- 512 is raised for a remote host.
raised : cap_packet_size auto false false true (pos 512) ≡ (remote, pos 1024)
unfolding cap_packet_size
raised = refl

packet_size-IsUsable_example :
    IsUsable (pos 1392)
    × IsRounded (pos 1400) (pos 1392)
    × IsUsable (cap_packet_size auto false false true (pos 1392)).1
    × IsCapped (pos 1392) (cap_packet_size auto false false true (pos 1392))
packet_size-IsUsable_example =
    packet_size-IsUsable (pos 1400) (pos 1392) auto false false true rounded
