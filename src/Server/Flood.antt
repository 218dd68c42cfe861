-- ===== src/Server/Flood.antt =====
-- register_bad_udp_packet and is_blocked_udp of DataHandler.cpp. An endpoint stands for the text of its
-- address and port, which no two endpoints share.
use server_application.Common.{
  ℕ, ◌+◌, ◌-◌, ◌*◌, Bool, false, none, some, ltb, leb, if◌then◌else◌, Map, lookup, insert, erase,
}
use server_application.Session.{Endpoint}
use server_application.Session.Udp.{ns_per_sec}
use server_application.Server.{BadUdpInfo, endpoint_key}

abbrev pub bad_udp_limit : ℕ
bad_udp_limit = 10

abbrev pub block_time : ℕ
block_time = 60 * ns_per_sec

unfoldable pub count_failure : ℕ → BadUdpInfo → BadUdpInfo
count_failure now info =
    if ltb block_time (now - info.first_fail_time)
    then record { fail_count = 1; first_fail_time = now }
    else record info { fail_count = info.fail_count + 1 }

unfoldable pub register_bad_udp_packet :
    ℕ → Endpoint → Map Endpoint BadUdpInfo → Map Endpoint BadUdpInfo
unfolding count_failure
register_bad_udp_packet now ep m = elim (lookup ep m) [
  | none ↦ insert ep (record { fail_count = 1; first_fail_time = now }) m
  | some info ↦ insert ep (count_failure now info) m
]

-- The map, and whether the endpoint is blocked.
unfoldable pub is_blocked_udp :
    ℕ → Endpoint → Map Endpoint BadUdpInfo → Map Endpoint BadUdpInfo × Bool
is_blocked_udp now ep m = elim (lookup ep m) [
  | none ↦ (m, false)
  | some info ↦
      if ltb block_time (now - info.first_fail_time)
      then (erase ep m, false)
      else (m, leb bad_udp_limit info.fail_count)
]
