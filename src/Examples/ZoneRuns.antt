-- ===== src/Examples/ZoneRuns.antt =====
-- Zones of ZoneManager.cpp with room for one session each.
use server_application.Common.{
  ◌≤◌, ◌≡◌, refl, some, List, [], ◌∷◌, arith, ℤ, pos, minus_one, int_key, lookup, insert,
}
use server_application.Session.{Session, new_session}
use server_application.Zones.{
  Zone, new_zones, get_zone, assign_session_to_zone, leave_zone, add_to_zone,
}
use server_application.Zones.Capacity.{Request, assigns, serve, serve_all, zones_stay_within}
use server_application.Zones.Membership.{member, assign-leave}

abbrev visitor : ℤ → Session
visitor id = new_session id 0

abbrev requests : List Request
requests = assigns (visitor (pos 1)) 7 (pos 2) ∷ assigns (visitor (pos 3)) 8 (pos 2) ∷ []

zones_stay_within_example : 1 ≤ 1
unfolding new_zones get_zone serve_all serve assign_session_to_zone add_to_zone lookup insert
    new_session
zones_stay_within_example =
    zones_stay_within 2 1 requests (pos 2)
      (record { max_sessions = 1; zone_id = pos 2; sessions = (pos 1, 7) ∷ [] }) refl

abbrev empty_zone : Zone
empty_zone = record { max_sessions = 1; zone_id = pos 2; sessions = [] }

assign-leave_example :
    let entered = assign_session_to_zone (new_zones 2 1) (visitor (pos 1)) 7 (pos 2) in
    let left = leave_zone entered.0 entered.1 in
    (member entered.0 (pos 2) (pos 1) ≡ some 7)
    × (entered.1.zone_id ≡ pos 2)
    × (member left.0 (pos 2) (pos 4) ≡ member (new_zones 2 1) (pos 2) (pos 4))
    × (left.1.zone_id ≡ minus_one)
unfolding new_zones get_zone lookup new_session
assign-leave_example =
    assign-leave (new_zones 2 1) (visitor (pos 1)) 7 2 empty_zone (pos 2) (pos 4) refl (omega arith)
      refl
