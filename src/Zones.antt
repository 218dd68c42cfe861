-- ===== src/Zones.antt =====
-- Zone.cpp, ZoneManager.cpp, and the part of DataHandler.cpp that puts a session into a zone. A session is
-- named by its index in the pool, as in the session manager; `alive` tells which weak pointers still
-- lock.
pub mod Capacity
pub mod Membership
use server_application.Common.{
  ℕ, zero, suc, ◌+◌, Bool, true, false, Option, none, some, List, [], ◌∷◌, leb, if◌then◌else◌,
  length, Text, text_eq, ℤ, pos, minus_one, is_nonneg, int_key, Map, lookup, insert, erase,
}
use server_application.Session.{Session, Endpoint}

pub record Zone : Type 0 where
  pub max_sessions : ℕ
  pub zone_id : ℤ
  pub sessions : Map ℤ ℕ

abbrev pub Zones : Type 0
Zones = Map ℤ Zone

-- The ids are 1 up to the number of zones.
unfoldable pub new_zones : ℕ → ℕ → Zones
new_zones zero max_sessions = []
new_zones (suc n) max_sessions =
    (pos (suc n), record { max_sessions = max_sessions; zone_id = pos (suc n); sessions = [] })
    ∷ new_zones n max_sessions

unfoldable pub get_zone : Zones → ℤ → Option Zone
get_zone zones id = lookup id zones

has_member : Option ℕ → Bool
has_member none = false
has_member (some r) = true

-- Zone::add_session.
unfoldable pub add_to_zone : Zone → ℤ → ℕ → Zone × Bool
unfolding has_member
add_to_zone z session_id r =
    if leb z.max_sessions (length z.sessions)
    then (z, false)
    else if has_member (lookup session_id z.sessions)
    then (z, false)
    else (record z { sessions = insert session_id r z.sessions }, true)

-- Zone::remove_session.
unfoldable pub remove_from_zone : Zone → ℤ → Zone
remove_from_zone z session_id = record z { sessions = erase session_id z.sessions }

live : (ℕ → Bool) → Map ℤ ℕ → Map ℤ ℕ × List ℕ
live alive [] = ([], [])
live alive ((id, r) ∷ members) =
    let (kept, visited) = live alive members in
    if alive r then ((id, r) ∷ kept, r ∷ visited) else (kept, visited)

-- Zone::for_each_session: the sessions that are visited; the expired ones are dropped.
unfoldable pub visit_zone : (ℕ → Bool) → Zone → Zone × List ℕ
unfolding live
visit_zone alive z =
    let (kept, visited) = live alive z.sessions in (record z { sessions = kept }, visited)

target : Session → Text → List Endpoint → List Endpoint
target s sender targets =
    let found : List Endpoint = elim s.udp_endpoint [ none ↦ targets | some ep ↦ ep ∷ targets ] in
    if text_eq s.nickname sender then targets else found

-- Zone::broadcast: where the message is sent.
unfoldable pub broadcast_targets : (ℕ → Bool) → (ℕ → Session) → Map ℤ ℕ → Text → List Endpoint
unfolding target
broadcast_targets alive session_of [] sender = []
broadcast_targets alive session_of ((id, r) ∷ members) sender =
    let rest = broadcast_targets alive session_of members sender in
    if alive r then target (session_of r) sender rest else rest

-- ZoneManager::remove_session.
unfoldable pub leave_zone : Zones → Session → Zones × Session
unfolding get_zone remove_from_zone
leave_zone zones s =
    let left : Zones × Session = elim (get_zone zones s.zone_id) [
      | none ↦ (zones, s)
      | some z ↦ (
        insert s.zone_id (remove_from_zone z s.session_id) zones,
        record s { zone_id = minus_one; zone = none },
      )
    ] in
    if is_nonneg s.zone_id then left else (zones, s)

-- DataHandler::assign_session_to_zone.
unfoldable pub assign_session_to_zone : Zones → Session → ℕ → ℤ → Zones × Session
unfolding get_zone add_to_zone
assign_session_to_zone zones s r zone_id = elim (get_zone zones zone_id) [
  | none ↦ (zones, s)
  | some z ↦
      let (z', added) = add_to_zone z s.session_id r in
      if added
      then (insert zone_id z' zones, record s { zone_id = zone_id; zone = some zone_id })
      else (zones, s)
]
