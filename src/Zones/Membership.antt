-- ===== src/Zones/Membership.antt =====
-- Who is in which zone after DataHandler::assign_session_to_zone and ZoneManager::remove_session.
use server_application.Common.{
  ℕ, ◌<◌, ◌≡◌, refl, sym, ◌∙◌, ap, Bool, true, false, Option, none, some, arith, leb, if◌then◌else◌,
  length, ℤ, pos, int_eq, int_eq_iff, int_key, lookup, insert, erase, minus_one, lookup-insert,
  lookup-insert_self, lookup-erase, same_self, Bool-cases, inl, inr,
}
use server_application.Session.{Session}
use server_application.Zones.{
  Zone, Zones, get_zone, add_to_zone, remove_from_zone, has_member, leave_zone,
  assign_session_to_zone,
}

-- The session that a zone holds under an id.
unfoldable pub member : Zones → ℤ → ℤ → Option ℕ
member zones zone_id session_id = elim (get_zone zones zone_id) [
  | none ↦ none
  | some z ↦ lookup session_id z.sessions
]

member-insert :
    (zones : Zones) (k : ℤ) (z : Zone) (j i : ℤ)
    → member (insert k z zones) j i ≡ (if int_eq k j then lookup i z.sessions else member zones j i)
unfolding member get_zone
member-insert zones k z j i = rw (lookup-insert k j z zones, member) (pick (int_eq k j))
  where
    pick :
        (same : Bool)
        → (elim (if same then some z else lookup j zones) as (λ x. Option ℕ) [
          | none ↦ none
          | some z ↦ lookup i z.sessions
        ])
          ≡ (if same then lookup i z.sessions else elim (lookup j zones) as (λ x. Option ℕ) [
            | none ↦ none
            | some z ↦ lookup i z.sessions
          ])
    pick true = refl
    pick false = refl

abbrev joined_zone : Zone → Session → ℕ → Zone
joined_zone z s r = record z { sessions = insert s.session_id r z.sessions }

abbrev joined_zones : Zones → Session → ℕ → ℕ → Zone → Zones
joined_zones zones s r n z = insert (pos n) (joined_zone z s r) zones

abbrev joined : Session → ℕ → Session
joined s n = record s { zone_id = pos n; zone = some (pos n) }

assign_enters :
    (zones : Zones) (s : Session) (r n : ℕ) (z : Zone)
    → get_zone zones (pos n) ≡ some z
    → length z.sessions < z.max_sessions
    → lookup s.session_id z.sessions ≡ none
    → assign_session_to_zone zones s r (pos n) ≡ (joined_zones zones s r n z, joined s n)
unfolding assign_session_to_zone add_to_zone has_member
assign_enters zones s r n z e room absent =
    let space : leb z.max_sessions (length z.sessions) ≡ false = ground arith in
    rw (e, assign_session_to_zone) (rw (space, add_to_zone) (rw (absent, add_to_zone)))

leave_leaves :
    (zones : Zones) (s : Session) (n : ℕ) (z : Zone)
    → lookup (pos n) zones ≡ some z
    → leave_zone zones (joined s n) ≡ (
      insert (pos n) (remove_from_zone z s.session_id) zones,
      record s { zone_id = minus_one; zone = none },
    )
unfolding leave_zone get_zone
leave_leaves zones s n z e = rw (e, leave_zone)

-- What is found in the end is what was found at first.
restored :
    (zones : Zones) (s : Session) (r n : ℕ) (z : Zone) (j i : ℤ)
    → get_zone zones (pos n) ≡ some z
    → lookup s.session_id z.sessions ≡ none
    → (if int_eq (pos n) j
        then lookup i (erase s.session_id (insert s.session_id r z.sessions))
        else member (joined_zones zones s r n z) j i)
      ≡ member zones j i
unfolding member get_zone
restored zones s r n z j i e absent = elim (Bool-cases (int_eq (pos n) j)) [
  | inr other ↦ rw other (member-insert zones (pos n) (joined_zone z s r) j i ∙ rw other)
  | inl same ↦
      let home : pos n ≡ j = (int_eq_iff (pos n) j).0 same in
      rw same (
        rw (sym home) (
          rw (e, member)
            (lookup-erase s.session_id i (insert s.session_id r z.sessions)
              ∙ rw (lookup-insert s.session_id i r z.sessions)
                  (without (int_eq s.session_id i) refl))))
]
  where
    without :
        (b : Bool)
        → int_eq s.session_id i ≡ b
        → (if b then none else (if b then some r else lookup i z.sessions)) ≡ lookup i z.sessions
    without true h =
        sym (ap (λ x. lookup x z.sessions) (sym ((int_eq_iff s.session_id i).0 h)) ∙ absent)
    without false h = refl

-- A session is put into a zone that exists, has room and does not hold its id: the zone then holds
-- it under its id, and the session names the zone. When it leaves again, every zone holds under
-- every id what it held before, and the session names no zone.
pub assign-leave :
    (zones : Zones) (s : Session) (r n : ℕ) (z : Zone) (zone_id session_id : ℤ)
    → get_zone zones (pos n) ≡ some z
    → length z.sessions < z.max_sessions
    → lookup s.session_id z.sessions ≡ none
    → let entered = assign_session_to_zone zones s r (pos n) in
      let left = leave_zone entered.0 entered.1 in
      (member entered.0 (pos n) s.session_id ≡ some r)
      × (entered.1.zone_id ≡ pos n)
      × (member left.0 zone_id session_id ≡ member zones zone_id session_id)
      × (left.1.zone_id ≡ minus_one)
unfolding remove_from_zone
assign-leave zones s r n z zone_id session_id e room absent =
    let enter = assign_enters zones s r n z e room absent in
    let entered = assign_session_to_zone zones s r (pos n) in
    let leave =
      leave_leaves (joined_zones zones s r n z) s n (joined_zone z s r)
        (lookup-insert_self (pos n) (joined_zone z s r) zones) in
    rw (enter, leave)
      (
        member-insert zones (pos n) (joined_zone z s r) (pos n) s.session_id
            ∙ rw (same_self (pos n)) (lookup-insert_self s.session_id r z.sessions),
        refl,
        member-insert (joined_zones zones s r n z) (pos n)
              (remove_from_zone (joined_zone z s r) s.session_id) zone_id session_id
            ∙ restored zones s r n z zone_id session_id e absent,
        refl,
      )
