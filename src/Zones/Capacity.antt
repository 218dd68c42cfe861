-- ===== src/Zones/Capacity.antt =====
-- A zone of Zone.cpp never holds more sessions than its maximum.
use server_application.Common.{
  ℕ, zero, suc, ◌≤◌, ◌≡◌, refl, sym, ◌∙◌, ap, Bool, true, false, Option, none, some, List, [], ◌∷◌,
  arith, if◌then◌else◌, length, ℤ, pos, int_eq, int_key, lookup, insert, is_nonneg, lookup-insert,
  length-insert, length-erase, Option-cases, inl, inr,
}
use server_application.Session.{Session}
use server_application.Zones.{
  Zone, Zones, new_zones, get_zone, add_to_zone, remove_from_zone, has_member, leave_zone,
  assign_session_to_zone,
}

-- What is asked of the zones; a session is given as it is at that time.
pub data Request : Type 0 where
  assigns : Session → ℕ → ℤ → Request
  leaves : Session → Request

unfoldable pub serve : Zones → Request → Zones
serve zones (assigns s r id) = (assign_session_to_zone zones s r id).0
serve zones (leaves s) = (leave_zone zones s).0

unfoldable pub serve_all : Zones → List Request → Zones
serve_all zones [] = zones
serve_all zones (q ∷ qs) = serve_all (serve zones q) qs

value_or : (Zone → ℕ) → Option Zone → ℕ
value_or f none = 0
value_or f (some z) = f z

some_field : (f : Zone → ℕ) {z y : Zone} → some z ≡ some y → f z ≡ f y
unfolding value_or
some_field f e = ap (value_or f) e

Within : ℕ → Zones → Type 0
Within n zones =
    (id : ℤ) (z : Zone) → lookup id zones ≡ some z → (z.max_sessions ≡ n) × (length z.sessions ≤ n)

Within-at :
    (n : ℕ) (zones : Zones) (id : ℤ) (z : Zone)
    → Within n zones
    → lookup id zones ≡ some z
    → (z.max_sessions ≡ n) × (length z.sessions ≤ n)
unfolding Within
Within-at n zones id z w e = w id z e

-- A zone found behind one that is within its maximum, or that one itself.
found-Within :
    (n : ℕ) (zones : Zones) (z : Zone) (same : Bool) (j : ℤ) (y : Zone)
    → Within n zones
    → z.max_sessions ≡ n
    → length z.sessions ≤ n
    → (if same then some z else lookup j zones) ≡ some y
    → (y.max_sessions ≡ n) × (length y.sessions ≤ n)
unfolding Within
found-Within n zones z true j y w m l e =
    let max : z.max_sessions ≡ y.max_sessions = some_field (λ x. x.max_sessions) e in
    let count : length z.sessions ≡ length y.sessions = some_field (λ x. length x.sessions) e in
    (omega arith, omega arith)
found-Within n zones z false j y w m l e = w j y e

insert-Within :
    (n : ℕ) (zones : Zones) (id : ℤ) (z : Zone)
    → Within n zones
    → z.max_sessions ≡ n
    → length z.sessions ≤ n
    → Within n (insert id z zones)
unfolding Within
insert-Within n zones id z w m l =
    λ j y e. found-Within n zones z (int_eq id j) j y w m l (sym (lookup-insert id j z zones) ∙ e)

add_to_zone-bounds :
    (z : Zone) (id : ℤ) (r : ℕ)
    → length z.sessions ≤ z.max_sessions
    → ((add_to_zone z id r).0.max_sessions ≡ z.max_sessions)
      × (length (add_to_zone z id r).0.sessions ≤ z.max_sessions)
unfolding add_to_zone has_member
add_to_zone-bounds z id r h = ground (arith, length-insert id r z.sessions)

remove_from_zone-bounds :
    (z : Zone) (id : ℤ)
    → length z.sessions ≤ z.max_sessions
    → ((remove_from_zone z id).max_sessions ≡ z.max_sessions)
      × (length (remove_from_zone z id).sessions ≤ z.max_sessions)
unfolding remove_from_zone
remove_from_zone-bounds z id h = (refl, omega (arith, length-erase id z.sessions))

choose-Within :
    (n : ℕ) (b : Bool) (x y : Zones × Session)
    → Within n x.0
    → Within n y.0
    → Within n (if b then x else y).0
choose-Within n true x y p q = p
choose-Within n false x y p q = q

assign-Within :
    (n : ℕ) (zones : Zones) (s : Session) (r : ℕ) (id : ℤ)
    → Within n zones
    → Within n (assign_session_to_zone zones s r id).0
unfolding assign_session_to_zone get_zone
assign-Within n zones s r id w = elim (Option-cases (lookup id zones)) [
  | inl e ↦ rw (e, assign_session_to_zone) w
  | inr (z, e) ↦
      let old = Within-at n zones id z w e in
      let new = add_to_zone-bounds z s.session_id r (omega (arith, old.0, old.1)) in
      rw (e, assign_session_to_zone)
        (choose-Within n (add_to_zone z s.session_id r).1 _ _
          (insert-Within n zones id (add_to_zone z s.session_id r).0 w (new.0 ∙ old.0)
            (omega (arith, new.1, old.0)))
          w)
]

leave-Within :
    (n : ℕ) (zones : Zones) (s : Session) → Within n zones → Within n (leave_zone zones s).0
unfolding leave_zone get_zone
leave-Within n zones s w = elim (Option-cases (lookup s.zone_id zones)) [
  | inl e ↦ rw (e, leave_zone) (choose-Within n (is_nonneg s.zone_id) _ _ w w)
  | inr (z, e) ↦
      let old = Within-at n zones s.zone_id z w e in
      let new = remove_from_zone-bounds z s.session_id (omega (arith, old.0, old.1)) in
      rw (e, leave_zone)
        (choose-Within n (is_nonneg s.zone_id) _ _
          (insert-Within n zones s.zone_id (remove_from_zone z s.session_id) w (new.0 ∙ old.0)
            (omega (arith, new.1, old.0)))
          w)
]

serve_all-Within :
    (n : ℕ) (qs : List Request) (zones : Zones) → Within n zones → Within n (serve_all zones qs)
unfolding serve_all serve
serve_all-Within n [] zones w = w
serve_all-Within n (assigns s r id ∷ qs) zones w =
    serve_all-Within n qs _ (assign-Within n zones s r id w)
serve_all-Within n (leaves s ∷ qs) zones w = serve_all-Within n qs _ (leave-Within n zones s w)

new_zones-Within : (count n : ℕ) → Within n (new_zones count n)
unfolding new_zones Within lookup
new_zones-Within zero n = λ id z e. absurd (ground arith)
new_zones-Within (suc count) n = λ id z e.
    found-Within n (new_zones count n)
      (record { max_sessions = n; zone_id = pos (suc count); sessions = [] })
      (int_eq (pos (suc count)) id) id z (new_zones-Within count n) refl (omega arith) e

-- In any history of sessions that are put into zones and taken out, no zone ever holds more sessions than
-- the maximum that the zones were made with.
pub zones_stay_within :
    (count max_sessions : ℕ) (qs : List Request) (id : ℤ) (z : Zone)
    → get_zone (serve_all (new_zones count max_sessions) qs) id ≡ some z
    → length z.sessions ≤ max_sessions
unfolding get_zone Within
zones_stay_within count n qs id z e = (serve_all-Within n qs _ (new_zones-Within count n) id z e).1
