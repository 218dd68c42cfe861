-- ===== src/Server/Books.antt =====
-- Where each session of the server is: free in the pool's queue, or in the manager under its own id.
use server_application.Common.{
  ℕ, zero, suc, ◌≤◌, ◌<◌, ◌≡◌, ◌⊎◌, inl, inr, refl, sym, subst, ap, ◌∙◌, Bool, true, false, ◌&&◌,
  Option, none, some, List, [], ◌∷◌, arith, ltb, ◌==◌, if◌then◌else◌, length, ℤ, pos, negsuc,
  Bool-cases,
}
use server_application.Session.{Session}
use server_application.Pool.{modify, contains}
use server_application.Pool.Leases.{count, length-modify}
use server_application.Manager.{find_session}
use server_application.Server.{ServerState, get_session, session_of, on_session}

-- The ids of the connections so far, and -1 for a session that never had one.
abbrev pub IsIssued : ℕ → ℤ → Type 0
IsIssued counter (pos k) = k < counter
IsIssued counter (negsuc k) = k ≡ 0

abbrev pub found : ServerState → ℤ → Option ℕ
found w id = find_session w.manager id

abbrev pub id_of : ServerState → ℕ → ℤ
id_of w r = (session_of w r).session_id

abbrev pub IsFree : ServerState → ℕ → Type 0
IsFree w r = (count r w.pool.reusable ≡ 1) × (found w (id_of w r) ≡ none)

abbrev pub IsHeld : ServerState → ℕ → Type 0
IsHeld w r = (count r w.pool.reusable ≡ 0) × (found w (id_of w r) ≡ some r)

-- Every session of the pool is either free or held, what the manager knows is known under its own
-- id, and no id is given twice.
pub record IsSound (w : ServerState) : Type 0 where
  pub shards : 0 < length w.manager.buckets
  pub partition : (r : ℕ) → r < length w.pool.sessions → IsFree w r ⊎ IsHeld w r
  pub outside : (r : ℕ) → length w.pool.sessions ≤ r → count r w.pool.reusable ≡ 0
  pub named :
      (id : ℤ) (r : ℕ) → found w id ≡ some r → (id_of w r ≡ id) × (r < length w.pool.sessions)
  pub waiting : (r : ℕ) → contains r w.pool.available ≡ true → count r w.pool.reusable ≡ 1
  pub issued : (r : ℕ) → IsIssued w.session_counter (id_of w r)

-- What an operation leaves alone that only works on sessions, on zones, on endpoints or on nicknames.
pub record Keeps (w w' : ServerState) : Type 0 where
  pub tables : length w'.manager.buckets ≡ length w.manager.buckets
  pub finds : (id : ℤ) → found w' id ≡ found w id
  pub reusable : w'.pool.reusable ≡ w.pool.reusable
  pub available : w'.pool.available ≡ w.pool.available
  pub counter : w'.session_counter ≡ w.session_counter
  pub size : length w'.pool.sessions ≡ length w.pool.sessions
  pub ids : (r : ℕ) → id_of w' r ≡ id_of w r

pub Keeps-refl : (w : ServerState) → Keeps w w
Keeps-refl w = record {
  tables = refl;
  finds = λ id. refl;
  reusable = refl;
  available = refl;
  counter = refl;
  size = refl;
  ids = λ r. refl;
}

pub Keeps-trans : {u v w : ServerState} → Keeps u v → Keeps v w → Keeps u w
Keeps-trans h k = record {
  tables = k.tables ∙ h.tables;
  finds = λ id. k.finds id ∙ h.finds id;
  reusable = k.reusable ∙ h.reusable;
  available = k.available ∙ h.available;
  counter = k.counter ∙ h.counter;
  size = k.size ∙ h.size;
  ids = λ r. k.ids r ∙ h.ids r;
}

pub Keeps-IsSound : {w w' : ServerState} → Keeps w w' → IsSound w → IsSound w'
Keeps-IsSound {w} {w'} k v = record {
  shards = ground (arith, v.shards, k.tables);
  partition =
      λ r h. rw (k.reusable, k.ids r, k.finds (id_of w r)) (v.partition r (omega (arith, k.size)));
  outside = λ r h. rw (k.reusable) (v.outside r (omega (arith, k.size)));
  named = λ id r h. rw (k.ids r, k.size) (v.named id r (sym (k.finds id) ∙ h));
  waiting = λ r h. ground (arith, k.reusable, k.available, v.waiting r);
  issued = λ r. rw (k.ids r, k.counter) (v.issued r);
}

-- One session is written.
pub get_session-modify :
    (i j : ℕ) (f : Session → Session) (ss : List Session)
    → get_session (modify i f ss) j
      ≡ (if (i == j) && ltb i (length ss) then f (get_session ss j) else get_session ss j)
unfolding modify
get_session-modify i j f [] = ground arith
get_session-modify zero zero f (s ∷ ss) = ground arith
get_session-modify zero (suc j) f (s ∷ ss) = ground arith
get_session-modify (suc i) zero f (s ∷ ss) = ground arith
get_session-modify (suc i) (suc j) f (s ∷ ss) = ground (arith, get_session-modify i j f ss)

pub id-choose :
    (b : Bool) (s t : Session) (id : ℤ)
    → s.session_id ≡ id
    → t.session_id ≡ id
    → (if b then s else t).session_id ≡ id
id-choose true s t id h k = h
id-choose false s t id h k = k

pub modify-ids :
    (r i : ℕ) (f : Session → Session) (ss : List Session)
    → (f (get_session ss r)).session_id ≡ (get_session ss r).session_id
    → (get_session (modify r f ss) i).session_id ≡ (get_session ss i).session_id
modify-ids r i f ss h =
    ap (λ (s : Session). s.session_id) (get_session-modify r i f ss) ∙ elim (Bool-cases (r == i)) [
      | inl e ↦
          let same : r ≡ i = ground arith in
          id-choose _ (f (get_session ss i)) (get_session ss i) (get_session ss i).session_id
            (subst (λ k. (f (get_session ss k)).session_id ≡ (get_session ss k).session_id) same h)
            refl
      | inr e ↦ rw e
    ]

-- A write of one session that keeps its id.
pub on_session-Keeps :
    (r : ℕ) (f : Session → Session) (w : ServerState)
    → (f (session_of w r)).session_id ≡ id_of w r
    → Keeps w (on_session r f w)
unfolding on_session
on_session-Keeps r f w h = record {
  tables = refl;
  finds = λ id. refl;
  reusable = refl;
  available = refl;
  counter = refl;
  size = length-modify r f w.pool.sessions;
  ids = λ i. modify-ids r i f w.pool.sessions h;
}
