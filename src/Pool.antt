-- ===== src/Pool.antt =====
-- SessionPool.cpp. A `shared_ptr<Session>` is the index of the session in `pool_`: every session is
-- made by the pool, and `pool_` never shrinks. `assert` is off (NDEBUG).
pub mod Leases
pub mod Reuse
use server_application.Common.{
  ℕ, zero, suc, ◌+◌, Bool, true, false, ◌||◌, Option, none, some, List, [], ◌∷◌, ◌++◌, ltb, leb,
  ◌==◌, if◌then◌else◌, length, ℤ, minus_one,
}
use server_application.Session.{
  Session, released, new_session, reset, cleanup, set_active, is_active,
}

pub record Pool : Type 0 where
  pub sessions : List Session
  pub reusable : List ℕ  -- the queue reusable_indices_
  pub available : List ℕ  -- the set available_index_set_
  pub max_size : ℕ

unfoldable pub contains : ℕ → List ℕ → Bool
contains i [] = false
contains i (x ∷ xs) = x == i || contains i xs

unfoldable pub discard : ℕ → List ℕ → List ℕ
discard i [] = []
discard i (x ∷ xs) = let rest = discard i xs in if x == i then rest else x ∷ rest

unfoldable pub modify : ℕ → (Session → Session) → List Session → List Session
modify i f [] = []
modify zero f (s ∷ ss) = f s ∷ ss
modify (suc i) f (s ∷ ss) = s ∷ modify i f ss

-- The constructor fills the queue and leaves the set empty.
unfoldable pub fill : ℕ → ℕ → Pool → Pool
unfolding new_session
fill zero now p = p
fill (suc n) now p =
    let rest = record p {
      sessions = p.sessions ++ new_session minus_one now ∷ [];
      reusable = p.reusable ++ length p.sessions ∷ [];
    } in
    fill n now rest

unfoldable pub new_pool : ℕ → ℕ → ℕ → Pool
unfolding fill
new_pool pool_size max_size now =
    fill pool_size now
      (record { sessions = []; reusable = []; available = []; max_size = max_size })

-- What acquire does to the session that it hands out.
unfoldable pub prepare : ℤ → ℕ → Session → Session
unfolding reset cleanup set_active
prepare id now s = let r = reset s id now in cleanup (record r { life = set_active true r.life })

-- `none` is the null pointer of a pool at its maximum.
unfoldable pub acquire : Pool → ℤ → ℕ → Pool × Option ℕ
acquire p id now = elim p.reusable [
  | [] ↦ if leb p.max_size (length p.sessions) then (p, none) else (
    record p { sessions = p.sessions ++ prepare id now (new_session minus_one now) ∷ [] },
    some (length p.sessions),
  )
  | idx ∷ rest ↦ (
    record p {
      reusable = rest;
      available = discard idx p.available;
      sessions = modify idx (prepare id now) p.sessions;
    },
    some idx,
  )
]

unfoldable pub retire : Session → Session
unfolding cleanup set_active
retire s = record (cleanup s) { life = set_active false released }

-- A session that is not in the pool and a second release are ignored.
unfoldable pub release : Pool → ℕ → Pool
release p idx =
    if ltb idx (length p.sessions)
    then (if contains idx p.available then p else record p {
      sessions = modify idx retire p.sessions;
      reusable = p.reusable ++ idx ∷ [];
      available = idx ∷ p.available;
    })
    else p

unfoldable pub count_active : List Session → ℕ
unfolding is_active
count_active [] = 0
count_active (s ∷ ss) = (if is_active s then 1 else 0) + count_active ss
