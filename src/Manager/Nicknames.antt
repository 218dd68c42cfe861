-- ===== src/Manager/Nicknames.antt =====
-- The nicknames of SessionManager.cpp: who is found after a login, what a sweep of expired entries
-- leaves, and the mutex that unregister_nickname takes twice.
use server_application.Common.{
  ℕ, ◌≡◌, refl, ap, Bool, true, false, Option, none, some, [], ◌∷◌, arith, if◌then◌else◌, Text,
  text_eq, text_key, Map, lookup, lookup-insert, select, has_key, entry_of, Bool-cases, inl, inr,
  All,
}
use server_application.Manager.{
  Locking, register_nickname, unregister_nickname, cleanup_expired_nicknames,
  find_session_by_nickname, lock_weak, other_than, without_expired, under_nickname_mutex,
}

unfoldable pub answer : {A : Type 0} → Option (A × Bool × Map Text ℕ) → Option A
answer none = none
answer (some (a, held, index)) = some a

-- One operation after another.
unfoldable pub followed_by : {A B : Type 0} → Locking A → Locking B → Locking B
followed_by f g held index = elim (f held index) [
  | none ↦ none
  | some (a, held, index) ↦ g held index
]

-- With nickname_mutex_ free, register_nickname closes the session that the nickname finds, unless
-- that is the session itself; afterwards the nickname finds the session (if it still exists), and
-- every other nickname finds what it found before.
register_nickname_takes_over :
    (alive : ℕ → Bool) (name other : Text) (r : ℕ) (index : Map Text ℕ) (holder : Option ℕ)
    → answer (find_session_by_nickname alive name false index) ≡ some holder
    → (answer (register_nickname alive name r false index) ≡ some (other_than r holder))
      × (answer (
            followed_by
              (register_nickname alive name r)
              (find_session_by_nickname alive other)
              false
              index)
          ≡ (if text_eq name other
              then some (lock_weak alive (some r))
              else answer (find_session_by_nickname alive other false index)))
unfolding answer followed_by find_session_by_nickname register_nickname under_nickname_mutex
register_nickname_takes_over alive name other r index holder h =
    (ground arith, rw (lookup-insert name other r index) (ground arith))

-- Whatever the nicknames, and whether nickname_mutex_ is free or held by the caller,
-- unregister_nickname never returns: it takes the mutex, and cleanup_expired_nicknames, which it
-- calls at its end, takes it again.
pub unregister_nickname_never_returns :
    (alive : ℕ → Bool) (name : Text) (r : ℕ) (held : Bool) (index : Map Text ℕ)
    → unregister_nickname alive name r held index ≡ none
unfolding unregister_nickname cleanup_expired_nicknames under_nickname_mutex
unregister_nickname_never_returns alive name r true index = refl
unregister_nickname_never_returns alive name r false index = refl

absent_entry :
    (name : Text) (index : Map Text ℕ) → select (has_key name) index ≡ [] → lookup name index ≡ none
unfolding lookup
absent_entry name [] h = refl
absent_entry name ((other, r) ∷ index) h = ground (arith, absent_entry name index)

lock_twice :
    (alive : ℕ → Bool) (o : Option ℕ) → lock_weak alive (lock_weak alive o) ≡ lock_weak alive o
unfolding lock_weak
lock_twice alive none = refl
lock_twice alive (some r) = ground arith

without_expired-All :
    (alive : ℕ → Bool) (index : Map Text ℕ)
    → All (λ e. alive (e.1) ≡ true) (without_expired alive index)
unfolding without_expired
without_expired-All alive [] = tt
without_expired-All alive ((name, r) ∷ index) = elim (Bool-cases (alive r)) [
  | inl e ↦ rw e (e, without_expired-All alive index)
  | inr e ↦ rw e (without_expired-All alive index)
]

lookup-without_expired :
    (alive : ℕ → Bool) (name : Text) (index : Map Text ℕ)
    → select (has_key name) index ≡ entry_of name (lookup name index)
    → lookup name (without_expired alive index) ≡ lock_weak alive (lookup name index)
unfolding lookup without_expired lock_weak entry_of
lookup-without_expired alive name [] h = refl
lookup-without_expired alive name ((other, r) ∷ index) h =
    ground (arith, lookup-without_expired alive name index, absent_entry name index)

-- With nickname_mutex_ free, cleanup_expired_nicknames returns and leaves it free; no entry of an
-- expired session is left, and each nickname that stands at most once in the index finds what it
-- found before.
cleanup_expired_nicknames_keeps :
    (alive : ℕ → Bool) (name : Text) (index : Map Text ℕ)
    → select (has_key name) index ≡ entry_of name (lookup name index)
    → (answer (cleanup_expired_nicknames alive false index) ≡ some tt)
      × (answer (
            followed_by
              (cleanup_expired_nicknames alive)
              (find_session_by_nickname alive name)
              false
              index)
          ≡ answer (find_session_by_nickname alive name false index))
      × All (λ e. alive (e.1) ≡ true) (without_expired alive index)
unfolding answer followed_by find_session_by_nickname cleanup_expired_nicknames under_nickname_mutex
cleanup_expired_nicknames_keeps alive name index h = (
  refl,
  rw (lookup-without_expired alive name index h) (ap some (lock_twice alive (lookup name index))),
  without_expired-All alive index,
)
