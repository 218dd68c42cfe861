-- ===== src/Manager/Shards.antt =====
-- The shards together are one map from ids to sessions, however many there are: the tables of
-- SessionManager.cpp against one association list.
use server_application.Common.{
  ℕ, zero, suc, ◌<◌, ◌≡◌, refl, sym, ap, ◌∙◌, Bool, true, Option, none, some, List, [], ◌∷◌, arith,
  ◌==◌, if◌then◌else◌, length, length-set, get_elem?, get_elem?-set_self, get_elem?-set_ne, ℤ, pos,
  negsuc, int_eq, int_eq_iff, int_key, Map, lookup, insert, erase, lookup-insert, lookup-erase,
  Bool-cases, inl, inr,
}
use server_application.Manager.{
  Manager, Bucket, get_shard, bucket_of, put_bucket, bucket_or_empty, find_session, add_session,
  remove_session, new_buckets, new_manager, replaced,
}

pub get_shard-lt : (c : ℕ) (id : ℤ) → 0 < c → get_shard c id < c
unfolding get_shard
get_shard-lt c (pos n) h = grind arith
get_shard-lt c (negsuc n) h = grind arith

pub bucket_of-put_bucket :
    (buckets : List Bucket) (id j : ℤ) (b : Bucket)
    → 0 < length buckets
    → bucket_of (put_bucket buckets id b) j ≡ (
        if get_shard (length buckets) id == get_shard (length buckets) j
        then b
        else bucket_of buckets j)
unfolding bucket_of put_bucket
bucket_of-put_bucket buckets id j b h =
    let i = get_shard (length buckets) id in
    let k = get_shard (length buckets) j in
    rw (length-set buckets i b) (elim (Bool-cases (i == k)) [
      | inl e ↦
          let same : i ≡ k = ground arith in
          rw e (
            rw (sym same)
              (ap bucket_or_empty (get_elem?-set_self buckets i b (get_shard-lt _ id h))))
      | inr e ↦ rw e (ap bucket_or_empty (get_elem?-set_ne buckets i k b (ground arith)))
    ])

pub length-put_bucket :
    (buckets : List Bucket) (id : ℤ) (b : Bucket)
    → length (put_bucket buckets id b) ≡ length buckets
unfolding put_bucket
length-put_bucket buckets id b = length-set buckets _ b

pub int_eq_self : (a : ℤ) → int_eq a a ≡ true
int_eq_self a = (int_eq_iff a a).1 refl

pub bucket_of-shard :
    (buckets : List Bucket) (id j : ℤ)
    → get_shard (length buckets) id ≡ get_shard (length buckets) j
    → bucket_of buckets id ≡ bucket_of buckets j
unfolding bucket_of
bucket_of-shard buckets id j e = ap (λ i. bucket_or_empty (get_elem? buckets i)) e

-- The tables after a write of one bucket that changes one key.
find-put :
    (buckets : List Bucket) (id j : ℤ) (b : Bucket) (o : Option ℕ)
    → 0 < length buckets
    → lookup j b ≡ (if int_eq id j then o else lookup j (bucket_of buckets id))
    → lookup j (bucket_of (put_bucket buckets id b) j)
      ≡ (if int_eq id j then o else lookup j (bucket_of buckets j))
find-put buckets id j b o h e =
    rw (bucket_of-put_bucket buckets id j b h) (elim (Bool-cases (int_eq id j)) [
      | inl same ↦
          let ids : id ≡ j = (int_eq_iff id j).0 same in
          let shards : (get_shard (length buckets) id == get_shard (length buckets) j) ≡ true =
            rw ids (ground arith) in
          rw (shards, same) (e ∙ rw same)
      | inr other ↦
          elim (Bool-cases (get_shard (length buckets) id == get_shard (length buckets) j)) [
            | inl shards ↦
                rw (shards, other) (e ∙ rw (other, bucket_of-shard buckets id j (ground arith)))
            | inr shards ↦ rw (shards, other)
          ]
    ])

pub find-add_session :
    (generation : ℕ → ℕ) (is_closed : ℕ → Bool) (m : Manager) (id j : ℤ) (r : ℕ)
    → 0 < length m.buckets
    → find_session (add_session generation is_closed m id r).0 j
      ≡ (if int_eq id j then some r else find_session m j)
unfolding find_session add_session
find-add_session generation is_closed m id j r h =
    find-put m.buckets id j (insert id r (bucket_of m.buckets id)) (some r) h
      (lookup-insert id j r _)

pub find-remove_session :
    (m : Manager) (id j : ℤ)
    → 0 < length m.buckets
    → find_session (remove_session m id).0 j ≡ (if int_eq id j then none else find_session m j)
unfolding find_session remove_session
find-remove_session m id j h =
    find-put m.buckets id j (erase id (bucket_of m.buckets id)) none h (lookup-erase id j _)

pub length-new_buckets : (n : ℕ) → length (new_buckets n) ≡ n
unfolding new_buckets
length-new_buckets zero = refl
length-new_buckets (suc n) = ap suc (length-new_buckets n)

pub bucket_of-new : (n i : ℕ) → bucket_or_empty (get_elem? (new_buckets n) i) ≡ []
unfolding new_buckets
bucket_of-new zero i = refl
bucket_of-new (suc n) zero = refl
bucket_of-new (suc n) (suc i) = bucket_of-new n i

-- What a client does: add_session and remove_session calls, and what each returns.
pub data Op : Type 0 where
  add : ℤ → ℕ → Op
  remove : ℤ → Op

module _ (generation : ℕ → ℕ) (is_closed : ℕ → Bool) where
  unfoldable pub perform : Op → Manager → Manager × Option ℕ
  perform (add id r) m = add_session generation is_closed m id r
  perform (remove id) m = remove_session m id

  unfoldable pub perform_all : List Op → Manager → Manager × List (Option ℕ)
  perform_all [] m = (m, [])
  perform_all (op ∷ ops) m =
      let step = perform op m in let rest = perform_all ops step.0 in (rest.0, step.1 ∷ rest.1)

  -- The same calls on one map.
  unfoldable pub specified : Op → Map ℤ ℕ → Map ℤ ℕ × Option ℕ
  specified (add id r) t = (insert id r t, replaced generation is_closed r (lookup id t))
  specified (remove id) t = (erase id t, lookup id t)

  unfoldable pub specified_all : List Op → Map ℤ ℕ → Map ℤ ℕ × List (Option ℕ)
  specified_all [] t = (t, [])
  specified_all (op ∷ ops) t =
      let step = specified op t in let rest = specified_all ops step.0 in (rest.0, step.1 ∷ rest.1)

  -- The manager has a shard, and finds what the map holds.
  Refines : Manager → Map ℤ ℕ → Type 0
  Refines m t = (0 < length m.buckets) × ((j : ℤ) → find_session m j ≡ lookup j t)

  perform-Refines :
      (op : Op) (m : Manager) (t : Map ℤ ℕ)
      → Refines m t
      → Refines (perform op m).0 (specified op t).0 × ((perform op m).1 ≡ (specified op t).1)
  unfolding Refines perform specified add_session find_session remove_session
  perform-Refines (add id r) m t h = (
    (
      rw (length-put_bucket m.buckets id (insert id r (bucket_of m.buckets id))) (h.0),
      λ j. rw (find-add_session generation is_closed m id j r (h.0), lookup-insert id j r t, h.1 j),
    ),
    ap (replaced generation is_closed r) (h.1 id),
  )
  perform-Refines (remove id) m t h = (
    (
      rw (length-put_bucket m.buckets id (erase id (bucket_of m.buckets id))) (h.0),
      λ j. rw (find-remove_session m id j (h.0), lookup-erase id j t, h.1 j),
    ),
    h.1 id,
  )

  perform_all-Refines :
      (ops : List Op) (m : Manager) (t : Map ℤ ℕ)
      → Refines m t
      → Refines (perform_all ops m).0 (specified_all ops t).0
        × ((perform_all ops m).1 ≡ (specified_all ops t).1)
  unfolding perform_all specified_all
  perform_all-Refines [] m t h = (h, refl)
  perform_all-Refines (op ∷ ops) m t h =
      let head = perform-Refines op m t h in
      let rest = perform_all-Refines ops _ _ (head.0) in (rest.0, rw (head.1, rest.1))

  new_manager-Refines : (shard_count : ℕ) → 0 < shard_count → Refines (new_manager shard_count) []
  unfolding Refines new_manager find_session bucket_of
  new_manager-Refines n h = (
    rw (length-new_buckets n) h,
    λ j. rw (bucket_of-new n (get_shard (length (new_buckets n)) j)),
  )

  -- A manager with any positive number of shards, after any sequence of add_session and
  -- remove_session calls from empty tables, has answered each call, and answers every find_session,
  -- as one map does that knows no shards.
  pub manager_refines_map :
      (shard_count : ℕ) (ops : List Op) (j : ℤ)
      → 0 < shard_count
      → (find_session (perform_all ops (new_manager shard_count)).0 j
          ≡ lookup j (specified_all ops []).0)
        × ((perform_all ops (new_manager shard_count)).1 ≡ (specified_all ops []).1)
  unfolding Refines
  manager_refines_map n ops j h =
      let r = perform_all-Refines ops _ _ (new_manager-Refines n h) in (r.0.1 j, r.1)
