-- ===== src/Manager/Visits.antt =====
-- for_each_session and session_count of SessionManager.cpp: each session in the tables, once.
use server_application.Common.{
  ℕ, zero, suc, ◌+◌, ◌<◌, ◌≡◌, ◌≢◌, refl, sym, ap, ◌∙◌, Bool, true, false, List, [], ◌∷◌, arith,
  ◌==◌, length, length-append, get_elem?, get_elem?-set_self, get_elem?-set_ne, length-append,
  select, ℤ, int_eq, int_eq_iff, int_key, lookup, insert, erase, lookup-insert, lookup-erase,
  Bool-cases, inl, inr, append-nil, has_key, entry_of, select-append, select-insert_other,
  select-insert_self, select-erase, same_self,
}
use server_application.Manager.{
  Manager, Bucket, get_shard, bucket_of, put_bucket, bucket_or_empty, find_session, add_session,
  remove_session, new_buckets, new_manager, flatten, refs, copied, for_each_session, total,
  session_count,
}
use server_application.Manager.Shards.{
  Op, add, remove, length-new_buckets, bucket_of-new, bucket_of-shard, perform, perform_all,
  get_shard-lt, bucket_of-put_bucket, length-put_bucket,
}

-- Every entry stands once, in the shard of its id.
Placed : List Bucket → Type 0
Placed buckets =
    (j : ℤ)
    → (select (has_key j) (bucket_of buckets j) ≡ entry_of j (lookup j (bucket_of buckets j)))
      × ((i : ℕ)
          → i ≢ get_shard (length buckets) j
          → select (has_key j) (bucket_or_empty (get_elem? buckets i)) ≡ [])

select_nowhere :
    (p : ℤ × ℕ → Bool) (buckets : List Bucket)
    → ((i : ℕ) → select p (bucket_or_empty (get_elem? buckets i)) ≡ [])
    → select p (flatten buckets) ≡ []
unfolding flatten
select_nowhere p [] h = refl
select_nowhere p (b ∷ bs) h =
    rw (select-append p b (flatten bs), h 0, select_nowhere p bs (λ i. h (suc i)))

-- Entries of one table only.
select_one_bucket :
    (p : ℤ × ℕ → Bool) (buckets : List Bucket) (k : ℕ)
    → k < length buckets
    → ((i : ℕ) → i ≢ k → select p (bucket_or_empty (get_elem? buckets i)) ≡ [])
    → select p (flatten buckets) ≡ select p (bucket_or_empty (get_elem? buckets k))
unfolding flatten
select_one_bucket p [] k h e = absurd (omega arith)
select_one_bucket p (b ∷ bs) zero h e =
    rw (select-append p b (flatten bs), select_nowhere p bs (λ i. e (suc i) (ground arith)))
      (append-nil _)
select_one_bucket p (b ∷ bs) (suc k) h e =
    rw (select-append p b (flatten bs), e 0 (ground arith))
      (select_one_bucket p bs k (omega arith) (λ i n. e (suc i) (ground arith)))

-- A table in which one id was written.
Written : ℤ → Bucket → Bucket → ℤ → Type 0
Written id old b j =
    (int_eq id j ≡ true → select (has_key j) b ≡ entry_of j (lookup j b))
    × (int_eq id j ≡ false
        → (select (has_key j) b ≡ select (has_key j) old) × (lookup j b ≡ lookup j old))

put_bucket-Placed_home :
    (buckets : List Bucket) (id j : ℤ) (b : Bucket)
    → 0 < length buckets
    → Placed buckets
    → Written id (bucket_of buckets id) b j
    → select (has_key j) (bucket_of (put_bucket buckets id b) j)
      ≡ entry_of j (lookup j (bucket_of (put_bucket buckets id b) j))
unfolding Placed Written
put_bucket-Placed_home buckets id j b h p w =
    rw (bucket_of-put_bucket buckets id j b h)
      (elim (Bool-cases (get_shard (length buckets) id == get_shard (length buckets) j)) [
        | inr e ↦ rw e ((p j).0)
        | inl e ↦ rw e (elim (Bool-cases (int_eq id j)) [
          | inl same ↦ w.0 same
          | inr other ↦
              rw ((w.1 other).0, (w.1 other).1, bucket_of-shard buckets id j (ground arith))
                ((p j).0)
        ])
      ])

put_bucket-Placed_away :
    (buckets : List Bucket) (id j : ℤ) (b : Bucket) (i : ℕ)
    → 0 < length buckets
    → Placed buckets
    → Written id (bucket_of buckets id) b j
    → i ≢ get_shard (length buckets) j
    → select (has_key j) (bucket_or_empty (get_elem? (put_bucket buckets id b) i)) ≡ []
unfolding Placed Written put_bucket bucket_of
put_bucket-Placed_away buckets id j b i h p w n =
    elim (Bool-cases (get_shard (length buckets) id == i)) [
      | inr e ↦
          rw (get_elem?-set_ne buckets (get_shard (length buckets) id) i b (ground arith))
            ((p j).1 i n)
      | inl e ↦
          let at : get_shard (length buckets) id ≡ i = ground arith in
          rw
            (
              sym at,
              get_elem?-set_self buckets (get_shard (length buckets) id) b (get_shard-lt _ id h),
            )
            (elim (Bool-cases (int_eq id j)) [
              | inl same ↦
                  absurd (n (sym at ∙ ap (get_shard (length buckets)) ((int_eq_iff id j).0 same)))
              | inr other ↦ (w.1 other).0 ∙ (p j).1 _ (rw at n)
            ])
    ]

put_bucket-Placed :
    (buckets : List Bucket) (id : ℤ) (b : Bucket)
    → 0 < length buckets
    → Placed buckets
    → ((j : ℤ) → Written id (bucket_of buckets id) b j)
    → Placed (put_bucket buckets id b)
unfolding Placed
put_bucket-Placed buckets id b h p w = λ j. (
  put_bucket-Placed_home buckets id j b h p (w j),
  λ i n.
      put_bucket-Placed_away buckets id j b i h p (w j)
        (λ e. n (rw (length-put_bucket buckets id b) e)),
)

insert-Written :
    (id j : ℤ) (r : ℕ) (b : Bucket)
    → select (has_key id) b ≡ entry_of id (lookup id b)
    → Written id b (insert id r b) j
unfolding Written entry_of
insert-Written id j r b h = (
  λ same.
      rw (sym ((int_eq_iff id j).0 same))
        (rw (select-insert_self id r b h, lookup-insert id id r b, same_self id)),
  λ other. (select-insert_other id j r b other, rw (lookup-insert id j r b, other)),
)

erase-Written : (id j : ℤ) (b : Bucket) → Written id b (erase id b) j
unfolding Written entry_of
erase-Written id j b = (
  λ same. rw (select-erase id j b, lookup-erase id j b, same),
  λ other. (rw (select-erase id j b, other), rw (lookup-erase id j b, other)),
)

module _ (generation : ℕ → ℕ) (is_closed : ℕ → Bool) where
  Sound : Manager → Type 0
  Sound m = (0 < length m.buckets) × Placed m.buckets

  perform-Sound : (op : Op) (m : Manager) → Sound m → Sound (perform generation is_closed op m).0
  unfolding Sound Placed perform add_session remove_session
  perform-Sound (add id r) m h =
      let old = bucket_of m.buckets id in
      (
        rw (length-put_bucket m.buckets id (insert id r old)) (h.0),
        put_bucket-Placed m.buckets id _ (h.0) (h.1) (λ j. insert-Written id j r old ((h.1 id).0)),
      )
  perform-Sound (remove id) m h =
      let old = bucket_of m.buckets id in
      (
        rw (length-put_bucket m.buckets id (erase id old)) (h.0),
        put_bucket-Placed m.buckets id _ (h.0) (h.1) (λ j. erase-Written id j old),
      )

  perform_all-Sound :
      (ops : List Op) (m : Manager) → Sound m → Sound (perform_all generation is_closed ops m).0
  unfolding perform_all
  perform_all-Sound [] m h = h
  perform_all-Sound (op ∷ ops) m h = perform_all-Sound ops _ (perform-Sound op m h)

  new_manager-Sound : (n : ℕ) → 0 < n → Sound (new_manager n)
  unfolding Sound Placed new_manager bucket_of entry_of lookup
  new_manager-Sound n h = (
    rw (length-new_buckets n) h,
    λ j. (
      rw (bucket_of-new n (get_shard (length (new_buckets n)) j)),
      λ i _. rw (bucket_of-new n i),
    ),
  )

length-refs : (es : List (ℤ × ℕ)) → length (refs es) ≡ length es
unfolding refs
length-refs [] = refl
length-refs (e ∷ es) = ap suc (length-refs es)

length-flatten : (buckets : List Bucket) → length (flatten buckets) ≡ total buckets
unfolding flatten total
length-flatten [] = refl
length-flatten (b ∷ bs) = length-append b (flatten bs) ∙ ap (λ n. length b + n) (length-flatten bs)

-- After any sequence of add_session and remove_session calls on a new manager with a shard,
-- for_each_session copies each id exactly once if find_session finds it, with the session that it
-- finds, and not at all otherwise; and it calls its argument session_count times.
pub for_each_session_once :
    (generation : ℕ → ℕ) (is_closed : ℕ → Bool) (shard_count : ℕ) (ops : List Op) (id : ℤ)
    → 0 < shard_count
    → (select
          (has_key id)
          (copied (perform_all generation is_closed ops (new_manager shard_count)).0)
        ≡ entry_of id
            (find_session (perform_all generation is_closed ops (new_manager shard_count)).0 id))
      × (length
            (for_each_session (perform_all generation is_closed ops (new_manager shard_count)).0)
          ≡ session_count (perform_all generation is_closed ops (new_manager shard_count)).0)
unfolding Sound Placed copied for_each_session session_count find_session bucket_of
for_each_session_once generation is_closed n ops id h =
    let m = (perform_all generation is_closed ops (new_manager n)).0 in
    let s =
      perform_all-Sound generation is_closed ops _ (new_manager-Sound generation is_closed n h) in
    (
      select_one_bucket (has_key id) m.buckets (get_shard (length m.buckets) id)
            (get_shard-lt _ id (s.0)) ((s.1 id).1)
          ∙ (s.1 id).0,
      length-refs (flatten m.buckets) ∙ length-flatten m.buckets,
    )
