-- ===== src/Router/Moves.antt =====
-- What one operation of DBmwRouter.cpp does to the requests that wait: none comes or goes, one comes, or
-- one is given its result and goes.
use server_application.Common.{
  ltb, ℕ, suc, ◌+◌, ◌<◌, ◌≡◌, refl, ap, ◌∙◌, Bool, true, false, some, List, [], ◌∷◌, ◌++◌, arith,
  if◌then◌else◌, length, Text, text_eq, text_key, lookup, insert, Bool-cases, Option-cases, inl,
  inr, ◌⊎◌, present, present-insert_new, present-insert_old, present-erase, length-erase,
  length-insert, lookup_absent, found_key,
}
use server_application.Json.{Json}
use server_application.Router.{
  Router, Pending, Metrics, Effect, bump, emplace, send_now_locked, send_pending, start_request,
  fulfill_and_erase_locked, count_end, send_pending, arm_timeout_locked, resolves, sends, calls_ok,
  calls_error, schedules_retry, arms, calls_handler, marks_authed, notes_heartbeat_ack,
}
use server_application.Router.Calls.{
  expire, answer_request, expire_pending, callback, timeout_error,
}

-- How often a request was given its result.
unfoldable pub results : {J : Type 0} → Text → List (Effect J) → ℕ
results id [] = 0
results id (resolves other j ∷ es) = (if text_eq other id then 1 else 0) + results id es
results id (_ ∷ es) = results id es

pub results-append :
    {J : Type 0} (id : Text) (xs ys : List (Effect J))
    → results id (xs ++ ys) ≡ results id xs + results id ys
unfolding results
results-append id [] ys = omega arith
results-append id (resolves other j ∷ xs) ys = ground (arith, results-append id xs ys)
results-append id (sends b j ∷ xs) ys = results-append id xs ys
results-append id (arms t n ∷ xs) ys = results-append id xs ys
results-append id (schedules_retry t ∷ xs) ys = results-append id xs ys
results-append id (calls_ok t j ∷ xs) ys = results-append id xs ys
results-append id (calls_error t j ∷ xs) ys = results-append id xs ys
results-append id (calls_handler t j ∷ xs) ys = results-append id xs ys
results-append id (marks_authed ∷ xs) ys = results-append id xs ys
results-append id (notes_heartbeat_ack ∷ xs) ys = results-append id xs ys

count_end_cases :
    (success : Bool) (m : Metrics)
    → (((count_end success m).ok ≡ bump m.ok) × ((count_end success m).failed ≡ m.failed))
      ⊎ (((count_end success m).ok ≡ m.ok) × ((count_end success m).failed ≡ bump m.failed))
count_end_cases true m = inl (refl, refl)
count_end_cases false m = inr (refl, refl)

module _ {J : Type 0} where
  -- The number of requests that wait for an answer or have ended.
  unfoldable pub accounted : Router J → ℕ
  accounted r = r.metrics.ok + r.metrics.failed + length r.pending

  -- A part of a step in which no request comes or goes.
  unfoldable pub Keeps : Router J → Router J → List (Effect J) → Type 0
  Keeps r r' es =
      ((id : Text) → present id r'.pending ≡ present id r.pending)
      × (length r'.pending ≡ length r.pending)
      × (r'.metrics.ok ≡ r.metrics.ok)
      × (r'.metrics.failed ≡ r.metrics.failed)
      × (r'.req_seq ≡ r.req_seq)
      × (r'.pid ≡ r.pid)
      × ((id : Text) → results id es ≡ 0)

  pub send_now_locked-Keeps :
      (throws : Bool) (r : Router J) (id : Text)
      → Keeps r (send_now_locked throws r id).0 (send_now_locked throws r id).1
        × ((send_now_locked throws r id).0.pending ≡ r.pending)
  unfolding Keeps send_now_locked send_pending results
  send_now_locked-Keeps throws r id = ground arith

  -- A request is put in the table and sent.
  unfoldable pub Opens : Text → Router J → Router J → List (Effect J) → Type 0
  Opens id r r' es =
      ((j : Text) → present j r'.pending ≡ (if text_eq id j then 1 else present j r.pending))
      × (length r'.pending ≡ suc (length r.pending))
      × (r'.metrics.ok ≡ r.metrics.ok)
      × (r'.metrics.failed ≡ r.metrics.failed)
      × (r'.req_seq ≡ r.req_seq)
      × (r'.pid ≡ r.pid)
      × ((j : Text) → results j es ≡ 0)

  -- A request gets its result and leaves the table.
  unfoldable pub Closes : Text → Router J → Router J → List (Effect J) → Type 0
  Closes id r r' es =
      (0 < present id r.pending)
      × ((j : Text) → present j r'.pending ≡ (if text_eq id j then 0 else present j r.pending))
      × (length r'.pending + present id r.pending ≡ length r.pending)
      × ((r'.metrics.ok ≡ bump r.metrics.ok) × (r'.metrics.failed ≡ r.metrics.failed)
          ⊎ ((r'.metrics.ok ≡ r.metrics.ok) × (r'.metrics.failed ≡ bump r.metrics.failed)))
      × (r'.req_seq ≡ r.req_seq)
      × (r'.pid ≡ r.pid)
      × ((j : Text) → results j es ≡ (if text_eq id j then 1 else 0))

  results-arm : (r : Router J) (id j : Text) → results j (arm_timeout_locked r id) ≡ 0
  unfolding arm_timeout_locked results
  results-arm r id j = ground arith

  pub start_request-Opens :
      (throws : Bool) (r : Router J) (id : Text) (p : Pending J)
      → present id r.pending ≡ 0
      → Opens id r (start_request throws r id p).0 (start_request throws r id p).1
  unfolding Opens Keeps start_request
  start_request-Opens throws r id p h =
      let opened : Router J = record r { pending = emplace id p r.pending } in
      let absent = lookup_absent id r.pending h in
      let table : emplace id p r.pending ≡ insert id p r.pending = rw (absent, emplace) in
      let (k, _) = send_now_locked-Keeps throws opened id in
      (
        λ j. k.0 j ∙ ap (present j) table ∙ present-insert_new id j p r.pending h,
        k.1 ∙ ap length table ∙ length-insert id p r.pending absent,
        k.2,
        k.3,
        k.4,
        k.5,
        λ j.
            results-append j (send_now_locked throws opened id).1
              (arm_timeout_locked (send_now_locked throws opened id).0 id)
            ∙ omega (arith, k.6 j, results-arm (send_now_locked throws opened id).0 id j),
      )

  fulfill-Closes :
      (r : Router J) (id : Text) (j : J) (success : Bool) (p : Pending J)
      → lookup id r.pending ≡ some p
      → Closes id r
          (fulfill_and_erase_locked r id j success).0
          (fulfill_and_erase_locked r id j success).1
  unfolding Closes fulfill_and_erase_locked results
  fulfill-Closes r id j success p e =
      rw (e, fulfill_and_erase_locked)
        (
          found_key id p r.pending e,
          λ k. present-erase id k r.pending,
          length-erase id r.pending,
          count_end_cases success r.metrics,
          refl,
          refl,
          λ k. omega arith,
        )

  pub data Move (r r' : Router J) (es : List (Effect J)) : Type 0 where
    keeps : Keeps r r' es → Move r r' es
    closes : (id : Text) → Closes id r r' es → Move r r' es

  nothing-Move : (r : Router J) → Move r r []
  unfolding Keeps results
  nothing-Move r = keeps (λ id. refl, refl, refl, refl, refl, refl, λ id. refl)

  callback-results :
      (id j : Text) (answer : J) (ok : Bool) (p : Pending J)
      → results j (callback id answer ok p) ≡ 0
  unfolding callback results
  callback-results id j answer ok p = ground arith

  pub answer_request-Move :
      (json : Json J) (r : Router J) (id : Text) (answer : J) (ok : Bool)
      → Move r (answer_request json r id answer ok).0 (answer_request json r id answer ok).1
  unfolding answer_request Closes
  answer_request-Move json r id answer ok = elim (Option-cases (lookup id r.pending)) [
    | inl e ↦ rw (e, answer_request) (nothing-Move r)
    | inr (p, e) ↦
        let c = fulfill-Closes r id answer ok p e in
        let effects = (fulfill_and_erase_locked r id answer ok).1 in
        rw (e, answer_request)
          (closes id (
            c.0,
            c.1,
            c.2,
            c.3,
            c.4,
            c.5,
            λ j.
                results-append j effects (callback id answer ok p)
                ∙ omega (arith, c.6 j, callback-results id j answer ok p),
          ))
  ]

  expire_pending-Move :
      (json : Json J) (throws : Bool) (r : Router J) (id : Text) (p : Pending J)
      → lookup id r.pending ≡ some p
      → Move r (expire_pending json throws r id p).0 (expire_pending json throws r id p).1
  unfolding expire_pending Keeps Closes
  expire_pending-Move json throws r id p e = elim (Bool-cases (ltb p.retries p.max_retries)) [
    | inl more ↦
        let again : Router J = record r {
          pending = insert id (record p { retries = p.retries + 1 }) r.pending;
          metrics = record r.metrics { retried = bump r.metrics.retried };
        } in
        let sent = send_now_locked throws again id in
        let (k, _) = send_now_locked-Keeps throws again id in
        let next : Pending J = record p { retries = p.retries + 1 } in
        let old : (j : Text)
            → (present j (insert id next r.pending) ≡ present j r.pending)
              × (length (insert id next r.pending) ≡ length r.pending) =
          λ j. present-insert_old id j next p r.pending e in
        rw (more, expire_pending)
          (keeps (
            λ j. k.0 j ∙ (old j).0,
            k.1 ∙ (old id).1,
            k.2,
            k.3,
            k.4,
            k.5,
            λ j.
                results-append j sent.1 (arm_timeout_locked sent.0 id)
                ∙ omega (arith, k.6 j, results-arm sent.0 id j),
          ))
    | inr over ↦
        let late : Router J = record r {
          metrics = record r.metrics { timed_out = bump r.metrics.timed_out };
        } in
        let c = fulfill-Closes late id (timeout_error json id) false p e in
        rw (over, expire_pending) (closes id c)
  ]

  pub expire-Move :
      (json : Json J) (throws : Bool) (r : Router J) (id : Text)
      → Move r (expire json throws r id).0 (expire json throws r id).1
  unfolding expire
  expire-Move json throws r id = elim (Option-cases (lookup id r.pending)) [
    | inl e ↦ rw (e, expire) (nothing-Move r)
    | inr (p, e) ↦ rw (e, expire) (expire_pending-Move json throws r id p e)
  ]
