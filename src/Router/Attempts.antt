-- ===== src/Router/Attempts.antt =====
-- The timer of one request in DBmwRouter.cpp: how often it is sent again, and when it is given up.
use server_application.Common.{
  ◌+◌, ◌≤◌, ◌<◌, ◌≡◌, refl, ap, ◌∙◌, Bool, true, false, none, some, List, [], ◌∷◌, arith, ltb,
  length, Text, text_key, lookup, insert, lookup-insert_self, lookup-erase, same_self,
}
use server_application.Json.{Json}
use server_application.Router.{Router, Pending, resolves, bump, fulfill_and_erase_locked}
use server_application.Router.Calls.{expire, expire_pending, timeout_error}
use server_application.Router.Moves.{send_now_locked-Keeps}

module _ {J : Type 0} (json : Json J) where
  -- The timer of a request expires again and again; each time the send function may throw.
  unfoldable pub expire_all : Router J → Text → List Bool → Router J
  expire_all r id [] = r
  expire_all r id (throws ∷ more) = expire_all (expire json throws r id).0 id more

  expire_again :
      (throws : Bool) (r : Router J) (id : Text) (p : Pending J)
      → lookup id r.pending ≡ some p
      → p.retries < p.max_retries
      → lookup id (expire json throws r id).0.pending ≡ some (record p { retries = p.retries + 1 })
  unfolding expire
  expire_again throws r id p e h =
      let more : ltb p.retries p.max_retries ≡ true = ground arith in
      let next : Pending J = record p { retries = p.retries + 1 } in
      let again : Router J = record r {
        pending = insert id next r.pending;
        metrics = record r.metrics { retried = bump r.metrics.retried };
      } in
      rw (e, expire)
        (rw (more, expire_pending)
          (ap (lookup id) (send_now_locked-Keeps throws again id).1
            ∙ lookup-insert_self id next r.pending))

  expire_last :
      (throws : Bool) (r : Router J) (id : Text) (p : Pending J)
      → lookup id r.pending ≡ some p
      → p.max_retries ≤ p.retries
      → (lookup id (expire json throws r id).0.pending ≡ none)
        × ((expire json throws r id).1 ≡ resolves id (timeout_error json id) ∷ [])
        × ((expire json throws r id).0.metrics.failed ≡ bump r.metrics.failed)
        × ((expire json throws r id).0.metrics.timed_out ≡ bump r.metrics.timed_out)
  unfolding expire expire_pending fulfill_and_erase_locked
  expire_last throws r id p e h =
      let over : ltb p.retries p.max_retries ≡ false = ground arith in
      rw (e, expire)
        (rw (over, expire_pending)
          (rw (e, fulfill_and_erase_locked)
            (lookup-erase id id r.pending ∙ rw (same_self id), refl, refl, refl)))

  -- A request that is never answered stays in the table, with its retries counted, while its timer
  -- expires as often as it has retries left; the next expiry gives it the timeout error as its
  -- result, counts it as timed out and failed, and takes it out of the table, whether or not the
  -- send function throws.
  pub unanswered_request_ends :
      (r : Router J) (id : Text) (p : Pending J) (throws : List Bool) (last : Bool)
      → lookup id r.pending ≡ some p
      → p.retries + length throws ≡ p.max_retries
      → let waiting = expire_all r id throws in
        let ended = expire json last waiting id in
        (lookup id waiting.pending ≡ some (record p { retries = p.max_retries }))
        × (lookup id ended.0.pending ≡ none)
        × (ended.1 ≡ resolves id (timeout_error json id) ∷ [])
        × (ended.0.metrics.failed ≡ bump waiting.metrics.failed)
        × (ended.0.metrics.timed_out ≡ bump waiting.metrics.timed_out)
  unfolding expire_all
  unanswered_request_ends r id p [] last e h =
      let all : p.retries ≡ p.max_retries = omega arith in
      let waits : lookup id r.pending ≡ some (record p { retries = p.max_retries }) =
        e ∙ ap (λ n. some (record p { retries = n })) all in
      let end = expire_last last r id p e (omega arith) in (waits, end.0, end.1, end.2, end.3)
  unanswered_request_ends r id p (throws ∷ more) last e h =
      unanswered_request_ends (expire json throws r id).0 id (record p { retries = p.retries + 1 })
        more last (expire_again throws r id p e (omega arith)) (omega arith)
