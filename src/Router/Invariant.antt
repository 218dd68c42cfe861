-- ===== src/Router/Invariant.antt =====
-- The invariant of the requests of a DBmwRouter: an id stands for one request at most, which waits or has
-- ended.
use server_application.Common.{
  ℕ, suc, ◌+◌, ◌^◌, ◌≤◌, ◌<◌, ◌≡◌, refl, sym, ap, ◌∙◌, subst, Bool, true, false, List, ◌++◌, arith,
  if◌then◌else◌, Text, text_eq, text_key, ℤ, Bool-cases, inl, inr, ◌⊎◌, present,
}
use server_application.Router.RequestIds.{req_id_of-inj}
use server_application.Router.{Router, Pending, Effect, bump, start_request, make_req_id, req_id_of}
use server_application.Router.Moves.{
  results, results-append, Keeps, Opens, Closes, Move, keeps, closes, accounted,
  start_request-Opens,
}

abbrev pub Made : ℕ → ℕ → Text → Type 0
Made pid seq id = (s : ℤ) × (k : ℕ) × (k ≤ seq) × (id ≡ req_id_of pid s k)

-- After `n` events: an id stands for one request at most, and every request is waiting or has ended.
pub record Inv {J : Type 0} (r : Router J) (n requested : ℕ) (es : List (Effect J)) : Type 0 where
  pub once :
      (id : Text)
      → (results id es + present id r.pending ≡ 0)
        ⊎ ((results id es + present id r.pending ≡ 1) × Made r.pid r.req_seq id)
  pub numbered : r.req_seq ≤ n
  pub balance : accounted r ≡ requested
  pub bounded : requested ≤ n

close_once :
    {M : Type 0} (same : Bool) (a p : ℕ)
    → (same ≡ true → 0 < p)
    → (a + p ≡ 0) ⊎ ((a + p ≡ 1) × M)
    → (a + (if same then 1 else 0) + (if same then 0 else p) ≡ 0)
      ⊎ ((a + (if same then 1 else 0) + (if same then 0 else p) ≡ 1) × M)
close_once true a p h (inl e) = let q = h refl in absurd (omega arith)
close_once true a p h (inr (e, m)) = let q = h refl in inr (omega arith, m)
close_once false a p h (inl e) = inl (omega arith)
close_once false a p h (inr (e, m)) = inr (omega arith, m)

unnumbered : (pid seq : ℕ) (s : ℤ) → ¬ Made pid seq (req_id_of pid s (suc seq))
unnumbered pid seq s (t, k, h, e) =
    let same : suc seq ≡ k = req_id_of-inj pid s t (suc seq) k e in omega arith

Made-suc : (pid seq : ℕ) (id : Text) → Made pid seq id → Made pid (suc seq) id
Made-suc pid seq id (s, k, h, e) = (s, k, omega arith, e)

module _ {J : Type 0} where
  pub Keeps-Inv :
      (r r' : Router J) (n requested : ℕ) (es now : List (Effect J))
      → Keeps r r' now
      → Inv r n requested es
      → Inv r' n requested (es ++ now)
  unfolding Keeps accounted
  Keeps-Inv r r' n requested es now k v = record {
    once = λ id.
        rw (results-append id es now, k.0 id, k.6 id, k.5, k.4)
          (let e : results id es + 0 ≡ results id es = omega arith in rw e (v.once id));
    numbered = omega (arith, k.4, v.numbered);
    balance = omega (arith, k.1, k.2, k.3, v.balance);
    bounded = v.bounded;
  }

  Closes-Inv :
      (r r' : Router J) (id : Text) (n requested : ℕ) (es now : List (Effect J))
      → n < 2 ^ 64
      → Closes id r r' now
      → Inv r n requested es
      → Inv r' n requested (es ++ now)
  unfolding Closes accounted
  Closes-Inv r r' id n requested es now h c v = record {
    once = λ j.
        rw (results-append j es now, c.1 j, c.6 j, c.4, c.5)
          (close_once (text_eq id j) _ _
            (λ e. subst (λ x. 0 < present x r.pending) ((text_key.same_iff id j).0 e) (c.0))
            (v.once j));
    numbered = omega (arith, c.4, v.numbered);
    balance = elim (v.once id) [
      | inl none_yet ↦ absurd (omega (arith, c.0))
      | inr (one, _) ↦ elim (c.3) [
        | inl (good, bad) ↦ omega (arith, good, bad, one, c.0, c.2, v.balance, v.bounded)
        | inr (good, bad) ↦ omega (arith, good, bad, one, c.0, c.2, v.balance, v.bounded)
      ]
    ];
    bounded = v.bounded;
  }

  -- The next id is one that nothing stands for.
  fresh :
      (r : Router J) (n requested : ℕ) (es : List (Effect J)) (s : ℤ)
      → Inv r n requested es
      → results (req_id_of r.pid s (suc r.req_seq)) es
          + present (req_id_of r.pid s (suc r.req_seq)) r.pending
        ≡ 0
  fresh r n requested es s v = elim (v.once (req_id_of r.pid s (suc r.req_seq))) [
    | inl none_yet ↦ none_yet
    | inr (_, made) ↦ absurd (unnumbered r.pid r.req_seq s made)
  ]

  pub make_req_id-Inv :
      (r : Router J) (n requested : ℕ) (es : List (Effect J)) (s : ℤ)
      → suc n < 2 ^ 64
      → Inv r n requested es
      → Inv (make_req_id r s).0 (suc n) requested es
        × ((make_req_id r s).1 ≡ req_id_of r.pid s (suc r.req_seq))
        × ((make_req_id r s).0.req_seq ≡ suc r.req_seq)
  unfolding make_req_id accounted
  make_req_id-Inv r n requested es s h v =
      let e : bump r.req_seq ≡ suc r.req_seq = omega (arith, v.numbered) in
      (
        record {
          once = λ id. rw e (elim (v.once id) [
            | inl none_yet ↦ inl none_yet
            | inr (one, made) ↦ inr (one, Made-suc r.pid r.req_seq id made)
          ]);
          numbered = omega (arith, e, v.numbered);
          balance = v.balance;
          bounded = omega (arith, v.bounded);
        },
        ap (req_id_of r.pid s) e,
        e,
      )

  Opens-Inv :
      (r r' : Router J) (id : Text) (n requested : ℕ) (es now : List (Effect J))
      → Opens id r r' now
      → requested < n
      → results id es + present id r.pending ≡ 0
      → Made r.pid r.req_seq id
      → Inv r n requested es
      → Inv r' n (suc requested) (es ++ now)
  unfolding Opens accounted
  Opens-Inv r r' id n requested es now c h none_yet made v = record {
    once = λ j.
        rw (results-append j es now, c.0 j, c.6 j, c.4, c.5)
          (elim (Bool-cases (text_eq id j)) [
            | inl same ↦
                let ids : id ≡ j = (text_key.same_iff id j).0 same in
                rw same (
                  inr (
                    ap (λ x. results x es + 0 + 1) (sym ids) ∙ omega arith,
                    subst (Made r.pid r.req_seq) ids made,
                  ))
            | inr other ↦
                let e : results j es + 0 ≡ results j es = omega arith in rw (other, e) (v.once j)
          ]);
    numbered = omega (arith, c.4, v.numbered);
    balance = omega (arith, c.1, c.2, c.3, v.balance);
    bounded = omega arith;
  }

  pub Move-Inv :
      (r r' : Router J) (n requested : ℕ) (es now : List (Effect J))
      → n < 2 ^ 64
      → Move r r' now
      → Inv r n requested es
      → Inv r' n requested (es ++ now)
  Move-Inv r r' n requested es now h (keeps k) v = Keeps-Inv r r' n requested es now k v
  Move-Inv r r' n requested es now h (closes id c) v = Closes-Inv r r' id n requested es now h c v

  pub later-Inv :
      (r : Router J) (n requested : ℕ) (es : List (Effect J))
      → Inv r n requested es
      → Inv r (suc n) requested es
  later-Inv r n requested es v = record {
    once = v.once;
    numbered = omega (arith, v.numbered);
    balance = v.balance;
    bounded = omega (arith, v.bounded);
  }

  -- A request under a new id.
  pub started-Inv :
      (throws : Bool) (r : Router J) (s : ℤ) (p : Pending J) (n requested : ℕ)
      (es : List (Effect J))
      → suc n < 2 ^ 64
      → Inv r n requested es
      → Inv
          (start_request throws (make_req_id r s).0 (make_req_id r s).1 p).0
          (suc n)
          (suc requested)
          (es ++ (start_request throws (make_req_id r s).0 (make_req_id r s).1 p).1)
  unfolding make_req_id
  started-Inv throws r s p n requested es h v =
      let numbered = (make_req_id r s).0 in
      let id = (make_req_id r s).1 in
      let (v', named, seq) = make_req_id-Inv r n requested es s h v in
      let none_yet : results id es + present id numbered.pending ≡ 0 =
        ap (λ x. results x es + present x r.pending) named ∙ fresh r n requested es s v in
      Opens-Inv numbered (start_request throws numbered id p).0 id (suc n) requested es
        (start_request throws numbered id p).1
        (start_request-Opens throws numbered id p (omega arith)) (omega (arith, v.bounded)) none_yet
        (s, suc r.req_seq, omega (arith, seq), named) v'
