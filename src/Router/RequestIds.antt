-- ===== src/Router/RequestIds.antt =====
-- The request ids of DBmwRouter.cpp: made by make_req_id, and read by extract_session_id_from_req.
use server_application.Common.{
  ℕ, ◌^◌, ◌<◌, ◌≡◌, ◌≢◌, refl, sym, ap, ◌∙◌, true, [], ◌∷◌, ◌++◌, arith, ltb, is_empty, Text,
  length, drop, drop_exact, ℤ, pos, negsuc, minus_one, codes,
}
use server_application.Router.{decimal, leading_digits, req_id_of, extract_session_id_from_req}
use server_application.Router.Decimal.{
  decimal-inj, decimal-All, decimal_nonempty, number_from-decimal, leading_digits-append,
}

same_rest : (xs ys zs : Text) → xs ++ ys ≡ xs ++ zs → ys ≡ zs
same_rest xs ys zs e = sym (drop_exact xs ys) ∙ ap (drop (length xs)) e ∙ drop_exact xs zs

tail_eq : (c : ℕ) (xs ys : Text) → c ∷ xs ≡ c ∷ ys → xs ≡ ys
tail_eq c xs ys e = cc

session_part : (pid n seq : ℕ) → leading_digits (req_id_of pid (pos n) seq) ≡ decimal n
unfolding req_id_of
session_part pid n seq = leading_digits-append (decimal n) 95 (decimal seq) (decimal-All n) refl

server_part : (pid n seq : ℕ) → leading_digits (req_id_of pid (negsuc n) seq) ≡ []
unfolding req_id_of leading_digits
server_part pid n seq = refl

-- From a request id that was made for a session, with an id that an int holds,
-- extract_session_id_from_req reads back the session id; from one that was made for no session it
-- reads -1.
extract_session_id-req_id :
    (pid n seq : ℕ)
    → n < 2 ^ 31
    → (extract_session_id_from_req (req_id_of pid (pos n) seq) ≡ pos n)
      × (extract_session_id_from_req (req_id_of pid (negsuc n) seq) ≡ minus_one)
unfolding extract_session_id_from_req
extract_session_id-req_id pid n seq h =
    let fits : ltb n (2 ^ 31) ≡ true = ground arith in
    (
      rw (session_part pid n seq, number_from-decimal n, decimal_nonempty n, fits),
      rw (server_part pid n seq),
    )

differ : (pid m n a b : ℕ) → req_id_of pid (pos m) a ≢ req_id_of pid (negsuc n) b
differ pid m n a b e =
    let none_left : decimal m ≡ [] =
      sym (session_part pid m a) ∙ ap leading_digits e ∙ server_part pid n b in
    let empty : is_empty (decimal m) ≡ true = ap is_empty none_left in
    ground (arith, decimal_nonempty m)

-- Request ids of one server are the same only if their sequence numbers are, whatever the sessions.
pub req_id_of-inj : (pid : ℕ) (s t : ℤ) (a b : ℕ) → req_id_of pid s a ≡ req_id_of pid t b → a ≡ b
unfolding req_id_of
req_id_of-inj pid (pos m) (pos n) a b e =
    let same : decimal m ≡ decimal n =
      sym (session_part pid m a) ∙ ap leading_digits e ∙ session_part pid n b in
    decimal-inj a b (
      tail_eq 95 _ _ (
        same_rest (decimal n) (95 ∷ decimal a) (95 ∷ decimal b)
          (sym (ap (λ d. d ++ 95 ∷ decimal a) same) ∙ e)))
req_id_of-inj pid (pos m) (negsuc n) a b e = absurd (differ pid m n a b e)
req_id_of-inj pid (negsuc m) (pos n) a b e = absurd (differ pid n m b a (sym e))
req_id_of-inj pid (negsuc m) (negsuc n) a b e =
    let shorter = same_rest (codes "srv-") _ _ e in
    decimal-inj a b
      (tail_eq 45 _ _ (same_rest (decimal pid) (45 ∷ decimal a) (45 ∷ decimal b) shorter))
