-- ===== src/Router/Decimal.antt =====
-- Decimal numbers in the ids of DBmwRouter.cpp: what std::to_string writes is read back.
use server_application.Common.{
  ℕ, zero, suc, ◌+◌, ◌-◌, ◌*◌, ◌/◌, ◌%◌, ◌<◌, ◌≡◌, refl, sym, ap, ◌∙◌, true, false, [], ◌∷◌, ◌++◌,
  arith, ltb, is_empty, All, All-append, Text, dec_lt,
}
use server_application.Router.{decimal, decimal_digits, is_digit, leading_digits, number_from}

pub IsDigit : ℕ → Type 0
IsDigit c = is_digit c ≡ true

number_from-snoc :
    (acc : ℕ) (xs : Text) (c : ℕ)
    → number_from acc (xs ++ c ∷ []) ≡ number_from acc xs * 10 + (c - 48)
unfolding number_from
number_from-snoc acc [] c = refl
number_from-snoc acc (x ∷ xs) c = number_from-snoc (acc * 10 + (x - 48)) xs c

number_from-decimal_digits : (fuel n : ℕ) → n < fuel → number_from 0 (decimal_digits fuel n) ≡ n
unfolding decimal_digits number_from
number_from-decimal_digits zero n h = absurd (omega arith)
number_from-decimal_digits (suc fuel) n h = elim (dec_lt n 10) [
  | yes small ↦ ground arith
  | no large ↦
      let e : ltb n 10 ≡ false = ground arith in
      rw e (
        number_from-snoc 0 (decimal_digits fuel (n / 10)) (48 + n % 10)
        ∙ omega (arith, number_from-decimal_digits fuel (n / 10) (omega arith)))
]

pub number_from-decimal : (n : ℕ) → number_from 0 (decimal n) ≡ n
unfolding decimal
number_from-decimal n = number_from-decimal_digits (suc n) n (omega arith)

decimal_digits-All : (fuel n : ℕ) → All IsDigit (decimal_digits fuel n)
unfolding decimal_digits IsDigit
decimal_digits-All zero n = tt
decimal_digits-All (suc fuel) n = elim (dec_lt n 10) [
  | yes small ↦ let e : ltb n 10 ≡ true = ground arith in rw e (ground arith, tt)
  | no large ↦
      let e : ltb n 10 ≡ false = ground arith in
      rw e (
        All-append IsDigit (decimal_digits fuel (n / 10)) _ (decimal_digits-All fuel (n / 10))
          (ground arith, tt))
]

pub decimal-All : (n : ℕ) → All IsDigit (decimal n)
unfolding decimal
decimal-All n = decimal_digits-All (suc n) n

pub decimal-inj : (a b : ℕ) → decimal a ≡ decimal b → a ≡ b
decimal-inj a b e = sym (number_from-decimal a) ∙ ap (number_from 0) e ∙ number_from-decimal b

-- Digits up to a character that is none are cut off as they are.
pub leading_digits-append :
    (ds : Text) (c : ℕ) (rest : Text)
    → All IsDigit ds
    → is_digit c ≡ false
    → leading_digits (ds ++ c ∷ rest) ≡ ds
unfolding leading_digits IsDigit
leading_digits-append [] c rest ok h = rw h
leading_digits-append (d ∷ ds) c rest ok h = rw (ok.0, leading_digits-append ds c rest (ok.1) h)

append_nonempty : (xs ys : Text) (c : ℕ) → is_empty (xs ++ c ∷ ys) ≡ false
append_nonempty [] ys c = refl
append_nonempty (x ∷ xs) ys c = refl

pub decimal_nonempty : (n : ℕ) → is_empty (decimal n) ≡ false
unfolding decimal decimal_digits
decimal_nonempty n = elim (dec_lt n 10) [
  | yes small ↦ let e : ltb n 10 ≡ true = ground arith in rw e
  | no large ↦
      let e : ltb n 10 ≡ false = ground arith in
      rw e (append_nonempty (decimal_digits n (n / 10)) [] _)
]
