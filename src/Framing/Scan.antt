-- ===== src/Framing/Scan.antt =====
-- The search for the first offset at which a valid length stands.
use server_application.Common.{
  ℕ, zero, suc, ◌+◌, ◌≤◌, ◌<◌, ◌≡◌, inl, inr, true, false, Option, none, some, arith, Bool-cases,
  dec_lt,
}
use server_application.Framing.{Bytes, read_len_at, is_valid_length, scan}

-- `j` is the first offset in [i, i + rounds) with a valid length.
pub record IsFirst (rounds i : ℕ) (bytes : Bytes) (j : ℕ) : Type 0 where
  pub from_start : i ≤ j
  pub in_range : j < i + rounds
  pub valid : is_valid_length (read_len_at bytes j) ≡ true
  pub earlier : (k : ℕ) → i ≤ k → k < j → is_valid_length (read_len_at bytes k) ≡ false

abbrev pub AllInvalid : ℕ → ℕ → Bytes → Type 0
AllInvalid rounds i bytes =
    (k : ℕ) → i ≤ k → k < i + rounds → is_valid_length (read_len_at bytes k) ≡ false

abbrev pub ScanResult : ℕ → ℕ → Bytes → Option ℕ → Type 0
ScanResult rounds i bytes none = AllInvalid rounds i bytes
ScanResult rounds i bytes (some j) = IsFirst rounds i bytes j

here_or_later :
    (i k : ℕ) (bytes : Bytes)
    → is_valid_length (read_len_at bytes i) ≡ false
    → (i + 1 ≤ k → is_valid_length (read_len_at bytes k) ≡ false)
    → i ≤ k
    → is_valid_length (read_len_at bytes k) ≡ false
here_or_later i k bytes miss above p = elim (dec_lt i k) [
  | yes q ↦ above (omega arith)
  | no q ↦ let e : k ≡ i = omega arith in rw e miss
]

later :
    (rounds i : ℕ) (bytes : Bytes) (r : Option ℕ)
    → is_valid_length (read_len_at bytes i) ≡ false
    → ScanResult rounds (i + 1) bytes r
    → ScanResult (suc rounds) i bytes r
later rounds i bytes none miss h =
    λ k p q. here_or_later i k bytes miss (λ p'. h k p' (omega arith)) p
later rounds i bytes (some j) miss h = record {
  from_start = omega (arith, h.from_start);
  in_range = omega (arith, h.in_range);
  valid = h.valid;
  earlier = λ k p q. here_or_later i k bytes miss (λ p'. h.earlier k p' q) p;
}

pub scan-ScanResult :
    (rounds i : ℕ) (bytes : Bytes) → ScanResult rounds i bytes (scan rounds i bytes)
unfolding scan
scan-ScanResult zero i bytes = λ k p q. absurd (omega arith)
scan-ScanResult (suc rounds) i bytes = elim (Bool-cases (is_valid_length (read_len_at bytes i))) [
  | inl hit ↦
      rw (hit, scan)
        (record {
          from_start = omega arith;
          in_range = omega arith;
          valid = hit;
          earlier = λ k p q. absurd (omega arith);
        })
  | inr miss ↦
      rw (miss, scan)
        (later rounds i bytes (scan rounds (i + 1) bytes) miss
          (scan-ScanResult rounds (i + 1) bytes))
]
