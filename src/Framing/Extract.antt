-- ===== src/Framing/Extract.antt =====
-- What one call of extract_message does, on every branch, and what follows for the loop over it.
use server_application.Common.{
  ℕ, zero, suc, ◌+◌, ◌-◌, ◌≤◌, ◌<◌, ◌≡◌, refl, ap, ◌∙◌, true, false, Option, none, some, [], ◌∷◌,
  inl, inr, ◌↔◌, arith, length, length-drop, take, drop, dec_lt, ltb, Bool-cases, Option-cases,
  lt→ltb,
}
use server_application.Framing.{
  Bytes, Buffer, read_len_at, is_valid_length, max_packet_size, absolute_max_buffer, scan_limit,
  scan, take_at, after_scan, extract_message, drain,
}
use server_application.Framing.Scan.{ScanResult, scan-ScanResult}
use server_application.Framing.RoundTrip.{
  held, take_at_whole, take_at_wait, extract_message_short, extract_message_front,
}

-- `i` is the first offset that is looked at with a valid length.
pub record IsStart (bytes : Bytes) (i : ℕ) : Type 0 where
  pub in_range : i + 4 ≤ scan_limit bytes
  pub valid : is_valid_length (read_len_at bytes i) ≡ true
  pub earlier : (k : ℕ) → k < i → is_valid_length (read_len_at bytes k) ≡ false

-- No offset that is looked at has a valid length.
pub record NoStart (bytes : Bytes) : Type 0 where
  pub enough : 4 ≤ length bytes
  pub invalid : (k : ℕ) → k + 4 ≤ scan_limit bytes → is_valid_length (read_len_at bytes k) ≡ false

pub data Outcome (bytes : Bytes) (r : Buffer × Option Bytes) : Type 0 where
  short : length bytes < 4 → r ≡ (held bytes, none) → Outcome bytes r
  taken :
      (i len : ℕ)
      → IsStart bytes i
      → len ≡ read_len_at bytes i
      → i + 4 + len ≤ length bytes
      → r ≡ (held (drop (4 + len) (drop i bytes)), some (take len (drop 4 (drop i bytes))))
      → Outcome bytes r
  waits :
      (i len : ℕ)
      → IsStart bytes i
      → len ≡ read_len_at bytes i
      → length bytes < i + 4 + len
      → r ≡ (held (drop i bytes), none)
      → Outcome bytes r
  undecided :
      NoStart bytes → length bytes ≤ absolute_max_buffer → r ≡ (held bytes, none) → Outcome bytes r
  given_up :
      NoStart bytes
      → absolute_max_buffer < length bytes
      → r ≡ (record { bytes = []; last_clear_by_invalid_length = true }, none)
      → Outcome bytes r

start-Outcome :
    (bytes : Bytes) (i : ℕ) (r : Buffer × Option Bytes)
    → IsStart bytes i
    → r ≡ (held (take_at bytes i).0, (take_at bytes i).1)
    → Outcome bytes r
start-Outcome bytes i r st e = elim (dec_lt (length bytes) (i + 4 + read_len_at bytes i)) [
  | yes few ↦
      waits i (read_len_at bytes i) st refl few
        (e ∙ ap (λ t. (held t.0, t.1)) (take_at_wait bytes i _ refl few))
  | no enough ↦
      taken i (read_len_at bytes i) st refl (omega arith)
        (e ∙ ap (λ t. (held t.0, t.1)) (take_at_whole bytes i _ refl (omega arith)))
]

zero_or_later :
    (k : ℕ) (bytes : Bytes)
    → is_valid_length (read_len_at bytes 0) ≡ false
    → (1 ≤ k → is_valid_length (read_len_at bytes k) ≡ false)
    → is_valid_length (read_len_at bytes k) ≡ false
zero_or_later zero bytes z h = z
zero_or_later (suc k) bytes z h = h (omega arith)

after_scan-Outcome :
    (bytes : Bytes) (found : Option ℕ)
    → 4 ≤ length bytes
    → is_valid_length (read_len_at bytes 0) ≡ false
    → ScanResult (scan_limit bytes - 4) 1 bytes found
    → Outcome bytes (after_scan found bytes)
unfolding after_scan
after_scan-Outcome bytes (some i) h z s =
    start-Outcome bytes i _
      (record {
        in_range = omega (arith, s.in_range);
        valid = s.valid;
        earlier = λ k p. zero_or_later k bytes z (λ q. s.earlier k q p);
      })
      (unfold after_scan in refl)
after_scan-Outcome bytes none h z s = elim (dec_lt absolute_max_buffer (length bytes)) [
  | yes large ↦ given_up ns large (rw (lt→ltb _ _ large))
  | no small ↦
      let e : ltb absolute_max_buffer (length bytes) ≡ false = ground arith in
      undecided ns (omega arith) (rw e)
]
  where
    ns : NoStart bytes
    ns = record { enough = h; invalid = λ k p. zero_or_later k bytes z (λ q. s k q (omega arith)) }

extract_message_rest :
    (b : Buffer)
    → 4 ≤ length b.bytes
    → is_valid_length (read_len_at b.bytes 0) ≡ false
    → extract_message b ≡ after_scan (scan (scan_limit b.bytes - 4) 1 b.bytes) b.bytes
unfolding extract_message
extract_message_rest b h z =
    let enough : ltb (length b.bytes) 4 ≡ false = ground arith in rw (enough, z)

long_enough-Outcome : (b : Buffer) → 4 ≤ length b.bytes → Outcome b.bytes (extract_message b)
long_enough-Outcome b h = elim (Bool-cases (is_valid_length (read_len_at b.bytes 0))) [
  | inl v ↦
      start-Outcome b.bytes 0 _
        (record { in_range = omega arith; valid = v; earlier = λ k p. absurd (omega arith) })
        (extract_message_front b.bytes b.last_clear_by_invalid_length h v)
  | inr z ↦
      rw (extract_message_rest b h z)
        (after_scan-Outcome b.bytes _ h z (scan-ScanResult (scan_limit b.bytes - 4) 1 b.bytes))
]

-- Every call of extract_message ends in one of five ways, which the bytes decide and not the flag:
-- fewer than four bytes are kept; the message at the first offset with a valid length is taken,
-- with the noise before it dropped; that noise is dropped and the message awaited; without such an
-- offset in reach the bytes are kept up to 512 KiB; above that they are dropped and the flag is
-- raised.
pub extract_message-Outcome : (b : Buffer) → Outcome b.bytes (extract_message b)
extract_message-Outcome b = elim (dec_lt (length b.bytes) 4) [
  | yes few ↦ short few (extract_message_short b.bytes b.last_clear_by_invalid_length few)
  | no enough ↦ long_enough-Outcome b (omega arith)
]

pub valid_bounds : (len : ℕ) → is_valid_length len ≡ true → (0 < len) × (len ≤ max_packet_size)
unfolding is_valid_length
valid_bounds len v = ground arith

-- A message makes the buffer at least five bytes shorter.
pub Outcome-some :
    (bytes : Bytes) (r : Buffer × Option Bytes) (m : Bytes)
    → Outcome bytes r
    → r.1 ≡ some m
    → length r.0.bytes + 5 ≤ length bytes
Outcome-some bytes r m (short _ e) h = cc
Outcome-some bytes r m (taken i len st size whole e) h = omega (
  arith,
  valid_bounds (read_len_at bytes i) st.valid,
  ap (λ t. length t.0.bytes) e,
  length-drop (4 + len) (drop i bytes),
  length-drop i bytes,
)
Outcome-some bytes r m (waits i len st size few e) h = cc
Outcome-some bytes r m (undecided ns small e) h = cc
Outcome-some bytes r m (given_up ns large e) h = cc

-- Without a message the buffer stays within its limit.
Outcome-none :
    (bytes : Bytes) (r : Buffer × Option Bytes)
    → Outcome bytes r
    → r.1 ≡ none
    → length r.0.bytes ≤ absolute_max_buffer
Outcome-none bytes r (short few e) h = omega (arith, ap (λ t. length t.0.bytes) e)
Outcome-none bytes r (taken i len st size whole e) h = cc
Outcome-none bytes r (waits i len st size few e) h = omega (
  arith,
  valid_bounds (read_len_at bytes i) st.valid,
  ap (λ t. length t.0.bytes) e,
  length-drop i bytes,
)
Outcome-none bytes r (undecided ns small e) h = omega (arith, ap (λ t. length t.0.bytes) e)
Outcome-none bytes r (given_up ns large e) h = omega (arith, ap (λ t. length t.0.bytes) e)

drain_cases-none :
    (fuel : ℕ) (b : Buffer)
    → (extract_message b).1 ≡ none
    → drain (suc fuel) b ≡ ([], (extract_message b).0)
unfolding drain
drain_cases-none fuel b e = rw (e, drain)

drain_cases-some :
    (fuel : ℕ) (b : Buffer) (m : Bytes)
    → (extract_message b).1 ≡ some m
    → drain (suc fuel) b
      ≡ (m ∷ (drain fuel (extract_message b).0).0, (drain fuel (extract_message b).0).1)
unfolding drain
drain_cases-some fuel b m e = rw (e, drain)

-- With more rounds than bytes, the loop over the buffer ends because extract_message gives no
-- message, not because the rounds run out, and leaves at most 512 KiB behind, however much was in
-- the buffer before.
pub drain_bounded :
    (fuel : ℕ) (b : Buffer)
    → length b.bytes < fuel
    → (prev : Buffer) × ((drain fuel b).1 ≡ (extract_message prev).0)
      × ((extract_message prev).1 ≡ none)
      × (length (drain fuel b).1.bytes ≤ absolute_max_buffer)
drain_bounded zero b h = absurd (omega arith)
drain_bounded (suc fuel) b h = elim (Option-cases (extract_message b).1) [
  | inl e ↦ (
    b,
    ap (λ r. r.1) (drain_cases-none fuel b e),
    e,
    rw (drain_cases-none fuel b e) (Outcome-none b.bytes _ (extract_message-Outcome b) e),
  )
  | inr (m, e) ↦
      let shorter = Outcome-some b.bytes _ m (extract_message-Outcome b) e in
      let (prev, ends, last, small) = drain_bounded fuel (extract_message b).0 (omega arith) in
      (prev, rw (drain_cases-some fuel b m e) ends, last, rw (drain_cases-some fuel b m e) small)
]

raised→given_up :
    (bytes : Bytes) (r : Buffer × Option Bytes)
    → Outcome bytes r
    → r.0.last_clear_by_invalid_length ≡ true
    → NoStart bytes × (absolute_max_buffer < length bytes)
raised→given_up bytes r (short few e) h = cc (h, ap (λ t. t.0.last_clear_by_invalid_length) e)
raised→given_up bytes r (taken i len st size whole e) h =
    cc (h, ap (λ t. t.0.last_clear_by_invalid_length) e)
raised→given_up bytes r (waits i len st size few e) h =
    cc (h, ap (λ t. t.0.last_clear_by_invalid_length) e)
raised→given_up bytes r (undecided ns small e) h =
    cc (h, ap (λ t. t.0.last_clear_by_invalid_length) e)
raised→given_up bytes r (given_up ns large e) h = (ns, large)

given_up→raised :
    (bytes : Bytes) (r : Buffer × Option Bytes)
    → Outcome bytes r
    → NoStart bytes
    → absolute_max_buffer < length bytes
    → r ≡ (record { bytes = []; last_clear_by_invalid_length = true }, none)
given_up→raised bytes r (short few e) no_start many = absurd (omega arith)
given_up→raised bytes r (taken i len st size whole e) no_start many =
    cc (st.valid, no_start.invalid i st.in_range)
given_up→raised bytes r (waits i len st size few e) no_start many =
    cc (st.valid, no_start.invalid i st.in_range)
given_up→raised bytes r (undecided ns small e) no_start many = absurd (omega arith)
given_up→raised bytes r (given_up ns large e) no_start many = e

-- After a call of extract_message the flag that makes the callers drop the connection is up exactly
-- when no offset in reach of the scan has a valid length and more than 512 KiB have piled up.
pub invalid_length_flag_iff :
    (b : Buffer)
    → ((extract_message b).0.last_clear_by_invalid_length ≡ true)
      ↔ (NoStart b.bytes × (absolute_max_buffer < length b.bytes))
invalid_length_flag_iff b = (
  raised→given_up b.bytes _ (extract_message-Outcome b),
  λ h.
      ap (λ r. r.0.last_clear_by_invalid_length)
        (given_up→raised b.bytes _ (extract_message-Outcome b) h.0 h.1),
)
