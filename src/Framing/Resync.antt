-- ===== src/Framing/Resync.antt =====
-- Noise in front of a frame, and what a delivered message says about the bytes that came in.
use server_application.Common.{
  ℕ, zero, suc, ◌+◌, ◌^◌, ◌%◌, ◌≤◌, ◌<◌, ◌≡◌, sym, ap, ◌∙◌, Bool, false, Option, some, [], ◌∷◌,
  ◌++◌, arith, length, length-append, length-take, length-drop, take, drop, drop-drop, All,
  append_assoc, dec_lt, take-append-drop, take_exact, drop_exact,
}
use server_application.Framing.{
  Bytes, Buffer, frame, big_endian, from_big_endian, read_len_at, is_valid_length, max_packet_size,
  max_resync_scan, extract_message,
}
use server_application.Framing.Prefix.{IsByte, big_endian-from_big_endian, length-frame}
use server_application.Framing.RoundTrip.{
  IsMessage, held, after_prefix, drop-frame, read_len_at-frame, is_valid_length-length,
}
use server_application.Framing.Extract.{
  Outcome, IsStart, short, taken, waits, undecided, given_up, extract_message-Outcome, valid_bounds,
}

head_bytes :
    (bytes : Bytes)
    → 4 ≤ length bytes
    → All IsByte bytes
    → big_endian (from_big_endian bytes) ++ drop 4 bytes ≡ bytes
unfolding from_big_endian
head_bytes [] h ok = absurd (omega arith)
head_bytes (a ∷ []) h ok = absurd (omega arith)
head_bytes (a ∷ b ∷ []) h ok = absurd (omega arith)
head_bytes (a ∷ b ∷ c ∷ []) h ok = absurd (omega arith)
head_bytes (a ∷ b ∷ c ∷ d ∷ rest) h ok =
    ap (λ p. p ++ rest) (big_endian-from_big_endian a b c d ok.0 ok.1.0 ok.1.1.0 ok.1.1.1.0)

All-drop : (n : ℕ) (bytes : Bytes) → All IsByte bytes → All IsByte (drop n bytes)
All-drop zero bytes ok = ok
All-drop (suc n) [] ok = tt
All-drop (suc n) (x ∷ xs) ok = All-drop n xs ok.1

-- A buffer whose head says `len`, with that many bytes behind it, begins with a frame.
reframe :
    (bytes : Bytes) (len : ℕ)
    → All IsByte bytes
    → len ≡ from_big_endian bytes
    → 4 + len ≤ length bytes
    → len ≤ max_packet_size
    → bytes ≡ frame (take len (drop 4 bytes)) ++ drop (4 + len) bytes
unfolding frame
reframe bytes len ok e h small =
    let body = drop 4 bytes in
    let size : length (take len body) % 2 ^ 32 ≡ len =
      omega (arith, length-take len body, length-drop 4 bytes) in
    rw
      (
        size,
        append_assoc (big_endian len) (take len body) (drop (4 + len) bytes),
        drop-drop 4 len bytes,
        take-append-drop len body,
        e,
      )
      (sym (head_bytes bytes (omega arith) ok))

-- The bytes as noise, the message's own frame, and what stays.
pub record Carried (bytes : Bytes) (m rest : Bytes) : Type 0 where
  pub noise : Bytes
  pub split : bytes ≡ noise ++ (frame m ++ rest)
  pub message : IsMessage m

taken-Carried :
    (bytes : Bytes) (i len : ℕ)
    → All IsByte bytes
    → IsStart bytes i
    → len ≡ read_len_at bytes i
    → i + 4 + len ≤ length bytes
    → Carried bytes (take len (drop 4 (drop i bytes))) (drop (4 + len) (drop i bytes))
unfolding read_len_at
taken-Carried bytes i len ok st size whole =
    let kept = drop i bytes in
    let kept_length = length-drop i bytes in
    let (positive, small) = valid_bounds (read_len_at bytes i) st.valid in
    let body_length : length (take len (drop 4 kept)) ≡ len =
      omega (arith, length-take len (drop 4 kept), length-drop 4 kept) in
    record {
      noise = take i bytes;
      split =
          sym (take-append-drop i bytes)
          ∙ ap (◌++◌ (take i bytes))
              (reframe kept len (All-drop i bytes ok) size (omega arith) (omega arith));
      message = record { nonempty = omega arith; bounded = omega arith };
    }

Outcome-Carried :
    (bytes : Bytes) (r : Buffer × Option Bytes) (m : Bytes)
    → Outcome bytes r
    → All IsByte bytes
    → r.1 ≡ some m
    → Carried bytes m r.0.bytes
Outcome-Carried bytes r m (short _ e) ok h = cc
Outcome-Carried bytes r m (taken i len st size whole e) ok h =
    let same : take len (drop 4 (drop i bytes)) ≡ m = cc in
    rw (ap (λ t. t.0.bytes) e, ← same) (taken-Carried bytes i len ok st size whole)
Outcome-Carried bytes r m (waits i len st size few e) ok h = cc
Outcome-Carried bytes r m (undecided ns small e) ok h = cc
Outcome-Carried bytes r m (given_up ns large e) ok h = cc

-- If a buffer of bytes gives a message, the buffer was some noise, the message's own frame (the
-- message not empty and at most 256 KiB) and the bytes that stay: no message is made up.
pub extract_message-Carried :
    (b : Buffer) (m : Bytes)
    → All IsByte b.bytes
    → (extract_message b).1 ≡ some m
    → Carried b.bytes m (extract_message b).0.bytes
extract_message-Carried b m ok h = Outcome-Carried b.bytes _ m (extract_message-Outcome b) ok h

start_unique : (bytes : Bytes) (i j : ℕ) → IsStart bytes i → IsStart bytes j → i ≡ j
start_unique bytes i j s t = elim (dec_lt i j) [
  | yes below ↦ cc (s.valid, t.earlier i below)
  | no not_below ↦ elim (dec_lt j i) [
    | yes above ↦ cc (t.valid, s.earlier j above)
    | no not_above ↦ omega arith
  ]
]

Outcome-start :
    (bytes : Bytes) (r : Buffer × Option Bytes) (j len : ℕ)
    → Outcome bytes r
    → IsStart bytes j
    → read_len_at bytes j ≡ len
    → j + 4 + len ≤ length bytes
    → r ≡ (held (drop (4 + len) (drop j bytes)), some (take len (drop 4 (drop j bytes))))
Outcome-start bytes r j len (short few e) st size whole = absurd (omega arith)
Outcome-start bytes r j len (taken i len' st' size' whole' e) st size whole =
    let same : i ≡ j = start_unique bytes i j st' st in
    let same_size : len' ≡ len = size' ∙ ap (read_len_at bytes) same ∙ size in
    e ∙ rw (same, same_size)
Outcome-start bytes r j len (waits i len' st' size' few e) st size whole =
    let same : i ≡ j = start_unique bytes i j st' st in
    let same_size : len' ≡ len = size' ∙ ap (read_len_at bytes) same ∙ size in absurd (omega arith)
Outcome-start bytes r j len (undecided ns small e) st size whole =
    cc (st.valid, ns.invalid j st.in_range)
Outcome-start bytes r j len (given_up ns large e) st size whole =
    cc (st.valid, ns.invalid j st.in_range)

read_len_at-append :
    (noise bytes : Bytes) → read_len_at (noise ++ bytes) (length noise) ≡ read_len_at bytes 0
unfolding read_len_at
read_len_at-append noise bytes = rw (drop_exact noise bytes)

-- Noise in which no offset looks like a length, up to 16 KiB of it, is skipped: the frame behind it is
-- taken as if it stood alone.
pub extract_message-noise :
    (noise m rest : Bytes) (flag : Bool)
    → length noise ≤ max_resync_scan
    → IsMessage m
    → ((k : ℕ)
        → k < length noise
        → is_valid_length (read_len_at (noise ++ (frame m ++ rest)) k) ≡ false)
    → extract_message
        (record { bytes = noise ++ (frame m ++ rest); last_clear_by_invalid_length = flag })
      ≡ (held rest, some m)
extract_message-noise noise m rest flag short_noise ok quiet =
    let bytes = noise ++ (frame m ++ rest) in
    let total : length bytes ≡ length noise + (4 + length m + length rest) =
      length-append noise (frame m ++ rest) ∙ ap (λ n. length noise + n) (length-frame m rest) in
    let size : read_len_at bytes (length noise) ≡ length m =
      read_len_at-append noise (frame m ++ rest) ∙ read_len_at-frame m rest ok in
    Outcome-start bytes _ (length noise) (length m) (extract_message-Outcome _)
      (record {
        in_range = omega arith;
        valid = rw size (is_valid_length-length m ok);
        earlier = quiet;
      })
      size (omega arith)
    ∙ rw (
      drop_exact noise (frame m ++ rest),
      drop-frame m rest ok,
      after_prefix m rest ok,
      take_exact m rest,
    )
