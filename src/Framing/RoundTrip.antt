-- ===== src/Framing/RoundTrip.antt =====
-- One frame at the front of the buffer: taken when all of it is there, waited for otherwise.
use server_application.Common.{
  ℕ, ◌+◌, ◌^◌, ◌≤◌, ◌<◌, ◌≡◌, refl, ap, ◌∙◌, Bool, true, false, none, some, ◌++◌, arith, length,
  take, drop, take_exact, drop_exact, ltb, leb, append_assoc, dec_lt, append_split, drop-drop, ◌%◌,
  lt→ltb, le→leb,
}
use server_application.Framing.{
  Bytes, Buffer, frame, big_endian, read_len_at, is_valid_length, max_packet_size, extract_message,
  take_at,
}
use server_application.Framing.Prefix.{from_big_endian-big_endian, length-frame, length-big_endian}

-- A message that the format can carry.
pub record IsMessage (m : Bytes) : Type 0 where
  pub nonempty : 0 < length m
  pub bounded : length m ≤ max_packet_size

abbrev pub held : Bytes → Buffer
held bytes = record { bytes = bytes; last_clear_by_invalid_length = false }

pub read_len_at-big_endian :
    (n : ℕ) (rest : Bytes) → n < 2 ^ 32 → read_len_at (big_endian n ++ rest) 0 ≡ n
unfolding read_len_at
read_len_at-big_endian n rest h = from_big_endian-big_endian n rest h

-- The size of a message survives the cast to `uint32_t`.
size_fits : (m : Bytes) → IsMessage m → length m % 2 ^ 32 ≡ length m
size_fits m ok = omega (arith, ok.bounded)

pub frame_eq : (m : Bytes) → IsMessage m → frame m ≡ big_endian (length m) ++ m
unfolding frame
frame_eq m ok = ap (λ n. big_endian n ++ m) (size_fits m ok)

pub is_valid_length-length : (m : Bytes) → IsMessage m → is_valid_length (length m) ≡ true
unfolding is_valid_length
is_valid_length-length m ok = ground (arith, ok.bounded, ok.nonempty)

-- The two ways in which a prefix at offset `i` ends.
pub take_at_whole :
    (bytes : Bytes) (i len : ℕ)
    → read_len_at bytes i ≡ len
    → i + 4 + len ≤ length bytes
    → take_at bytes i ≡ (drop (4 + len) (drop i bytes), some (take len (drop 4 (drop i bytes))))
unfolding take_at
take_at_whole bytes i len e h = rw (e, le→leb _ _ h)

pub take_at_wait :
    (bytes : Bytes) (i len : ℕ)
    → read_len_at bytes i ≡ len
    → length bytes < i + 4 + len
    → take_at bytes i ≡ (drop i bytes, none)
unfolding take_at
take_at_wait bytes i len e h =
    let too_few : leb (i + 4 + len) (length bytes) ≡ false = ground arith in rw (e, too_few)

pub extract_message_short :
    (bytes : Bytes) (flag : Bool)
    → length bytes < 4
    → extract_message (record { bytes = bytes; last_clear_by_invalid_length = flag })
      ≡ (held bytes, none)
unfolding extract_message
extract_message_short bytes flag h = rw (lt→ltb (length bytes) 4 h)

pub extract_message_front :
    (bytes : Bytes) (flag : Bool)
    → 4 ≤ length bytes
    → is_valid_length (read_len_at bytes 0) ≡ true
    → extract_message (record { bytes = bytes; last_clear_by_invalid_length = flag })
      ≡ (held (take_at bytes 0).0, (take_at bytes 0).1)
unfolding extract_message
extract_message_front bytes flag h v =
    let enough : ltb (length bytes) 4 ≡ false = ground arith in rw (enough, v)

pub after_prefix : (m rest : Bytes) → IsMessage m → drop 4 (frame m ++ rest) ≡ m ++ rest
unfolding frame big_endian
after_prefix m rest ok = refl

pub drop-frame : (m rest : Bytes) → IsMessage m → drop (4 + length m) (frame m ++ rest) ≡ rest
drop-frame m rest ok =
    rw (drop-drop 4 (length m) (frame m ++ rest), after_prefix m rest ok) (drop_exact m rest)

pub read_len_at-frame : (m rest : Bytes) → IsMessage m → read_len_at (frame m ++ rest) 0 ≡ length m
read_len_at-frame m rest ok =
    rw (frame_eq m ok, append_assoc (big_endian (length m)) m rest)
      (read_len_at-big_endian (length m) (m ++ rest) (omega (arith, ok.bounded)))

-- The complete frame of a message, not empty and at most 256 KiB, at the front of the buffer is
-- taken, whatever follows it and whatever the flag was, and what follows stays.
pub extract_message-frame :
    (m rest : Bytes) (flag : Bool)
    → IsMessage m
    → extract_message (record { bytes = frame m ++ rest; last_clear_by_invalid_length = flag })
      ≡ (held rest, some m)
extract_message-frame m rest flag ok =
    let size = read_len_at-frame m rest ok in
    let whole =
      take_at_whole (frame m ++ rest) 0 (length m) size (omega (arith, length-frame m rest)) in
    extract_message_front (frame m ++ rest) flag (omega (arith, length-frame m rest))
      (rw size (is_valid_length-length m ok))
    ∙ rw (whole, drop-frame m rest ok, after_prefix m rest ok, take_exact m rest)

-- A proper part of a frame stays in the buffer until the rest arrives.
pub extract_message_partial :
    (m bytes more : Bytes) (flag : Bool)
    → IsMessage m
    → bytes ++ more ≡ frame m
    → length bytes < 4 + length m
    → extract_message (record { bytes = bytes; last_clear_by_invalid_length = flag })
      ≡ (held bytes, none)
extract_message_partial m bytes more flag ok e h = elim (dec_lt (length bytes) 4) [
  | yes few ↦ extract_message_short bytes flag few
  | no enough ↦
      let (body, e', _) =
        append_split (big_endian (length m)) bytes m more (e ∙ frame_eq m ok)
          (omega (arith, length-big_endian (length m))) in
      let size : read_len_at bytes 0 ≡ length m =
        rw e' (read_len_at-big_endian (length m) body (omega (arith, ok.bounded))) in
      extract_message_front bytes flag (omega arith) (rw size (is_valid_length-length m ok))
      ∙ rw (take_at_wait bytes 0 (length m) size (omega arith))
]
