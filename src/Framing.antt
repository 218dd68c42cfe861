-- ===== src/Framing.antt =====
-- MessageBufferManager.cpp, and the length prefix that Session::do_write_queue (Session.cpp) and
-- DBMiddlewareClient::send_framed (DBMiddlewareClient.cpp) put in front of each message. A buffer is
-- the list of its bytes, oldest first.
pub mod Prefix
pub mod Scan
pub mod Extract
pub mod RoundTrip
pub mod Chunks
pub mod Resync
use server_application.Common.{
  ℕ, zero, suc, ◌+◌, ◌-◌, ◌*◌, ◌/◌, ◌%◌, ◌^◌, min, Bool, true, false, ◌&&◌, Option, none, some,
  List, [], ◌∷◌, ◌++◌, ltb, leb, if◌then◌else◌, length, take, drop,
}

abbrev pub Bytes : Type 0
Bytes = List ℕ

pub record Buffer : Type 0 where
  pub bytes : Bytes
  pub last_clear_by_invalid_length : Bool

abbrev pub max_packet_size : ℕ
max_packet_size = 64 * 4096

abbrev pub max_resync_scan : ℕ
max_resync_scan = 16384

abbrev pub absolute_max_buffer : ℕ
absolute_max_buffer = 512 * 1024

unfoldable pub empty_buffer : Buffer
empty_buffer = record { bytes = []; last_clear_by_invalid_length = false }

-- `htonl`, laid out in memory.
unfoldable pub big_endian : ℕ → Bytes
big_endian n = (n / 2 ^ 24 % 256) ∷ (n / 2 ^ 16 % 256) ∷ (n / 2 ^ 8 % 256) ∷ (n % 256) ∷ []

-- The size is cast to `uint32_t`.
unfoldable pub frame : Bytes → Bytes
frame body = big_endian (length body % 2 ^ 32) ++ body

-- `memcpy` of four bytes and `ntohl`; every caller has checked that four bytes are there.
unfoldable pub from_big_endian : Bytes → ℕ
from_big_endian (a ∷ b ∷ c ∷ d ∷ rest) = a * 2 ^ 24 + b * 2 ^ 16 + c * 2 ^ 8 + d
from_big_endian _ = 0

unfoldable pub read_len_at : Bytes → ℕ → ℕ
unfolding from_big_endian
read_len_at bytes offset = from_big_endian (drop offset bytes)

unfoldable pub is_valid_length : ℕ → Bool
is_valid_length len = ltb 0 len && leb len max_packet_size

unfoldable pub append : Buffer → Bytes → Buffer
append b chunk = record b { bytes = b.bytes ++ chunk }

-- `for (size_t i = …; i + 4 <= scan_limit; ++i)`, with the rounds that are left.
unfoldable pub scan : ℕ → ℕ → Bytes → Option ℕ
unfolding read_len_at
scan zero i bytes = none
scan (suc rounds) i bytes = elim (is_valid_length (read_len_at bytes i)) [
  | true ↦ some i
  | false ↦ scan rounds (i + 1) bytes
]

abbrev pub scan_limit : Bytes → ℕ
scan_limit bytes = min (length bytes) (max_resync_scan + 4)

-- A length prefix at offset `i` is valid: what stands before it is dropped, and the message is
-- taken if all of it is there.
unfoldable pub take_at : Bytes → ℕ → Bytes × Option Bytes
unfolding read_len_at
take_at bytes i =
    let len = read_len_at bytes i in
    let kept = drop i bytes in
    if leb (i + 4 + len) (length bytes)
    then (drop (4 + len) kept, some (take len (drop 4 kept)))
    else (kept, none)

kept_buffer : Bytes × Option Bytes → Buffer × Option Bytes
kept_buffer (bytes, msg) = (record { bytes = bytes; last_clear_by_invalid_length = false }, msg)

-- What is done with the result of the scan. A buffer that grew too large is given up.
unfoldable pub after_scan : Option ℕ → Bytes → Buffer × Option Bytes
unfolding take_at kept_buffer
after_scan (some i) bytes = kept_buffer (take_at bytes i)
after_scan none bytes =
    if ltb absolute_max_buffer (length bytes)
    then (record { bytes = []; last_clear_by_invalid_length = true }, none)
    else (record { bytes = bytes; last_clear_by_invalid_length = false }, none)

unfoldable pub extract_message : Buffer → Buffer × Option Bytes
unfolding take_at kept_buffer after_scan scan
extract_message b =
    let bytes = b.bytes in
    if ltb (length bytes) 4
    then (record b { last_clear_by_invalid_length = false }, none)
    else if is_valid_length (read_len_at bytes 0)
    then kept_buffer (take_at bytes 0)
    else after_scan (scan (scan_limit bytes - 4) 1 bytes) bytes

unfoldable pub clear : Buffer → Buffer
clear b = record b { bytes = [] }

-- `while (auto msg = extract_message())` of Session::do_read and DBMiddlewareClient::do_read_some,
-- with the messages in order. Each message takes at least five bytes, so `length b.bytes + 1`
-- rounds are enough.
unfoldable pub drain : ℕ → Buffer → List Bytes × Buffer
drain zero b = ([], b)
drain (suc fuel) b = elim (extract_message b).1 [
  | none ↦ ([], (extract_message b).0)
  | some msg ↦ let (msgs, last) = drain fuel (extract_message b).0 in (msg ∷ msgs, last)
]

unfoldable pub receive : Buffer → Bytes → List Bytes × Buffer
receive b chunk = let b' = append b chunk in drain (suc (length b'.bytes)) b'
