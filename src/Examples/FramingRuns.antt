-- ===== src/Examples/FramingRuns.antt =====
-- Buffers of MessageBufferManager.cpp: the message "hi" in its frame, cut and preceded by noise.
use server_application.Common.{
  ℕ, zero, suc, ◌↔◌, ◌≡◌, ◌<◌, ◌≤◌, refl, true, false, [], ◌∷◌, ◌++◌, arith, All, length, some,
  none,
}
use server_application.Framing.{
  Bytes, Buffer, extract_message, drain, frame, big_endian, empty_buffer, is_valid_length,
  read_len_at, absolute_max_buffer,
}
use server_application.Framing.RoundTrip.{IsMessage, held}
use server_application.Framing.Extract.{
  Outcome, NoStart, extract_message-Outcome, drain_bounded, invalid_length_flag_iff,
}
use server_application.Framing.Chunks.{feed, feed-stream, stream, join}
use server_application.Framing.Resync.{Carried, extract_message-Carried, extract_message-noise}
use server_application.Framing.Prefix.{IsByte}

abbrev hi : Bytes
hi = 104 ∷ 105 ∷ []

abbrev hi_frame : Bytes
hi_frame = 0 ∷ 0 ∷ 0 ∷ 2 ∷ 104 ∷ 105 ∷ []

hi-IsMessage : IsMessage hi
hi-IsMessage = record { nonempty = omega arith; bounded = omega arith }

feed-stream_example :
    feed empty_buffer
      ((0 ∷ 0 ∷ []) ∷ [] ∷ (0 ∷ 2 ∷ 104 ∷ []) ∷ (105 ∷ 0 ∷ 0 ∷ 0 ∷ 2 ∷ 104 ∷ 105 ∷ []) ∷ [])
    ≡ (hi ∷ hi ∷ [], empty_buffer)
unfolding stream join frame big_endian
feed-stream_example = feed-stream (hi ∷ hi ∷ []) _ (hi-IsMessage, (hi-IsMessage, tt)) refl

noisy-IsByte : All IsByte (255 ∷ hi_frame)
noisy-IsByte = (
  omega arith,
  (omega arith, (omega arith, (omega arith, (omega arith, (omega arith, (omega arith, tt)))))),
)

-- A frame of "hi" behind a byte of noise.
abbrev noisy : Buffer
noisy = record { bytes = 255 ∷ hi_frame; last_clear_by_invalid_length = false }

extract_message-Outcome_example : Outcome (255 ∷ hi_frame) (extract_message noisy)
extract_message-Outcome_example = extract_message-Outcome noisy

drain_bounded_example :
    (prev : Buffer) × ((drain 8 noisy).1 ≡ (extract_message prev).0)
    × ((extract_message prev).1 ≡ none)
    × (length (drain 8 noisy).1.bytes ≤ absolute_max_buffer)
drain_bounded_example = drain_bounded 8 noisy (omega arith)

invalid_length_flag_iff_example :
    ((extract_message noisy).0.last_clear_by_invalid_length ≡ true)
    ↔ (NoStart noisy.bytes × (absolute_max_buffer < length noisy.bytes))
invalid_length_flag_iff_example = invalid_length_flag_iff noisy

extract_message-Carried_example : Carried (255 ∷ hi_frame) hi []
unfolding extract_message is_valid_length
extract_message-Carried_example = extract_message-Carried noisy hi noisy-IsByte refl

quiet : (k : ℕ) → k < 1 → is_valid_length (read_len_at ((255 ∷ []) ++ (frame hi ++ [])) k) ≡ false
unfolding is_valid_length read_len_at frame big_endian
quiet zero h = refl
quiet (suc k) h = absurd (omega arith)

extract_message-noise_example :
    extract_message
      (record { bytes = (255 ∷ []) ++ (frame hi ++ []); last_clear_by_invalid_length = false })
    ≡ (held [], some hi)
extract_message-noise_example =
    extract_message-noise (255 ∷ []) hi [] false (omega arith) hi-IsMessage quiet
