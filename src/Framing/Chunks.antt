-- ===== src/Framing/Chunks.antt =====
-- A stream of frames that arrives in pieces: Session::do_read and DBMiddlewareClient::do_read_some.
use server_application.Common.{
  ℕ, zero, suc, ◌+◌, ◌<◌, ◌≡◌, refl, sym, ap, ◌∙◌, Bool, false, none, some, List, [], ◌∷◌, ◌++◌,
  arith, length, All, append_assoc, append-nil, dec_lt, append_split, subst,
}
use server_application.Framing.{
  Bytes, Buffer, frame, extract_message, drain, receive, append, empty_buffer,
}
use server_application.Framing.Prefix.{length-frame, framed_size}
use server_application.Framing.RoundTrip.{
  IsMessage, held, extract_message-frame, extract_message_partial, extract_message_short,
}

-- What a peer sends for a list of messages.
unfoldable pub stream : List Bytes → Bytes
stream [] = []
stream (m ∷ ms) = frame m ++ stream ms

-- The buffer holds no complete frame of the messages that are still to come.
abbrev pub Incomplete : Bytes → List Bytes → Type 0
Incomplete rest [] = rest ≡ []
Incomplete rest (m ∷ ms) = length rest < 4 + length m

-- Of `msgs` some are delivered; what the buffer keeps and what is still to arrive are the others.
pub record Delivered (msgs : List Bytes) (more : Bytes) (r : List Bytes × Buffer) : Type 0 where
  pub todo : List Bytes
  pub rest : Bytes
  pub all_there : msgs ≡ r.0 ++ todo
  pub buffer : r.1 ≡ held rest
  pub remaining : rest ++ more ≡ stream todo
  pub incomplete : Incomplete rest todo

drain_done :
    (fuel : ℕ) (b b' : Buffer) → extract_message b ≡ (b', none) → drain (suc fuel) b ≡ ([], b')
unfolding drain
drain_done fuel b b' e = rw (ap (λ r. r.1) e, drain) (ap (λ r. ([], r.0)) e)

drain_next :
    (fuel : ℕ) (b b' : Buffer) (m : Bytes)
    → extract_message b ≡ (b', some m)
    → drain (suc fuel) b ≡ (m ∷ (drain fuel b').0, (drain fuel b').1)
unfolding drain
drain_next fuel b b' m e =
    rw (ap (λ r. r.1) e, drain) (ap (λ r. (m ∷ (drain fuel r.0).0, (drain fuel r.0).1)) e)

nil_parts : (xs ys : Bytes) → xs ++ ys ≡ [] → (xs ≡ []) × (ys ≡ [])
nil_parts [] ys e = (refl, e)
nil_parts (x ∷ xs) ys e = cc

few_bytes : (bytes : Bytes) → bytes ≡ [] → length bytes < 4
few_bytes bytes e = rw e (omega arith)

one_more :
    (m : Bytes) {ms : List Bytes} {more : Bytes} {r : List Bytes × Buffer}
    → Delivered ms more r
    → Delivered (m ∷ ms) more (m ∷ r.0, r.1)
one_more m d = record {
  todo = d.todo;
  rest = d.rest;
  all_there = ap (◌∷◌ m) d.all_there;
  buffer = d.buffer;
  remaining = d.remaining;
  incomplete = d.incomplete;
}

pub drain-Delivered :
    (msgs : List Bytes) (fuel : ℕ) (bytes more : Bytes) (flag : Bool)
    → All IsMessage msgs
    → bytes ++ more ≡ stream msgs
    → length bytes < fuel
    → Delivered msgs more
        (drain fuel (record { bytes = bytes; last_clear_by_invalid_length = flag }))
unfolding stream
drain-Delivered msgs zero bytes more flag ok e h = absurd (omega arith)
drain-Delivered [] (suc fuel) bytes more flag ok e h =
    let (none_left, _) = nil_parts bytes more e in
    rw (drain_done fuel _ _ (extract_message_short bytes flag (few_bytes bytes none_left)))
      (record {
        todo = [];
        rest = bytes;
        all_there = refl;
        buffer = refl;
        remaining = e;
        incomplete = none_left;
      })
drain-Delivered (m ∷ ms) (suc fuel) bytes more flag ok e h =
    elim (dec_lt (length bytes) (4 + length m)) [
      | yes few ↦
          let (zs, whole, _) =
            append_split bytes (frame m) more (stream ms) (sym e) (omega (arith, framed_size m)) in
          rw (drain_done fuel _ _ (extract_message_partial m bytes zs flag ok.0 (sym whole) few))
            (record {
              todo = m ∷ ms;
              rest = bytes;
              all_there = refl;
              buffer = refl;
              remaining = e;
              incomplete = few;
            })
      | no enough ↦
          let (tail, front, e') =
            append_split (frame m) bytes (stream ms) more e (omega (arith, framed_size m)) in
          let size : length bytes ≡ 4 + length m + length tail =
            ap length front ∙ length-frame m tail in
          let next : extract_message (record { bytes = bytes; last_clear_by_invalid_length = flag })
              ≡ (held tail, some m) =
            rw front (extract_message-frame m tail flag ok.0) in
          rw (drain_next fuel _ (held tail) m next)
            (one_more m (drain-Delivered ms fuel tail more false ok.1 e' (omega arith)))
    ]

-- Reads in order: what each delivers, joined, and the last buffer.
unfoldable pub feed : Buffer → List Bytes → List Bytes × Buffer
feed b [] = ([], b)
feed b (chunk ∷ chunks) =
    let (msgs, b') = receive b chunk in let (later, last) = feed b' chunks in (msgs ++ later, last)

unfoldable pub join : List Bytes → Bytes
join [] = []
join (chunk ∷ chunks) = chunk ++ join chunks

All-right : (xs ys : List Bytes) → All IsMessage (xs ++ ys) → All IsMessage ys
All-right [] ys h = h
All-right (x ∷ xs) ys h = All-right xs ys h.1

receive-Delivered :
    (msgs : List Bytes) (rest chunk more : Bytes)
    → All IsMessage msgs
    → rest ++ (chunk ++ more) ≡ stream msgs
    → Delivered msgs more (receive (held rest) chunk)
unfolding receive append
receive-Delivered msgs rest chunk more ok e =
    drain-Delivered msgs (suc (length (rest ++ chunk))) (rest ++ chunk) more false ok
      (append_assoc rest chunk more ∙ e) (omega arith)

nothing_left :
    (todo : List Bytes) (rest : Bytes)
    → rest ++ [] ≡ stream todo
    → Incomplete rest todo
    → (todo ≡ []) × (rest ≡ [])
unfolding stream
nothing_left [] rest e h = (refl, h)
nothing_left (m ∷ ms) rest e h =
    absurd (omega (arith, ap length (sym (append-nil rest) ∙ e), length-frame m (stream ms)))

feed_step :
    (todo : List Bytes) (chunks : List Bytes) (r : List Bytes × Buffer)
    (d : Delivered todo (join chunks) r)
    → feed (held d.rest) chunks ≡ (d.todo, held [])
    → ◌≡◌ {A = List Bytes × Buffer}
        (r.0 ++ (feed r.1 chunks).0, (feed r.1 chunks).1)
        (todo, held [])
feed_step todo chunks r d e = rw (d.buffer, e, ← d.all_there)

feed_from :
    (chunks todo : List Bytes) (rest : Bytes)
    → All IsMessage todo
    → rest ++ join chunks ≡ stream todo
    → Incomplete rest todo
    → feed (held rest) chunks ≡ (todo, held [])
unfolding feed join
feed_from [] todo rest ok e h =
    let (no_todo, no_rest) = nothing_left todo rest e h in rw (no_todo, no_rest)
feed_from (chunk ∷ chunks) todo rest ok e h =
    let d = receive-Delivered todo rest chunk (join chunks) ok e in
    feed_step todo chunks (receive (held rest) chunk) d (
      feed_from chunks d.todo d.rest (All-right _ d.todo (subst (All IsMessage) d.all_there ok))
        d.remaining d.incomplete)

nothing_yet : (msgs : List Bytes) → Incomplete [] msgs
nothing_yet [] = refl
nothing_yet (m ∷ ms) = omega arith

-- However the frames of a list of messages, none empty and none above 256 KiB, are cut into reads,
-- empty reads included: the messages come out whole, once each and in order, and the buffer ends
-- empty.
pub feed-stream :
    (msgs chunks : List Bytes)
    → All IsMessage msgs
    → join chunks ≡ stream msgs
    → feed empty_buffer chunks ≡ (msgs, empty_buffer)
unfolding empty_buffer
feed-stream msgs chunks ok e = feed_from chunks msgs [] ok e (nothing_yet msgs)
