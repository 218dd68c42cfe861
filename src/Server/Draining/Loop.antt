-- ===== src/Server/Draining/Loop.antt =====
-- The loop over the messages of one read.
use server_application.Common.{
  ℕ, zero, suc, ◌+◌, ◌<◌, ◌≤◌, ◌≡◌, inl, inr, refl, ap, Bool, Option-cases, some, arith, Text,
}
use server_application.Json.{Codec}
use server_application.Framing.{extract_message}
use server_application.Framing.Extract.{extract_message-Outcome, Outcome-some}
use server_application.Session.{Config}
use server_application.Server.{ServerState, session_of, on_session}
use server_application.Server.Messages.{on_message, take_messages}
use server_application.Server.Buffers.{buffered, bytes_of, modify_self}
use server_application.Server.Draining.{on_message-Shrinks}

module _ {J : Type 0} (codec : Codec J) (c : Config) (db_connected : Bool) (now r : ℕ) where
  -- What the loop works on after a message was cut off.
  abbrev cut : ServerState → ServerState
  cut w = on_session r (λ s. record s { msg_buf = (extract_message (session_of w r).msg_buf).0 }) w

  cut-buffered :
      (w : ServerState) (text : Text)
      → (extract_message (session_of w r).msg_buf).1 ≡ some text
      → buffered (cut w) r + 5 ≤ buffered w r
  unfolding on_session
  cut-buffered w text e =
      let b = (session_of w r).msg_buf in
      let shorter = Outcome-some b.bytes _ text (extract_message-Outcome b) e in
      let placed = ap bytes_of (
        modify_self r (λ s. record s { msg_buf = (extract_message b).0 }) w.pool.sessions
          (omega (arith, shorter))) in
      omega (arith, shorter, placed)

  abbrev next_message : Text → ServerState → ServerState
  next_message text w = on_message codec c db_connected now r text (cut w)

  next_message-buffered :
      (w : ServerState) (text : Text)
      → (extract_message (session_of w r).msg_buf).1 ≡ some text
      → buffered (next_message text w) r < buffered w r
  next_message-buffered w text e = omega (
    arith,
    cut-buffered w text e,
    (on_message-Shrinks codec c (cut w) db_connected now r text (cut w)
          (record { shrinks = λ i. omega arith })).shrinks
        r,
  )

  -- The loop over the messages of a read, given more rounds than the session's buffer has bytes, does
  -- what it does with any other such number of rounds, whatever the handlers of the messages do to
  -- this session and to others.
  pub take_messages_enough :
      (fuel more : ℕ) (w : ServerState)
      → buffered w r < fuel
      → buffered w r < more
      → take_messages codec c fuel db_connected now r w
        ≡ take_messages codec c more db_connected now r w
  unfolding take_messages
  take_messages_enough zero more w h k = absurd (omega (arith, h))
  take_messages_enough (suc fuel) zero w h k = absurd (omega (arith, k))
  take_messages_enough (suc fuel) (suc more) w h k =
      elim (Option-cases (extract_message (session_of w r).msg_buf).1) [
        | inl e ↦ rw (e, take_messages) refl
        | inr (text, e) ↦
            let less = next_message-buffered w text e in
            rw (e, take_messages)
              (take_messages_enough fuel more (next_message text w) (omega (arith, less, h))
                (omega (arith, less, k)))
      ]
