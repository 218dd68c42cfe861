-- ===== src/Session/Writes.antt =====
-- The write queue while it does not overflow: every message is written once, in the order of the
-- calls of post_write, and one write is in flight at a time.
use server_application.Common.{
  ℕ, ◌-◌, ◌≤◌, ◌<◌, ◌≡◌, ◌≢◌, refl, sym, ap, ◌∙◌, ◌⊎◌, inl, inr, Bool, true, false, ◌||◌, Option,
  none, some, List, [], ◌∷◌, ◌++◌, append_assoc, append-nil, arith, leb, length, length-append, pop,
  Text, Bool-cases,
}
use server_application.Session.{Session, Config, closed_state}
use server_application.Session.Queues.{enqueue_write, post_write, on_written}

pub length-pop : (q : List Text) → length (pop q) ≡ length q - 1
length-pop [] = omega arith
length-pop (m ∷ q) = omega arith

-- With a limit that is not 0, enqueue_write keeps a queue that is within the limit within it.
enqueue_write_bounded :
    (c : Config) (s : Session) (msg : Text)
    → 0 < c.max_write_queue_size
    → length s.write_queue ≤ c.max_write_queue_size
    → length (enqueue_write c s msg).0.write_queue ≤ c.max_write_queue_size
unfolding enqueue_write
enqueue_write_bounded c s msg room h = ground (
  arith,
  length-append s.write_queue (msg ∷ []),
  length-append (pop s.write_queue) (msg ∷ []),
  length-pop s.write_queue,
)

pub data Event : Type 0 where
  post : Text → Event
  complete : Event

-- A session with its outstanding write, and what has been posted and started so far.
pub record Link : Type 0 where
  pub session : Session
  pub in_flight : Option (ℕ × Text)
  pub started : List Text
  pub posted : List Text
  pub overflowed : Bool

unfoldable pub began : Option (ℕ × Text) → List Text
began none = []
began (some (generation, msg)) = msg ∷ []

is_some : Option (ℕ × Text) → Bool
is_some none = false
is_some (some w) = true

unfoldable pub flight_after : Option (ℕ × Text) → Option (ℕ × Text) → Option (ℕ × Text)
flight_after before none = before
flight_after before (some w) = some w

-- `complete` is the success of the write in flight; without one it does nothing.
unfoldable pub step : Config → Link → Event → Link
unfolding began flight_after
step c l (post msg) =
    let (s', close, started) = post_write c l.session msg in
    record {
      session = s';
      in_flight = flight_after l.in_flight started;
      started = l.started ++ began started;
      posted = l.posted ++ msg ∷ [];
      overflowed = l.overflowed || leb c.max_write_queue_size (length l.session.write_queue);
    }
step c l complete = elim l.in_flight [
  | none ↦ l
  | some (generation, msg) ↦
      let (s', close, started) = on_written l.session generation false in
      record l { session = s'; in_flight = started; started = l.started ++ began started }
]

unfoldable pub run : Config → Link → List Event → Link
run c l [] = l
run c l (e ∷ es) = run c (step c l e) es

unfoldable pub fresh : Session → Link
fresh s = record { session = s; in_flight = none; started = []; posted = []; overflowed = false }

-- The front of the queue is in flight, and what was posted is what was started and then the rest of
-- the queue.
record Inv (l : Link) : Type 0 where
  serving : l.session.state ≢ closed_state
  flight :
      (l.session.write_queue ≡ []) × (l.in_flight ≡ none)
      ⊎ ((m : Text) × (q : List Text) × (l.session.write_queue ≡ m ∷ q)
          × (l.in_flight ≡ some (l.session.generation, m)))
  in_order : l.started ++ pop l.session.write_queue ≡ l.posted

-- What the operations do to the fields that the queue depends on.
abbrev SameSide : Session → Session → Type 0
SameSide s t = (t.state ≡ s.state) × (t.generation ≡ s.generation)

post_write_idle :
    (c : Config) (s : Session) (msg : Text)
    → s.state ≢ closed_state
    → s.write_queue ≡ []
    → leb c.max_write_queue_size (length s.write_queue) ≡ false
    → ((post_write c s msg).0.write_queue ≡ msg ∷ [])
      × ((post_write c s msg).2 ≡ some (s.generation, msg))
      × SameSide s (post_write c s msg).0
unfolding post_write
post_write_idle c s msg serving empty room = ground arith

post_write_busy :
    (c : Config) (s : Session) (msg m : Text) (q : List Text)
    → s.write_queue ≡ m ∷ q
    → leb c.max_write_queue_size (length s.write_queue) ≡ false
    → ((post_write c s msg).0.write_queue ≡ m ∷ q ++ msg ∷ [])
      × ((post_write c s msg).2 ≡ none)
      × SameSide s (post_write c s msg).0
unfolding post_write
post_write_busy c s msg m q busy room = ground arith

on_written_next :
    (s : Session) (m : Text) (q : List Text)
    → s.state ≢ closed_state
    → s.write_queue ≡ m ∷ q
    → ((on_written s s.generation false).0.write_queue ≡ q)
      × SameSide s (on_written s s.generation false).0
unfolding on_written
on_written_next s m q serving e = ground arith

-- The write that a completion starts is that of the next message.
next_write : ℕ → List Text → Option (ℕ × Text)
next_write generation [] = none
next_write generation (x ∷ r) = some (generation, x)

on_written_starts :
    (s : Session) (m : Text) (q : List Text)
    → s.state ≢ closed_state
    → s.write_queue ≡ m ∷ q
    → (on_written s s.generation false).2 ≡ next_write s.generation q
unfolding on_written next_write
on_written_starts s m [] serving e = ground arith
on_written_starts s m (x ∷ r) serving e = ground arith

no_overflow : (a b : Bool) → a || b ≡ false → (a ≡ false) × (b ≡ false)
no_overflow a b h = ground arith

waiting :
    (started posted queue queue' : List Text)
    → queue ≡ queue'
    → started ++ pop queue ≡ posted
    → started ++ pop queue' ≡ posted
waiting started posted queue queue' e h = rw e at h

flight_of :
    (q : List Text) (generation : ℕ)
    → (q ≡ []) × (next_write generation q ≡ none)
      ⊎ ((m : Text) × (r : List Text) × (q ≡ m ∷ r)
          × (next_write generation q ≡ some (generation, m)))
unfolding next_write
flight_of [] generation = inl (refl, refl)
flight_of (x ∷ r) generation = inr (x, r, refl, refl)

began_then_rest :
    (generation : ℕ) (started q : List Text)
    → started ++ began (next_write generation q) ++ pop q ≡ started ++ q
unfolding began next_write
began_then_rest generation started [] = append-nil (started ++ [])
began_then_rest generation started (x ∷ r) = append_assoc started (x ∷ []) r

post-Inv :
    (c : Config) (l : Link) (msg : Text)
    → leb c.max_write_queue_size (length l.session.write_queue) ≡ false
    → Inv l
    → Inv (step c l (post msg))
unfolding step began flight_after
post-Inv c l msg room v = elim v.flight [
  | inl (empty, no_write) ↦
      let (q', started, side) = post_write_idle c l.session msg v.serving empty room in
      record {
        serving = rw (side.0) v.serving;
        flight = inr (msg, [], q', rw (started, side.1));
        in_order =
            rw (started, q', append-nil)
              (ap (λ xs. xs ++ msg ∷ [])
                (sym (append-nil l.started) ∙ waiting l.started l.posted _ [] empty v.in_order));
      }
  | inr (m, q, busy, in_air) ↦
      let (q', started, side) = post_write_busy c l.session msg m q busy room in
      record {
        serving = rw (side.0) v.serving;
        flight = inr (m, q ++ msg ∷ [], q', rw (started, side.1) in_air);
        in_order =
            rw (started, q', append-nil)
              (sym (append_assoc l.started q (msg ∷ []))
                ∙ ap (λ xs. xs ++ msg ∷ []) (waiting l.started l.posted _ (m ∷ q) busy v.in_order));
      }
]

complete-Inv : (c : Config) (l : Link) → Inv l → Inv (step c l complete)
unfolding step began next_write
complete-Inv c l v = elim v.flight [
  | inl (empty, no_write) ↦ rw (no_write, step) v
  | inr (m, q, busy, in_air) ↦
      let (q', side) = on_written_next l.session m q v.serving busy in
      let starts = on_written_starts l.session m q v.serving busy in
      rw (in_air, step)
        (record {
          serving = rw (side.0) v.serving;
          flight = rw (q', starts, side.1) (flight_of q l.session.generation);
          in_order =
              rw (q', starts)
                (began_then_rest l.session.generation l.started q
                  ∙ waiting l.started l.posted _ (m ∷ q) busy v.in_order);
        })
]

room_at_post :
    (c : Config) (l : Link) (msg : Text)
    → (step c l (post msg)).overflowed ≡ false
    → leb c.max_write_queue_size (length l.session.write_queue) ≡ false
unfolding step
room_at_post c l msg o = (no_overflow l.overflowed _ o).1

step-Inv :
    (c : Config) (l : Link) (e : Event) → (step c l e).overflowed ≡ false → Inv l → Inv (step c l e)
step-Inv c l (post msg) o v = post-Inv c l msg (room_at_post c l msg o) v
step-Inv c l complete o v = complete-Inv c l v

step-overflowed :
    (c : Config) (l : Link) (e : Event) → l.overflowed ≡ true → (step c l e).overflowed ≡ true
unfolding step
step-overflowed c l e o = ground arith

run-overflowed :
    (c : Config) (l : Link) (es : List Event) → l.overflowed ≡ true → (run c l es).overflowed ≡ true
unfolding run
run-overflowed c l [] o = o
run-overflowed c l (e ∷ es) o = run-overflowed c (step c l e) es (step-overflowed c l e o)

run-Inv :
    (c : Config) (l : Link) (es : List Event)
    → (run c l es).overflowed ≡ false
    → Inv l
    → Inv (run c l es)
unfolding run
run-Inv c l [] o v = v
run-Inv c l (e ∷ es) o v = elim (Bool-cases (step c l e).overflowed) [
  | inl over ↦ cc (run-overflowed c (step c l e) es over)
  | inr fine ↦ run-Inv c (step c l e) es o (step-Inv c l e fine v)
]

fresh-Inv : (s : Session) → s.state ≢ closed_state → s.write_queue ≡ [] → Inv (fresh s)
unfolding fresh
fresh-Inv s serving empty = record {
  serving = serving;
  flight = inl (empty, refl);
  in_order = rw empty;
}

-- From a session that is not closed and has nothing to write, over any posts and completed writes
-- in which no post finds the queue full: the messages whose writes have started, followed by those
-- that wait behind the write in flight, are all the messages posted, in order; and the message in
-- flight is the queue's front, or the queue is empty and nothing is in flight.
pub run_in_order :
    (c : Config) (s : Session) (es : List Event)
    → s.state ≢ closed_state
    → s.write_queue ≡ []
    → (run c (fresh s) es).overflowed ≡ false
    → let l = run c (fresh s) es in
      (l.started ++ pop l.session.write_queue ≡ l.posted)
      × ((l.session.write_queue ≡ []) × (l.in_flight ≡ none)
          ⊎ ((m : Text) × (q : List Text) × (l.session.write_queue ≡ m ∷ q)
              × (l.in_flight ≡ some (l.session.generation, m))))
run_in_order c s es serving empty o =
    let v = run-Inv c (fresh s) es o (fresh-Inv s serving empty) in (v.in_order, v.flight)
