-- ===== src/Session/Race.antt =====
-- Any number of threads in Session::try_close at once. A thread makes two atomic exchanges, one
-- after the other; a schedule says which thread moves next.
use server_application.Common.{
  ◌∙◌, ◌<◌, ℕ, zero, suc, ◌≤◌, ◌≡◌, refl, ◌⊎◌, inl, inr, List, [], ◌∷◌, All, arith, if◌then◌else◌,
  length,
}
use server_application.Session.{
  LifeState, idle, active, closing, closed_life, released, close_active, close_idle,
}
use server_application.Session.Life.{IsOpen}

pub data Thread : Type 0 where
  at_first at_second won lost : Thread

pub record Threads : Type 0 where
  pub life : LifeState
  pub threads : List Thread

-- One exchange of one thread.
unfoldable pub move : LifeState → Thread → LifeState × Thread
move l at_first = let (l', done) = close_active l in (l', if done then won else at_second)
move l at_second = let (l', done) = close_idle l in (l', if done then won else lost)
move l won = (l, won)
move l lost = (l, lost)

unfoldable pub move_at : LifeState → List Thread → ℕ → LifeState × List Thread
move_at l [] i = (l, [])
move_at l (t ∷ ts) zero = let (l', t') = move l t in (l', t' ∷ ts)
move_at l (t ∷ ts) (suc i) = let (l', ts') = move_at l ts i in (l', t ∷ ts')

unfoldable pub race : List ℕ → Threads → Threads
race [] st = st
race (i ∷ schedule) st =
    let (l, ts) = move_at st.life st.threads i in race schedule (record { life = l; threads = ts })

unfoldable pub starting : ℕ → List Thread
starting zero = []
starting (suc n) = at_first ∷ starting n

abbrev pub wins : List Thread → ℕ
wins [] = 0
wins (won ∷ ts) = suc (wins ts)
wins (_ ∷ ts) = wins ts

-- Where a thread may stand while nobody has won.
abbrev Possible : LifeState → Thread → Type 0
Possible active t = t ≡ at_first
Possible idle t = (t ≡ at_first) ⊎ (t ≡ at_second)
Possible _ t = Unit {0}

record Inv (l : LifeState) (ts : List Thread) : Type 0 where
  possible : All (Possible l) ts
  undecided_or_won : ((wins ts ≡ 0) × IsOpen l) ⊎ ((wins ts ≡ 1) × (l ≡ closing))

-- A step either changes neither the state nor the number of winners, or makes the first winner.
abbrev Moved : LifeState → List Thread → LifeState → List Thread → Type 0
Moved l ts l' ts' =
    ((l' ≡ l) × (wins ts' ≡ wins ts) × All (Possible l) ts')
    ⊎ (IsOpen l × (l' ≡ closing) × (wins ts' ≡ suc (wins ts)))

move-Moved :
    (l : LifeState) (t : Thread) (ts : List Thread)
    → All (Possible l) (t ∷ ts)
    → Moved l (t ∷ ts) (move l t).0 ((move l t).1 ∷ ts)
unfolding move
move-Moved idle at_first ts p = inl (refl, refl, (inr refl, p.1))
move-Moved _ _ ts p = ground arith

keep-Moved :
    (l l' : LifeState) (t : Thread) (ts ts' : List Thread)
    → Possible l t
    → Moved l ts l' ts'
    → Moved l (t ∷ ts) l' (t ∷ ts')
keep-Moved l l' at_first ts ts' p m = ground arith
keep-Moved l l' at_second ts ts' p m = ground arith
keep-Moved l l' won ts ts' p m = ground arith
keep-Moved l l' lost ts ts' p m = ground arith

move_at-Moved :
    (l : LifeState) (ts : List Thread) (i : ℕ)
    → All (Possible l) ts
    → Moved l ts (move_at l ts i).0 (move_at l ts i).1
unfolding move_at
move_at-Moved l [] i p = inl (refl, refl, tt)
move_at-Moved l (t ∷ ts) zero p = move-Moved l t ts p
move_at-Moved l (t ∷ ts) (suc i) p =
    keep-Moved l (move_at l ts i).0 t ts (move_at l ts i).1 p.0 (move_at-Moved l ts i p.1)

closing_for_each : (ts : List Thread) → All (Possible closing) ts
closing_for_each [] = tt
closing_for_each (t ∷ ts) = (tt, closing_for_each ts)

Moved-Inv : (l l' : LifeState) (ts ts' : List Thread) → Inv l ts → Moved l ts l' ts' → Inv l' ts'
Moved-Inv l l' ts ts' v (inl (same, wins_same, p)) = record {
  possible = rw same p;
  undecided_or_won = rw (same, wins_same) v.undecided_or_won;
}
Moved-Inv l l' ts ts' v (inr (open_before, e, one_more)) = record {
  possible = rw e (closing_for_each ts');
  undecided_or_won = ground (arith, v.undecided_or_won);
}

race-Inv :
    (schedule : List ℕ) (st : Threads)
    → Inv st.life st.threads
    → Inv (race schedule st).life (race schedule st).threads
unfolding race
race-Inv [] st v = v
race-Inv (i ∷ schedule) st v =
    race-Inv schedule _
      (Moved-Inv st.life _ st.threads _ v (move_at-Moved st.life st.threads i v.possible))

starting-Possible : (l : LifeState) (n : ℕ) → IsOpen l → All (Possible l) (starting n)
unfolding starting
starting-Possible l zero o = tt
starting-Possible l (suc n) o = (first l o, starting-Possible l n o)
  where
    first : (k : LifeState) → IsOpen k → Possible k at_first
    first idle q = inl refl
    first active q = refl
    first closing q = tt
    first closed_life q = tt
    first released q = tt

wins-starting : (n : ℕ) → wins (starting n) ≡ 0
unfolding starting
wins-starting zero = refl
wins-starting (suc n) = wins-starting n

-- A thread whose call has returned.
abbrev pub HasReturned : Thread → Type 0
HasReturned t = (t ≡ won) ⊎ (t ≡ lost)

returned-closing :
    (l : LifeState) (t : Thread) (ts : List Thread)
    → Inv l (t ∷ ts)
    → All HasReturned (t ∷ ts)
    → (wins (t ∷ ts) ≡ 1) × (l ≡ closing)
returned-closing l t ts v r = elim v.undecided_or_won [
  | inl (_, o) ↦ absurd (not_returned l t o v.possible.0 r.0)
  | inr h ↦ h
]
  where
    not_returned : (k : LifeState) (t : Thread) → IsOpen k → Possible k t → HasReturned t → ⊥
    not_returned idle t o p r = ground arith
    not_returned active t o p r = ground arith
    not_returned closing t o p r = ground arith
    not_returned closed_life t o p r = ground arith
    not_returned released t o p r = ground arith

length-move_at : (l : LifeState) (ts : List Thread) (i : ℕ) → length (move_at l ts i).1 ≡ length ts
unfolding move_at
length-move_at l [] i = refl
length-move_at l (t ∷ ts) zero = refl
length-move_at l (t ∷ ts) (suc i) = omega (arith, length-move_at l ts i)

length-race :
    (schedule : List ℕ) (st : Threads) → length (race schedule st).threads ≡ length st.threads
unfolding race
length-race [] st = refl
length-race (i ∷ schedule) st = length-race schedule _ ∙ length-move_at st.life st.threads i

one_winner :
    (l : LifeState) (ts : List Thread)
    → Inv l ts
    → 0 < length ts
    → All HasReturned ts
    → (wins ts ≡ 1) × (l ≡ closing)
one_winner l [] v h r = absurd (omega arith)
one_winner l (t ∷ ts) v h r = returned-closing l t ts v r

length-starting : (n : ℕ) → length (starting n) ≡ n
unfolding starting
length-starting zero = refl
length-starting (suc n) = omega (arith, length-starting n)

start-Inv : (l : LifeState) (n : ℕ) → IsOpen l → Inv l (starting n)
start-Inv l n o = record {
  possible = starting-Possible l n o;
  undecided_or_won = inl (wins-starting n, o);
}

-- Of any number of concurrent calls of try_close on a session in Idle or Active at most one has won,
-- at any time and under any schedule.
race_at_most_one :
    (l : LifeState) (n : ℕ) (schedule : List ℕ)
    → IsOpen l
    → wins (race schedule (record { life = l; threads = starting n })).threads ≤ 1
race_at_most_one l n schedule o =
    let v = race-Inv schedule (record { life = l; threads = starting n }) (start-Inv l n o) in
    ground (arith, v.undecided_or_won)

-- Of any number of concurrent calls of try_close, one at least, on a session in Idle or Active,
-- under any schedule of their exchanges after which all have returned: exactly one has won, and the
-- session is Closing.
pub race_one_winner :
    (l : LifeState) (n : ℕ) (schedule : List ℕ)
    → IsOpen l
    → 0 < n
    → All HasReturned (race schedule (record { life = l; threads = starting n })).threads
    → (wins (race schedule (record { life = l; threads = starting n })).threads ≡ 1)
      × ((race schedule (record { life = l; threads = starting n })).life ≡ closing)
race_one_winner l n schedule o h r =
    let st : Threads = record { life = l; threads = starting n } in
    one_winner _ _ (race-Inv schedule st (start-Inv l n o))
      (omega (arith, length-race schedule st, length-starting n)) r
