-- ===== src/Slave/Arrives.antt =====
-- src/ec_slave.c, ec_slave_state_change: it succeeds if the slave gets there in time.
use cherry_ecat.Prelude.{
  subst, sym, set, ◌/◌, ◌%◌, copy_into, zero_prefix, ℕ, zero, suc, ◌+◌, ◌<◌, ◌≡◌, refl, List, [],
  ◌∷◌, ◌++◌, map, true, false, arith, length, sub_mod, u64_mod, ◌==◌, ltb,
}
use cherry_ecat.Datagram.Fill.{fprd, fill, zero_data}
use cherry_ecat.Master.Receive.{deliver}
use cherry_ecat.Exchange.{Io, M, Out, ok, Event, received, queue_ext_datagram, wait, finish_wait}
use cherry_ecat.Datagram.Fill.{fpwr}
use cherry_ecat.Slave.State.{
  state_change, write_control, state_change_timeout_ns, read_register, read_state, or_timeout,
  poll_state,
}
use cherry_ecat.Slave.StateFacts.{stopped}

-- The slave answers with its state.
abbrev pub answer : ℕ → Event
answer s = received 1 (s ∷ 0 ∷ [])

-- States that a slave goes through, from the state `old` on, on its way to the requested one: other
-- states, and no stop with an error.
abbrev pub Approach : ℕ → ℕ → List ℕ → Type 0
Approach requested old [] = Unit {0}
Approach requested old (s ∷ ss) =
    ((s == requested) ≡ false) × (stopped s old ≡ false) × Approach requested s ss

-- No reading of the clock is later than the time that a change to the requested state may take.
abbrev pub Patient : (ℕ → ℕ) → ℕ → ℕ → Type 0
Patient clock start_time requested =
    (n s : ℕ)
    → ltb (state_change_timeout_ns s requested) (sub_mod u64_mod (clock n) start_time) ≡ false

-- A state with these events to come and these bytes in the datagram.
abbrev at : Io → ℕ → List ℕ → List Event → Io
at w b bs es = record w { events = es; datagram = record (w.datagram) { buf = b ∷ bs } }

-- A change has succeeded, the events `rest` being left.
abbrev pub Arrived : ℕ → ℕ → List Event → Out (Unit {0}) × Io → Type 0
Arrived i requested rest r =
    (r.0 ≡ ok tt) × (r.1.events ≡ rest) × ((r.1.slaves i).current_state ≡ requested)

Arrived-or_timeout :
    (i requested start_time s : ℕ) (rest : List Event) (m : M (Unit {0})) (w : Io)
    → Patient w.clock start_time requested
    → Arrived i requested rest (m (record w { reads = w.reads + 1 }))
    → Arrived i requested rest (or_timeout start_time s requested m w)
unfolding or_timeout
Arrived-or_timeout i requested start_time s rest m w p h = rw (p w.reads s) h

itself : (n : ℕ) → (n == n) ≡ true
itself n = ground arith

poll_state-Arrived :
    (ss : List ℕ) (fuel i requested old start_time : ℕ) (w : Io) (b : ℕ) (bs : List ℕ)
    (rest : List Event)
    → length ss < fuel
    → Approach requested old ss
    → Patient w.clock start_time requested
    → Arrived i requested rest (
        poll_state fuel i requested old start_time
          (at w b bs (map answer ss ++ answer requested ∷ rest)))
unfolding poll_state read_state read_register queue_ext_datagram wait finish_wait deliver zero_data
    fprd fill
poll_state-Arrived ss zero i requested old start_time w b bs rest h a p = absurd (omega arith)
poll_state-Arrived [] (suc fuel) i requested old start_time w b bs rest h a p =
    rw (itself requested) (refl, refl, ground arith)
poll_state-Arrived (s ∷ ss) (suc fuel) i requested old start_time w b bs rest h a p =
    let es = map answer ss ++ answer requested ∷ rest in
    let w1 = (read_state i (at w b bs (answer s ∷ es))).1 in
    let w2 = record w1 { reads = w1.reads + 1 } in
    rw a.0 (
      rw a.1 (
        Arrived-or_timeout i requested start_time s rest (poll_state fuel i requested s start_time)
          w1 p
          (poll_state-Arrived ss fuel i requested s start_time w2 s
            (copy_into (0 ∷ []) (zero_prefix 1 bs)) rest (omega arith) a.2 p)))

answers_fit : (ss : List ℕ) (es : List Event) → length ss < suc (length (map answer ss ++ es))
answers_fit [] es = omega arith
answers_fit (s ∷ ss) es = omega (arith, answers_fit ss es)

state_change-at :
    (i requested : ℕ) (x ss : List ℕ) (w : Io) (b : ℕ) (bs : List ℕ) (rest : List Event)
    → Approach requested (w.slaves i).current_state ss
    → Patient w.clock (w.clock w.reads) requested
    → Arrived i requested rest (
        state_change i requested
          (at w b bs (received 1 x ∷ (map answer ss ++ answer requested ∷ rest))))
unfolding state_change write_control queue_ext_datagram wait finish_wait deliver fpwr fill
state_change-at i requested x ss w b bs rest a p =
    let es = map answer ss ++ answer requested ∷ rest in
    let w1 = at w b bs (received 1 x ∷ es) in
    let w2 = (write_control i requested (record w1 { reads = w1.reads + 1 })).1 in
    poll_state-Arrived ss (suc (length es)) i requested (w.slaves i).current_state (w.clock w.reads)
      w2 (requested % 256) (set bs 0 (requested / 256 % 256)) rest
      (answers_fit ss (answer requested ∷ rest)) a p

-- A state change gets there. Let the slave take the write of the requested state, answer the
-- readings of its status with states on the way (neither the requested state nor a stop with an
-- error) and at last with the requested state, each answer by one slave, and let no reading of the
-- clock be later than the time for the change. Then ec_slave_state_change returns without an error
-- as soon as that last answer has come, and leaves the requested state as the slave's current state.
pub state_change-Arrived :
    (i requested : ℕ) (x ss : List ℕ) (w : Io) (b : ℕ) (bs : List ℕ) (rest : List Event)
    → w.datagram.buf ≡ b ∷ bs
    → w.events ≡ received 1 x ∷ (map answer ss ++ answer requested ∷ rest)
    → Approach requested (w.slaves i).current_state ss
    → Patient w.clock (w.clock w.reads) requested
    → Arrived i requested rest (state_change i requested w)
state_change-Arrived i requested x ss w b bs rest eb ee a p =
    subst (λ (v : Io). Arrived i requested rest (state_change i requested v))
      (sym (λ j. record w { events = ee j; datagram = record (w.datagram) { buf = eb j } }))
      (state_change-at i requested x ss w b bs rest a p)
