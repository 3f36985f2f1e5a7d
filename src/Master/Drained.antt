-- ===== src/Master/Drained.antt =====
-- What a whole run of ec_master_send_datagrams does to the queue: everything that waits for the
-- device is sent, unless a datagram that no frame can hold stands in front of it.
use cherry_ecat.Prelude.{
  ℕ, zero, suc, ◌≤◌, ◌<◌, ◌≡◌, refl, List, [], ◌∷◌, some, true, false, if◌then◌else◌, Bool-cases,
  arith, inl, inr, length, ◌&&◌, ◌∙◌, subst,
}
use cherry_ecat.Datagram.{DatagramState}
use cherry_ecat.Master.{Master, contains}
use cherry_ecat.Master.Frame.{Fill, eligible, fill_frame}
use cherry_ecat.Master.Send.{send_rounds, send_datagrams, send_frame, start_fill, is_empty}
use cherry_ecat.Master.Progress.{eligible-send_frame, send_datagrams_total}
use cherry_ecat.Master.Progress.Round.{
  fill_frame-Same, mark_sent_state, mark_sent_rest, sent_from, sent_all, takes_some,
  contains-is_empty,
}

-- Each datagram of the queue that waits for the device fits into a frame of its own.
abbrev pub Fits : ℕ → Master → Type 0
Fits n m =
    (q : ℕ)
    → contains q m.queue ≡ true
    → eligible n (m.cells q) ≡ true
    → (m.cells q).data_size ≤ 1486

-- The state that each datagram has after the run.
abbrev pub state_after : ℕ → Master → ℕ → DatagramState
state_after n m q =
    if contains q m.queue && eligible n (m.cells q) then DatagramState.sent else (m.cells q).state

pub state-send_frame :
    (n : ℕ) (m : Master) (q : ℕ)
    → let f = fill_frame n m.queue (start_fill m) in
      ((send_frame n m f).cells q).state
      ≡ (if contains q f.sent then DatagramState.sent else (m.cells q).state)
unfolding send_frame
state-send_frame n m q = ground (
  arith,
  mark_sent_state (m.clock m.reads) f.sent f.cells q,
  fill_frame-Same n m.queue (start_fill m) q,
)
  where
    f : Fill
    f = fill_frame n m.queue (start_fill m)

pub data_size-send_frame :
    (n : ℕ) (m : Master) (q : ℕ)
    → let f = fill_frame n m.queue (start_fill m) in
      ((send_frame n m f).cells q).data_size ≡ (m.cells q).data_size
unfolding send_frame
data_size-send_frame n m q = ground (
  arith,
  mark_sent_rest (m.clock m.reads) f.sent f.cells q,
  fill_frame-Same n m.queue (start_fill m) q,
)
  where
    f : Fill
    f = fill_frame n m.queue (start_fill m)

pub queue-send_frame : (n : ℕ) (m : Master) (f : Fill) → (send_frame n m f).queue ≡ m.queue
unfolding send_frame
queue-send_frame n m f = refl

Fits-send_frame :
    (n : ℕ) (m : Master) → Fits n m → Fits n (send_frame n m (fill_frame n m.queue (start_fill m)))
unfolding send_frame
Fits-send_frame n m h q c e =
    ground (arith, h q, data_size-send_frame n m q, eligible-send_frame n m q)

-- The last round: nothing is left over.
last_round :
    (n : ℕ) (m : Master) (q : ℕ)
    → (fill_frame n m.queue (start_fill m)).more ≡ false
    → ((send_frame n m (fill_frame n m.queue (start_fill m))).cells q).state ≡ state_after n m q
last_round n m q h = ground (
  arith,
  state-send_frame n m q,
  sent_all n m.queue (start_fill m) q h,
  sent_from n m.queue (start_fill m) q,
)

-- A round before the last: what it leaves over, the rest of the run sends.
next_round :
    (n : ℕ) (m : Master) (q : ℕ)
    → let m' = send_frame n m (fill_frame n m.queue (start_fill m)) in
      state_after n m' q ≡ state_after n m q
next_round n m q = ground (
  arith,
  queue-send_frame n m (fill_frame n m.queue (start_fill m)),
  state-send_frame n m q,
  eligible-send_frame n m q,
  sent_from n m.queue (start_fill m) q,
)

-- The result of the rounds: the queue as it was, and every waiting datagram sent.
record Drained (n : ℕ) (m m' : Master) : Type 0 where
  pub same_queue : m'.queue ≡ m.queue
  pub states : (q : ℕ) → (m'.cells q).state ≡ state_after n m q

idle-Drained :
    (n : ℕ) (m : Master)
    → Fits n m
    → is_empty (fill_frame n m.queue (start_fill m)).sent ≡ true
    → Drained n m m
idle-Drained n m h a = record { same_queue = refl; states = λ q. left q }
  where
    left : (q : ℕ) → (m.cells q).state ≡ state_after n m q
    left q = ground (
      arith,
      takes_some n m.queue (start_fill m) refl refl refl h a,
      sent_all n m.queue (start_fill m) q,
      contains-is_empty q (fill_frame n m.queue (start_fill m)).sent,
    )

send_rounds_step :
    (fuel n : ℕ) (m : Master)
    → send_rounds (suc fuel) n m ≡ (
        let f = fill_frame n m.queue (start_fill m) in
        if is_empty f.sent
        then some m
        else if f.more
        then send_rounds fuel n (send_frame n m f)
        else some (send_frame n m f))
unfolding send_rounds
send_rounds_step fuel n m = refl

send_rounds-Drained :
    (fuel n : ℕ) (m m' : Master) → Fits n m → send_rounds fuel n m ≡ some m' → Drained n m m'
send_rounds-Drained zero n m m' h e = absurd (no_fuel n m e)
  where
    no_fuel : (n : ℕ) (m : Master) → send_rounds zero n m ≡ some m' → ⊥
    no_fuel n m e = unfold send_rounds in cc
send_rounds-Drained (suc fuel) n m m' h e = elim (Bool-cases (is_empty f.sent)) [
  | inl a ↦ moved m (idle-Drained n m h a) (ground (arith, send_rounds_step fuel n m))
  | inr a ↦ elim (Bool-cases f.more) [
    | inl g ↦ again (
        send_rounds-Drained fuel n (send_frame n m f) m' (Fits-send_frame n m h)
          (ground (arith, send_rounds_step fuel n m)))
    | inr g ↦
        moved (send_frame n m f)
          (record { same_queue = queue-send_frame n m f; states = λ q. last_round n m q g })
          (ground (arith, send_rounds_step fuel n m))
  ]
]
  where
    f : Fill
    f = fill_frame n m.queue (start_fill m)

    moved : (a : Master) {b : Master} → Drained n m a → a ≡ b → Drained n m b
    moved a d p = subst (Drained n m) p d

    again : Drained n (send_frame n m f) m' → Drained n m m'
    again d = record {
      same_queue = d.same_queue ∙ queue-send_frame n m f;
      states = λ q. d.states q ∙ next_round n m q;
    }

-- Where every datagram of the queue that waits for a device has at most 1486 bytes of data,
-- ec_master_send_datagrams on that device returns with the queue unchanged and exactly those
-- datagrams set to SENT: every other datagram keeps its state.
pub send_datagrams_drains :
    (n : ℕ) (m : Master)
    → Fits n m
    → (m' : Master) × (send_datagrams n m ≡ some m')
      × (m'.queue ≡ m.queue)
      × ((q : ℕ) → (m'.cells q).state ≡ state_after n m q)
send_datagrams_drains n m h =
    let (m', e) = send_datagrams_total n m in
    let d = send_rounds-Drained (suc (length m.queue)) n m m' h (unfold send_datagrams in e) in
    (m', e, d.same_queue, d.states)

-- Where the first datagram of the queue waits for a device and has more than 1486 bytes of data,
-- ec_master_send_datagrams on that device sends nothing and changes nothing, whatever else waits
-- behind it.
pub send_datagrams_blocked :
    (n p : ℕ) (ps : List ℕ) (m : Master)
    → m.queue ≡ p ∷ ps
    → eligible n (m.cells p) ≡ true
    → 1486 < (m.cells p).data_size
    → send_datagrams n m ≡ some m
unfolding send_datagrams send_rounds
send_datagrams_blocked n p ps m q e h = ground (arith, blocked)
  where
    blocked : (fill_frame n m.queue (start_fill m)).sent ≡ []
    blocked = rw q (unfold fill_frame in ground arith)
