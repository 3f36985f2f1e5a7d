-- ===== src/Tests/Queue.antt =====
-- Runs of the datagram queue of src/ec_master.c.
use cherry_ecat.Prelude.{
  ℕ, ◌+◌, ◌≡◌, refl, List, [], ◌∷◌, map, true, false, some, arith, ap, length, get_or, replicate,
  if◌then◌else◌, ◌==◌,
}
use cherry_ecat.Datagram.{Datagram, DatagramType, DatagramState}
use cherry_ecat.Master.{Master, queue_datagram}
use cherry_ecat.Master.Frame.{add_datagram, fill_frame}
use cherry_ecat.Master.Send.{send_datagrams, start_fill, finish_frame}
use cherry_ecat.Master.Receive.{receive_datagrams}
use cherry_ecat.Master.Queue.{IsValid, queue_datagram-IsValid}
use cherry_ecat.Master.Retire.{Retires}
use cherry_ecat.Master.Complete.{receive_datagrams-Retires}
use cherry_ecat.Master.Drained.{state_after, send_datagrams_drains, send_datagrams_blocked}
use cherry_ecat.Master.Wire.Frames.{FramesOk, send_datagrams-FramesOk}
use cherry_ecat.Master.Wire.Layout.{body-eq-wire, wire, number}
use cherry_ecat.Master.Wire.Replay.{Answer, take_answers}
use cherry_ecat.Master.Wire.Echo.{receive_datagrams-echo, untouched}

-- A queued read of two bytes on the first device, somebody waiting for it.
abbrev pub read_two : Datagram
read_two = record {
  netdev_idx = 0;
  type = DatagramType.fprd;
  static_alloc = false;
  address = 1 ∷ 16 ∷ 48 ∷ 1 ∷ [];
  buf = 0 ∷ 0 ∷ [];
  mem_size = 2;
  data_size = 2;
  index = 0;
  working_counter = 0;
  state = DatagramState.queued;
  jiffies_sent = 0;
  jiffies_received = 0;
  waiter = true;
}

-- Two such datagrams in the queue.
abbrev pub two_queued : Master
two_queued = record {
  cells = λ q. read_two;
  queue = 3 ∷ 5 ∷ [];
  datagram_index = 254;
  timeouts = 0;
  corrupted = 0;
  unmatched = 0;
  wakeups = [];
  frames = [];
  clock = λ n. 1000 + n;
  reads = 0;
}

-- The first of two is longer than any frame.
abbrev one_oversize : Master
one_oversize = record two_queued {
  cells = λ q.
      if q == 3
      then record read_two { data_size = 2000; mem_size = 2000; buf = replicate 2000 0 }
      else read_two;
}

abbrev sent_frame : List ℕ
sent_frame = finish_frame (fill_frame 0 two_queued.queue (start_fill two_queued)).body

abbrev answer : Answer
answer = record {
  code = 4;
  index = 254;
  a0 = 1;
  a1 = 16;
  a2 = 48;
  a3 = 1;
  irq0 = 0;
  irq1 = 0;
  bytes = 8 ∷ 0 ∷ [];
  working_counter = 1;
}

two_queued-IsValid : IsValid two_queued
two_queued-IsValid = record { distinct = (refl, (refl, tt)); live = λ p c. refl }

send_datagrams_drains_example :
    (m' : Master) × (send_datagrams 0 two_queued ≡ some m')
    × (m'.queue ≡ two_queued.queue)
    × ((q : ℕ) → (m'.cells q).state ≡ state_after 0 two_queued q)
send_datagrams_drains_example = send_datagrams_drains 0 two_queued (λ q c e. omega arith)

send_datagrams_blocked_example : send_datagrams 0 one_oversize ≡ some one_oversize
send_datagrams_blocked_example =
    send_datagrams_blocked 0 3 (5 ∷ []) one_oversize refl refl (omega arith)

queue_datagram-IsValid_example : IsValid (queue_datagram two_queued 5)
queue_datagram-IsValid_example = queue_datagram-IsValid two_queued 5 two_queued-IsValid

receive_datagrams-Retires_example :
    (m' : Master) × (receive_datagrams (λ i. get_or sent_frame i 0) 46 two_queued ≡ some m')
    × Retires two_queued m'
receive_datagrams-Retires_example =
    receive_datagrams-Retires (λ i. get_or sent_frame i 0) 46 two_queued (refl, (refl, tt))

send_datagrams-FramesOk_example :
    (m' : Master) × (send_datagrams 0 two_queued ≡ some m') × FramesOk m'
send_datagrams-FramesOk_example = send_datagrams-FramesOk 0 two_queued tt

body-eq-wire_example :
    (fill_frame 0 two_queued.queue (start_fill two_queued)).body
    ≡ wire
        (number two_queued.cells 254 (fill_frame 0 two_queued.queue (start_fill two_queued)).sent)
body-eq-wire_example = body-eq-wire 0 two_queued

receive_datagrams-echo_example :
    receive_datagrams (λ i. get_or sent_frame i 0) (length sent_frame) two_queued
    ≡ some (
        take_answers 1000
          (map untouched (number two_queued.cells 254 (3 ∷ 5 ∷ [])))
          (record two_queued { reads = 1 }))
receive_datagrams-echo_example =
    receive_datagrams-echo 0 two_queued two_queued (λ i. get_or sent_frame i 0) 3 (5 ∷ [])
      (unfold fill_frame add_datagram in refl)
      (λ k l. ap (λ (j : ℕ). get_or sent_frame j 0) (omega arith))
