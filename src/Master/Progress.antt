-- ===== src/Master/Progress.antt =====
-- The loops of ec_master_receive_datagrams and ec_master_send_datagrams end: the fuel that the
-- model gives them is enough. What one frame does to the datagrams is in the child module.
pub mod Round
use cherry_ecat.Prelude.{
  ℕ, zero, suc, ◌+◌, ◌-◌, ◌%◌, ◌≤◌, ◌<◌, ◌≡◌, refl, List, [], ◌∷◌, Option, none, some, Bool, true,
  false, ltb, if◌then◌else◌, Bool-cases, arith, inl, inr, length, ltb→le, ltb→lt,
}
use cherry_ecat.Master.{Master, contains}
use cherry_ecat.Master.Frame.{Fill, eligible, fill_frame}
use cherry_ecat.Master.Send.{
  send_rounds, send_datagrams, send_frame, mark_sent, start_fill, is_empty,
}
use cherry_ecat.Master.Receive.{
  receive_loop, receive_datagrams, accept, find_match, data_size_at, cmd_follows_at, mem_u16,
}
use Round.{
  count, count-le-length, count_falls, fill_frame-Same, mark_sent_state, mark_sent_rest, sent_from,
  member_of_nonempty,
}

receive_loop_total :
    (fuel : ℕ) (mem : ℕ → ℕ) (size time cur : ℕ) (m : Master)
    → cur ≤ size
    → size < fuel + cur
    → (m' : Master) × (receive_loop fuel mem size time cur m ≡ some m')
unfolding receive_loop
receive_loop_total zero mem size time cur m c h = absurd (omega arith)
receive_loop_total (suc fuel) mem size time cur m c h = elim (Bool-cases (ltb size next)) [
  | inl e ↦ rw e (_, refl)
  | inr e ↦ rw e (elim (Bool-cases (cmd_follows_at mem cur)) [
    | inl g ↦
        rw g (
          receive_loop_total fuel mem size time next _ (ltb→le _ _ e) (omega (arith, ltb→le _ _ e)))
    | inr g ↦ rw g (_, refl)
  ])
]
  where
    next : ℕ
    next = cur + 10 + data_size_at mem cur + 2

-- ec_master_receive_datagrams returns on every frame, whatever its bytes and its size.
pub receive_datagrams_total :
    (mem : ℕ → ℕ) (size : ℕ) (m : Master) → (m' : Master) × (receive_datagrams mem size m ≡ some m')
unfolding receive_datagrams
receive_datagrams_total mem size m = elim (Bool-cases (ltb size 2)) [
  | inl e ↦ rw e (_, refl)
  | inr e ↦ rw e (elim (Bool-cases (ltb size (mem_u16 mem 0 % 2048))) [
    | inl g ↦ rw g (_, refl)
    | inr g ↦ rw g (receive_loop_total (suc size) mem size _ 2 _ (ltb→le _ _ e) (omega arith))
  ])
]

-- The pointers of the queue that are still to be sent on a device.
abbrev pub pending : ℕ → Master → ℕ
pending n m = count (λ q. eligible n (m.cells q)) m.queue

-- The queue and the eligible datagrams after one frame `f` of the queue.
pub eligible-send_frame :
    (n : ℕ) (m : Master) (q : ℕ)
    → let f = fill_frame n m.queue (start_fill m) in
      eligible n ((send_frame n m f).cells q)
      ≡ (if contains q f.sent then false else eligible n (m.cells q))
unfolding send_frame
eligible-send_frame n m q = ground (
  arith,
  mark_sent_state (m.clock m.reads) f.sent f.cells q,
  mark_sent_rest (m.clock m.reads) f.sent f.cells q,
  fill_frame-Same n m.queue (start_fill m) q,
)
  where
    f : Fill
    f = fill_frame n m.queue (start_fill m)

-- A frame that holds a datagram leaves fewer datagrams to be sent.
pending_falls :
    (n : ℕ) (m : Master)
    → let f = fill_frame n m.queue (start_fill m) in
      is_empty f.sent ≡ false → pending n (send_frame n m f) < pending n m
unfolding send_frame
pending_falls n m h = let (q, c) = member_of_nonempty f.sent h in falls q c
  where
    f : Fill
    f = fill_frame n m.queue (start_fill m)

    falls : (q : ℕ) → contains q f.sent ≡ true → pending n (send_frame n m f) < pending n m
    falls q c =
        count_falls (λ r. eligible n (m.cells r)) (λ r. eligible n ((send_frame n m f).cells r)) q
          m.queue (λ r. ground (arith, eligible-send_frame n m r))
          (ground (arith, sent_from n m.queue (start_fill m) q c))
          (ground (arith, sent_from n m.queue (start_fill m) q c))
          (ground (arith, eligible-send_frame n m q))

send_rounds_total :
    (fuel n : ℕ) (m : Master)
    → pending n m < fuel
    → (m' : Master) × (send_rounds fuel n m ≡ some m')
unfolding send_rounds
send_rounds_total zero n m h = elim h [ ]
send_rounds_total (suc fuel) n m h = elim (Bool-cases (is_empty f.sent)) [
  | inl e ↦ rw e (_, refl)
  | inr e ↦ rw e (elim (Bool-cases f.more) [
    | inl g ↦
        simp g (send_rounds_total fuel n (send_frame n m f) (omega (arith, pending_falls n m e)))
    | inr g ↦ simp g (_, refl)
  ])
]
  where
    f : Fill
    f = fill_frame n m.queue (start_fill m)

-- ec_master_send_datagrams returns from every state of the queue.
pub send_datagrams_total : (n : ℕ) (m : Master) → (m' : Master) × (send_datagrams n m ≡ some m')
unfolding send_datagrams
send_datagrams_total n m =
    send_rounds_total (suc (length m.queue)) n m
      (omega (arith, count-le-length (λ q. eligible n (m.cells q)) m.queue))
