-- ===== src/Master/Complete.antt =====
-- Receiving a frame, timing datagrams out and a link that is down complete datagrams and do nothing
-- else to the queue: no wake-up is lost.
use cherry_ecat.Prelude.{
  ℕ, zero, suc, ◌+◌, ◌≡◌, refl, List, [], ◌∷◌, Option, none, some, Bool, true, false, ltb,
  Bool-cases, arith, inl, inr, ◌==◌, subst, ◌%◌, sub_mod, Ends, u64_mod,
}
use cherry_ecat.Datagram.{Datagram, DatagramState}
use cherry_ecat.Master.{Master, bump, contains}
use cherry_ecat.Master.Frame.{is_sent}
use cherry_ecat.Master.Receive.{
  accept, deliver, find_match, receive_loop, receive_datagrams, matches, data_size_at,
  cmd_follows_at, mem_u16,
}
use cherry_ecat.Master.Cycle.{datagram_timeout_ns, drop_datagram, expire, expire_all, fail_all}
use cherry_ecat.Master.Progress.{receive_datagrams_total}
use cherry_ecat.Master.Queue.{Distinct, contains-remove}
use cherry_ecat.Master.Retire.{
  Retires-same, Retires, Retires-refl, Retires-trans, unqueue-Retires, queue-unqueue, is_final,
}

find_match-contains :
    (cells : ℕ → Datagram) (ps : List ℕ) (i c s p : ℕ)
    → find_match cells ps i c s ≡ some p
    → contains p ps ≡ true
unfolding find_match
find_match-contains cells [] i c s p h = cc
find_match-contains cells (q ∷ ps) i c s p h = elim (Bool-cases (matches (cells q) i c s)) [
  | inl e ↦ ground arith
  | inr e ↦ ground (arith, find_match-contains cells ps i c s p (rw e at h))
]

-- Counters and the clock do not matter to the relation.
accept-Retires :
    (mem : ℕ → ℕ) (cur t : ℕ) (m : Master) (o : Option ℕ)
    → ((p : ℕ) → o ≡ some p → contains p m.queue ≡ true)
    → Distinct m.queue
    → Retires m (accept mem cur t m o)
unfolding accept deliver
accept-Retires mem cur t m none h d = Retires-same m _ d refl refl refl
accept-Retires mem cur t m (some p) h d = unqueue-Retires m p _ (h p refl) d refl refl

receive_loop-Ends :
    (fuel : ℕ) (mem : ℕ → ℕ) (size t cur : ℕ) (a m : Master)
    → Retires a m
    → Ends (Retires a) (receive_loop fuel mem size t cur m)
unfolding receive_loop
receive_loop-Ends zero mem size t cur a m r = tt
receive_loop-Ends (suc fuel) mem size t cur a m r = elim (Bool-cases (ltb size next)) [
  | inl e ↦ rw e (Retires-trans r (Retires-same m _ r.distinct refl refl refl))
  | inr e ↦ rw e (elim (Bool-cases (cmd_follows_at mem cur)) [
    | inl g ↦ rw g (receive_loop-Ends fuel mem size t next a m1 step)
    | inr g ↦ rw g step
  ])
]
  where
    size' : ℕ
    size' = data_size_at mem cur

    next : ℕ
    next = cur + 10 + size' + 2

    m1 : Master
    m1 = accept mem cur t m (find_match m.cells m.queue (mem (cur + 1)) (mem cur) size')

    step : Retires a m1
    step = Retires-trans r (
        accept-Retires mem cur t m (find_match m.cells m.queue (mem (cur + 1)) (mem cur) size')
          (find_match-contains m.cells m.queue (mem (cur + 1)) (mem cur) size') r.distinct)

receive_datagrams-Ends :
    (mem : ℕ → ℕ) (size : ℕ) (m : Master)
    → Distinct m.queue
    → Ends (Retires m) (receive_datagrams mem size m)
unfolding receive_datagrams
receive_datagrams-Ends mem size m d = elim (Bool-cases (ltb size 2)) [
  | inl e ↦ rw e (Retires-same m _ d refl refl refl)
  | inr e ↦ rw e (elim (Bool-cases (ltb size (mem_u16 mem 0 % 2048))) [
    | inl g ↦ rw g (Retires-same m _ d refl refl refl)
    | inr g ↦ rw g (
        receive_loop-Ends (suc size) mem size (m.clock m.reads) 2 m _
          (Retires-same m _ d refl refl refl))
  ])
]

-- Where the queue holds no pointer twice, ec_master_receive_datagrams returns on every frame, and
-- completes datagrams and does nothing else to them, whatever bytes arrive: each datagram stays
-- linked in its state or is unlinked in a final state with its waiter woken, and what was not
-- linked is not touched.
pub receive_datagrams-Retires :
    (mem : ℕ → ℕ) (size : ℕ) (m : Master)
    → Distinct m.queue
    → (m' : Master) × (receive_datagrams mem size m ≡ some m') × Retires m m'
receive_datagrams-Retires mem size m d =
    let (m', e) = receive_datagrams_total mem size m in
    (m', e, subst (Ends (Retires m)) e (receive_datagrams-Ends mem size m d))

drop_datagram-Retires :
    (m : Master) (p : ℕ) (s : DatagramState)
    → contains p m.queue ≡ true
    → Distinct m.queue
    → is_final s ≡ true
    → Retires m (drop_datagram m p s)
unfolding drop_datagram
drop_datagram-Retires m p s c d f = unqueue-Retires m p _ c d f refl

expire-Retires :
    (m : Master) (p : ℕ) → contains p m.queue ≡ true → Distinct m.queue → Retires m (expire m p)
unfolding expire
expire-Retires m p c d = elim (Bool-cases (is_sent (m.cells p).state)) [
  | inl e ↦ rw e (elim (Bool-cases late) [
    | inl g ↦ rw g (
        Retires-trans (Retires-same m _ d refl refl refl)
          (drop_datagram-Retires _ p DatagramState.timed_out c d refl))
    | inr g ↦ rw g (Retires-same m _ d refl refl refl)
  ])
  | inr e ↦ rw e (Retires-refl m d)
]
  where
    late : Bool
    late = ltb datagram_timeout_ns (sub_mod u64_mod (m.clock m.reads) (m.cells p).jiffies_sent)

-- What is still to be visited stays linked while another pointer is dropped.
drop-contains :
    (m : Master) (p q : ℕ) (s : DatagramState)
    → Distinct m.queue
    → contains q m.queue ≡ true
    → (p == q) ≡ false
    → contains q (drop_datagram m p s).queue ≡ true
unfolding drop_datagram
drop-contains m p q s d c n = rw (queue-unqueue _ p, contains-remove q p m.queue d, n) c

expire-contains :
    (m : Master) (p q : ℕ)
    → Distinct m.queue
    → contains q m.queue ≡ true
    → (p == q) ≡ false
    → contains q (expire m p).queue ≡ true
unfolding expire
expire-contains m p q d c n = elim (Bool-cases (is_sent (m.cells p).state)) [
  | inl e ↦ rw e (elim (Bool-cases late) [
    | inl g ↦ rw g (
        drop-contains (record m { reads = m.reads + 1; timeouts = bump m.timeouts }) p q
          DatagramState.timed_out d c n)
    | inr g ↦ rw g c
  ])
  | inr e ↦ rw e c
]
  where
    late : Bool
    late = ltb datagram_timeout_ns (sub_mod u64_mod (m.clock m.reads) (m.cells p).jiffies_sent)

-- The pointers of a list are linked.
abbrev Linked : List ℕ → Master → Type 0
Linked ps m = (q : ℕ) → contains q ps ≡ true → contains q m.queue ≡ true

expire_all-run :
    (ps : List ℕ) (m : Master)
    → Distinct ps
    → Linked ps m
    → Distinct m.queue
    → Retires m (expire_all ps m)
unfolding expire_all
expire_all-run [] m d l v = Retires-refl m v
expire_all-run (p ∷ ps) m d l v =
    Retires-trans step (expire_all-run ps (expire m p) d.1 rest step.distinct)
  where
    step : Retires m (expire m p)
    step = expire-Retires m p (l p (ground arith)) v

    rest : Linked ps (expire m p)
    rest q c = expire-contains m p q v (l q (ground arith)) (ground arith)

-- Where the queue holds no pointer twice, the loop of ec_master_send over it that times datagrams
-- out completes datagrams and does nothing else to them.
pub expire_all-Retires : (m : Master) → Distinct m.queue → Retires m (expire_all m.queue m)
expire_all-Retires m d = expire_all-run m.queue m d (λ q c. c) d

fail_all-run :
    (n : ℕ) (ps : List ℕ) (m : Master)
    → Distinct ps
    → Linked ps m
    → Distinct m.queue
    → Retires m (fail_all n ps m)
unfolding fail_all
fail_all-run n [] m d l v = Retires-refl m v
fail_all-run n (p ∷ ps) m d l v = elim (Bool-cases ((m.cells p).netdev_idx == n)) [
  | inl e ↦ rw e (Retires-trans step (fail_all-run n ps _ d.1 rest step.distinct))
  | inr e ↦ rw e (fail_all-run n ps m d.1 (λ q c. l q (ground arith)) v)
]
  where
    step : Retires m (drop_datagram m p DatagramState.error)
    step = drop_datagram-Retires m p DatagramState.error (l p (ground arith)) v refl

    rest : Linked ps (drop_datagram m p DatagramState.error)
    rest q c = drop-contains m p q DatagramState.error v (l q (ground arith)) (ground arith)

-- Where the queue holds no pointer twice, the loop of ec_master_send for a device whose link is
-- down completes datagrams and does nothing else to them.
pub fail_all-Retires : (n : ℕ) (m : Master) → Distinct m.queue → Retires m (fail_all n m.queue m)
fail_all-Retires n m d = fail_all-run n m.queue m d (λ q c. c) d
