-- ===== src/Slave/Config/Requests.antt =====
-- What the exchanges with a slave (src/ec_mailbox.c, src/ec_coe.c, and the state changes of
-- src/ec_slave.c) leave as it is: the state that is requested of a slave.
pub mod Stages
use cherry_ecat.Prelude.{
  ℕ, zero, suc, ◌+◌, ◌-◌, ◌/◌, ◌%◌, ◌≡◌, refl, sym, ap, ◌∙◌, List, Bool, true, false, not, arith,
  length, if◌then◌else◌, ltb, leb, ◌==◌, ◌&&◌, ◌||◌, sub_mod, u16_mod, u32_mod, u64_mod, read_u8,
  read_u16, test_bit, take, drop, min, Bool-cases, inl, inr,
}
use cherry_ecat.Slave.{Slave}
use cherry_ecat.Exchange.{
  Io, M, Out, ok, err, asserted, blocked, Errno, pure, fail, fail_if, assert, next, ◌>>=◌, ◌>>◌,
  jiffies, queue_ext_datagram,
}
use cherry_ecat.Exchange.Facts.{Gives}
use cherry_ecat.Exchange.Steps.{Slept, Slept-queue_ext_datagram}
use cherry_ecat.Mailbox.{fill_send, send, status_once, poll_status, read_status, receive}
use cherry_ecat.Coe.{coe_timeout_ns, bit}
use cherry_ecat.Coe.Reply.{service, command, exchange, check_download}
use cherry_ecat.Coe.Download.{
  download_expedited, download_common, download_segment, download_segments, reply_toggle, download,
}
use cherry_ecat.Slave.State.{
  state_change_timeout_ns, read_register, write_control, read_state, or_timeout, poll_acked,
  state_clear_ack_error, poll_state, state_change,
}
use cherry_ecat.Slave.StateFacts.{stopped}

-- The state `q` is requested of the slave `k`.
abbrev pub Asks : ℕ → ℕ → Io → Type 0
Asks k q w = (w.slaves k).requested_state ≡ q

-- After a success it still is.
abbrev pub Kept : {A : Type 0} → ℕ → ℕ → Out A × Io → Type 0
Kept k q r = Gives (λ _ w. Asks k q w) r

Slept-Kept : (k q : ℕ) (w : Io) (r : Out (Unit {0}) × Io) → Asks k q w → Slept w r → Kept k q r
Slept-Kept k q w (ok a, w') h (_, e) = ap (λ s. (s k).requested_state) e ∙ h
Slept-Kept k q w (err e, w') h s = tt
Slept-Kept k q w (asserted, w') h s = tt
Slept-Kept k q w (blocked, w') h s = tt

pub queue-Kept : (k q : ℕ) (b : Bool) (w : Io) → Asks k q w → Kept k q (queue_ext_datagram b true w)
queue-Kept k q b w h = Slept-Kept k q w _ h (Slept-queue_ext_datagram b w)

pub then-Kept :
    {A B : Type 0} (k q : ℕ) (r : Out A × Io) (f : A → M B)
    → Kept k q r
    → ((a : A) (w : Io) → Asks k q w → Kept k q (f a w))
    → Kept k q (next r f)
then-Kept k q (ok a, w) f h g = g a w h
then-Kept k q (err e, w) f h g = tt
then-Kept k q (asserted, w) f h g = tt
then-Kept k q (blocked, w) f h g = tt

pub fail_if-Kept : (k q : ℕ) (b : Bool) (e : Errno) (w : Io) → Asks k q w → Kept k q (fail_if b e w)
fail_if-Kept k q true e w h = tt
fail_if-Kept k q false e w h = h

pub assert-Kept : (k q : ℕ) (b : Bool) (w : Io) → Asks k q w → Kept k q (assert b w)
assert-Kept k q true w h = h
assert-Kept k q false w h = tt

pub if-Kept :
    {A : Type 0} (k q : ℕ) (b : Bool) (m m' : M A) (w : Io)
    → Kept k q (m w)
    → Kept k q (m' w)
    → Kept k q ((if b then m else m') w)
if-Kept k q true m m' w h h' = h
if-Kept k q false m m' w h h' = h'

-- An assignment to a slave that leaves the requested state alone.
pub edited :
    (k q i : ℕ) (w : Io) (s : Slave)
    → s.requested_state ≡ (w.slaves i).requested_state
    → Asks k q w
    → (if i == k then s else w.slaves k).requested_state ≡ q
edited k q i w s e h = ground (arith, e, h)

module _ (k q : ℕ) where
  fill_send-Kept : (i type size : ℕ) (w : Io) → Asks k q w → Kept k q (fill_send i type size w)
  unfolding fill_send
  fill_send-Kept i type size w h =
      then-Kept k q _ _ (assert-Kept k q (ltb i w.slave_count) w h) λ _ a h1.
        then-Kept k q _ _
          (assert-Kept k q (leb (w.slaves i).configured_rx_mailbox_size w.datagram.mem_size) a h1)
          λ _ b h2.
            then-Kept k q _ _
              (assert-Kept k q (leb (6 + size) (w.slaves i).configured_rx_mailbox_size) b h2)
              λ _ c h3. h3

  send-Kept : (i : ℕ) (w : Io) → Asks k q w → Kept k q (send i w)
  unfolding send
  send-Kept i w h =
      then-Kept k q _ _ (fail_if-Kept k q (leb w.slave_count i) Errno.inval w h)
        λ _ a h1. queue-Kept k q true _ h1

  poll_status-Kept :
      (fuel : ℕ) (s : Slave) (start t : ℕ) (w : Io)
      → Asks k q w
      → Kept k q (poll_status fuel s start t w)
  unfolding poll_status status_once
  poll_status-Kept zero s start t w h = tt
  poll_status-Kept (suc fuel) s start t w h =
      then-Kept k q _ _ (then-Kept k q _ _ (queue-Kept k q true _ h) λ _ a h1. h1) λ full a h1.
        if-Kept k q full (pure tt)
          (jiffies >>= λ now.
            if ltb t (sub_mod u64_mod now start)
            then fail Errno.mbox_empty
            else poll_status fuel s start t)
          a h1
          (if-Kept k q (ltb t (sub_mod u64_mod (a.clock a.reads) start)) (fail Errno.mbox_empty)
            (poll_status fuel s start t) _ tt
            (poll_status-Kept fuel s start t (record a { reads = a.reads + 1 }) h1))

  receive-Kept : (i t : ℕ) (w : Io) → Asks k q w → Kept k q (receive i t w)
  unfolding receive read_status
  receive-Kept i t w h =
      then-Kept k q _ _ (fail_if-Kept k q (leb w.slave_count i) Errno.inval w h) λ _ a h1.
        then-Kept k q _ _
          (then-Kept k q _ _ (fail_if-Kept k q (leb a.slave_count i) Errno.inval a h1) λ _ c h2.
            poll_status-Kept (suc (length a.events)) (a.slaves i) (c.clock c.reads) t
              (record c { reads = c.reads + 1 }) h2)
          λ _ b h2.
            then-Kept k q _ _
              (assert-Kept k q (leb (w.slaves i).configured_tx_mailbox_size b.datagram.mem_size) b
                h2)
              λ _ c h3. then-Kept k q _ _ (queue-Kept k q true _ h3) λ _ d h4.
                then-Kept k q _ _
                  (assert-Kept k q
                    (leb (read_u16 d.datagram.buf 0) (w.slaves i).configured_tx_mailbox_size) d h4)
                  λ _ e h5.
                    then-Kept k q _ _
                      (fail_if-Kept k q (read_u8 d.datagram.buf 5 % 16 == 0) Errno.mbox e h5)
                      λ _ f h6. h6

  exchange-Kept : (i n : ℕ) (w : Io) → Asks k q w → Kept k q (exchange i n w)
  unfolding exchange
  exchange-Kept i n w h = then-Kept k q _ _ (send-Kept i w h) λ _ a h1.
      then-Kept k q _ _ (receive-Kept i coe_timeout_ns a h1) λ r b h2.
        then-Kept k q _ _ (fail_if-Kept k q (not (r.0 == 3)) Errno.coe_type b h2) λ _ c h3.
          then-Kept k q _ _ (fail_if-Kept k q (ltb r.1 n) Errno.coe_size c h3) λ _ d h4.
            then-Kept k q _ _
              (fail_if-Kept k q (service d.datagram.buf == 2 && command d.datagram.buf == 4)
                Errno.coe_abort d h4)
              λ _ e h5. h5

  check_download-Kept :
      (index subindex : ℕ) (buf : List ℕ) (w : Io)
      → Asks k q w
      → Kept k q (check_download index subindex buf w)
  unfolding check_download
  check_download-Kept index subindex buf w h = fail_if-Kept k q _ Errno.coe_request w h

  download_expedited-Kept :
      (i index subindex : ℕ) (buf : List ℕ) (c : Bool) (w : Io)
      → Asks k q w
      → Kept k q (download_expedited i index subindex buf c w)
  unfolding download_expedited
  download_expedited-Kept i index subindex buf c w h =
      then-Kept k q _ _ (fill_send-Kept i 3 10 w h) λ _ a h1.
        then-Kept k q _ _ (exchange-Kept i 6 _ h1)
          λ r b h2. check_download-Kept index subindex r.1 b h2

  download_common-Kept :
      (i index subindex : ℕ) (buf : List ℕ) (c : Bool) (w : Io)
      → Asks k q w
      → Kept k q (download_common i index subindex buf c w)
  unfolding download_common
  download_common-Kept i index subindex buf c w h =
      then-Kept k q _ _ (fill_send-Kept i 3 ((length buf + 10) % u16_mod) w h) λ _ a h1.
        then-Kept k q _ _ (exchange-Kept i 6 _ h1)
          λ r b h2. check_download-Kept index subindex r.1 b h2

  download_segment-Kept :
      (i : ℕ) (seg : List ℕ) (toggle last : Bool) (w : Io)
      → Asks k q w
      → Kept k q (download_segment i seg toggle last w)
  unfolding download_segment
  download_segment-Kept i seg toggle last w h =
      then-Kept k q _ _ (fill_send-Kept i 3 _ w h) λ _ a h1.
        then-Kept k q _ _ (exchange-Kept i 6 _ h1) λ r b h2.
          then-Kept k q _ _ (fail_if-Kept k q (not (service r.1 == 3)) Errno.coe_request b h2)
            λ _ c h3.
              then-Kept k q _ _ (fail_if-Kept k q (not (command r.1 == 1)) Errno.coe_request c h3)
                λ _ d h4.
                  fail_if-Kept k q (not (reply_toggle r.1 == bit toggle)) Errno.coe_toggle d h4

  download_segments-Kept :
      (fuel i max : ℕ) (buf : List ℕ) (toggle : Bool) (w : Io)
      → Asks k q w
      → Kept k q (download_segments fuel i max buf toggle w)
  unfolding download_segments
  download_segments-Kept zero i max buf toggle w h = tt
  download_segments-Kept (suc fuel) i max buf toggle w h =
      then-Kept k q _ _
        (download_segment-Kept i (take (min (length buf) max) buf) toggle (leb (length buf) max) w
          h)
        λ _ a h1.
          if-Kept k q (length buf - min (length buf) max == 0) (pure tt)
            (download_segments fuel i max (drop (min (length buf) max) buf) (not toggle)) a h1
            (download_segments-Kept fuel i max (drop (min (length buf) max) buf) (not toggle) a h1)

  pub download-Kept :
      (i index subindex : ℕ) (buf : List ℕ) (c : Bool) (w : Io)
      → Asks k q w
      → Kept k q (download i index subindex buf c w)
  unfolding download
  download-Kept i index subindex buf c w h =
      let limit = sub_mod u32_mod (sub_mod u32_mod (w.slaves i).configured_rx_mailbox_size 6) 10 in
      let segmented : M (Unit {0}) =
        download_common i index subindex (take limit buf) c
        >> download_segments (length buf) i (limit + 7) (drop limit buf) false in
      then-Kept k q _ _ (fail_if-Kept k q (leb w.slave_count i) Errno.inval w h) λ _ a h1.
        if-Kept k q (leb (length buf) 4) (download_expedited i index subindex buf c)
          (if leb (length buf) limit then download_common i index subindex buf c else segmented) a
          (download_expedited-Kept i index subindex buf c a h1)
          (if-Kept k q (leb (length buf) limit) (download_common i index subindex buf c) segmented a
            (download_common-Kept i index subindex buf c a h1)
            (then-Kept k q _ _ (download_common-Kept i index subindex (take limit buf) c a h1)
              λ _ b h2.
                download_segments-Kept (length buf) i (limit + 7) (drop limit buf) false b h2))

  read_state-Kept : (i : ℕ) (w : Io) → Asks k q w → Kept k q (read_state i w)
  unfolding read_state read_register
  read_state-Kept i w h =
      then-Kept k q _ _ (queue-Kept k q true _ h)
        λ _ a h1. edited k q i a (record (a.slaves i) { current_state = _ }) refl h1

  or_timeout-Kept :
      (t s r : ℕ) (m : M (Unit {0})) (w : Io)
      → Kept k q (m (record w { reads = w.reads + 1 }))
      → Kept k q (or_timeout t s r m w)
  unfolding or_timeout
  or_timeout-Kept t s r m w h =
      if-Kept k q (ltb (state_change_timeout_ns s r) (sub_mod u64_mod (w.clock w.reads) t))
        (fail Errno.timeout) m _ tt h

  poll_acked-Kept : (fuel i r t : ℕ) (w : Io) → Asks k q w → Kept k q (poll_acked fuel i r t w)
  unfolding poll_acked
  poll_acked-Kept zero i r t w h = tt
  poll_acked-Kept (suc fuel) i r t w h = then-Kept k q _ _ (read_state-Kept i w h) λ v a h1.
      if-Kept k q (test_bit v 4) (or_timeout t v r (poll_acked fuel i r t))
        (if v == (a.slaves i).requested_state then pure tt else fail Errno.alerr) a
        (or_timeout-Kept t v r (poll_acked fuel i r t) a (poll_acked-Kept fuel i r t _ h1))
        (if-Kept k q (v == (a.slaves i).requested_state) (pure tt) (fail Errno.alerr) a h1 tt)

  state_clear_ack_error-Kept :
      (i r : ℕ) (w : Io) → Asks k q w → Kept k q (state_clear_ack_error i r w)
  unfolding state_clear_ack_error read_register write_control
  state_clear_ack_error-Kept i r w h = then-Kept k q _ _ (queue-Kept k q true _ h) λ _ a h1.
      then-Kept k q _ _
        (queue-Kept k q true _ (edited k q i a (record (a.slaves i) { alstatus_code = _ }) refl h1))
        λ _ b h2. poll_acked-Kept (suc (length b.events)) i r _ b h2

  poll_state-Kept : (fuel i r o t : ℕ) (w : Io) → Asks k q w → Kept k q (poll_state fuel i r o t w)
  unfolding poll_state
  poll_state-Kept zero i r o t w h = tt
  poll_state-Kept (suc fuel) i r o t w h = then-Kept k q _ _ (read_state-Kept i w h) λ v a h1.
      if-Kept k q (v == r) (pure tt)
        (if stopped v o
          then state_clear_ack_error i r
          else or_timeout t v r (poll_state fuel i r v t))
        a h1
        (if-Kept k q (stopped v o) (state_clear_ack_error i r)
          (or_timeout t v r (poll_state fuel i r v t)) a (state_clear_ack_error-Kept i r a h1)
          (or_timeout-Kept t v r (poll_state fuel i r v t) a (poll_state-Kept fuel i r v t _ h1)))

  pub state_change-Kept : (i s : ℕ) (w : Io) → Asks k q w → Kept k q (state_change i s w)
  unfolding state_change write_control
  state_change-Kept i s w h =
      then-Kept k q _ _ (queue-Kept k q true _ h)
        λ _ a h1. poll_state-Kept (suc (length a.events)) i s _ _ a h1
