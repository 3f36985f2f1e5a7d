-- ===== src/Coe/Silent.antt =====
-- The exchanges with a slave in src/ec_mailbox.c and src/ec_coe.c copy nothing to the caller's buffer;
-- only the uploads do, with what the exchanges brought.
use cherry_ecat.Prelude.{
  ℕ, zero, suc, ◌+◌, ◌%◌, ◌≡◌, refl, ◌∙◌, List, [], ◌∷◌, Bool, true, false, not, length,
  if◌then◌else◌, ltb, leb, ◌==◌, ◌&&◌, sub_mod, u64_mod, read_u8, read_u16,
}
use cherry_ecat.Slave.{Slave}
use cherry_ecat.Exchange.{
  Io, M, Out, Errno, Event, next, ok, err, asserted, blocked, pure, fail, ◌>>=◌, jiffies, assert,
  fail_if, finish_wait, wait, queue_ext_datagram,
}
use cherry_ecat.Exchange.Facts.{Gives}
use cherry_ecat.Mailbox.{fill_send, send, status_once, poll_status, read_status, receive}
use cherry_ecat.Coe.{coe_timeout_ns}
use cherry_ecat.Coe.Reply.{service, command, exchange}
use cherry_ecat.Coe.Upload.{request_segment}

-- Nothing was copied to the caller's buffer.
abbrev pub Same : {A : Type 0} → List ℕ → A → Io → Type 0
Same bytes a w = w.written ≡ bytes

-- A computation that copies nothing.
abbrev pub Silent : {A : Type 0} → M A → Type 0
Silent m = (w : Io) → Gives (Same w.written) (m w)

pub Same-trans :
    {A : Type 0} (xs ys : List ℕ) (s : Out A × Io) → xs ≡ ys → Gives (Same xs) s → Gives (Same ys) s
Same-trans xs ys (ok b, w) h k = k ∙ h
Same-trans xs ys (err e, w) h k = tt
Same-trans xs ys (asserted, w) h k = tt
Same-trans xs ys (blocked, w) h k = tt

-- One step of a chain of such computations.
pub silently :
    {A B : Type 0} (bytes : List ℕ) (r : Out A × Io) (f : A → M B)
    → Gives (Same bytes) r
    → ((a : A) (w : Io) → Gives (Same w.written) (f a w))
    → Gives (Same bytes) (next r f)
silently bytes (ok a, w) f h g = Same-trans w.written bytes (f a w) h (g a w)
silently bytes (err e, w) f h g = tt
silently bytes (asserted, w) f h g = tt
silently bytes (blocked, w) f h g = tt

pub Silent-if :
    {A : Type 0} (b : Bool) (m m' : M A) (w : Io) (bytes : List ℕ)
    → Gives (Same bytes) (m w)
    → Gives (Same bytes) (m' w)
    → Gives (Same bytes) ((if b then m else m') w)
Silent-if true m m' w bytes h h' = h
Silent-if false m m' w bytes h h' = h'

pub Silent-fail_if : (b : Bool) (e : Errno) → Silent (fail_if b e)
Silent-fail_if true e w = tt
Silent-fail_if false e w = refl

Silent-assert : (b : Bool) → Silent (assert b)
Silent-assert true w = refl
Silent-assert false w = tt

Silent-received :
    (b : Bool) (w : Io) → Gives (Same w.written) (if b then err Errno.wc else ok tt, w)
Silent-received true w = tt
Silent-received false w = refl

Silent-finish_wait : (e : Event) (w : Io) → Gives (Same w.written) (finish_wait e w)
unfolding finish_wait
Silent-finish_wait (Event.received c bytes) w = Silent-received (c == 0) _
Silent-finish_wait Event.timed_out w = tt
Silent-finish_wait Event.failed w = tt
Silent-finish_wait Event.spurious w = tt
Silent-finish_wait (Event.sem_error e) w = tt

Silent-wait : (es : List Event) (w : Io) → Gives (Same w.written) (wait es w)
unfolding wait
Silent-wait [] w = tt
Silent-wait (e ∷ es) w = Silent-finish_wait e (record w { events = es })

Silent-queue : Silent (queue_ext_datagram true true)
unfolding queue_ext_datagram
Silent-queue w = Silent-wait w.events _

Silent-fill_send : (i type size : ℕ) → Silent (fill_send i type size)
unfolding fill_send
Silent-fill_send i type size w =
    silently w.written _ _ (Silent-assert (ltb i w.slave_count) w) λ _ a.
      silently a.written _ _
        (Silent-assert (leb (w.slaves i).configured_rx_mailbox_size w.datagram.mem_size) a)
        λ _ b.
          silently b.written _ _
            (Silent-assert (leb (6 + size) (w.slaves i).configured_rx_mailbox_size) b) λ _ c. refl

Silent-send : (i : ℕ) → Silent (send i)
unfolding send
Silent-send i w =
    silently w.written _ _ (Silent-fail_if (leb w.slave_count i) Errno.inval w)
      λ _ a. Silent-queue _

Silent-status_once : (s : Slave) → Silent (status_once s)
unfolding status_once
Silent-status_once s w = silently w.written _ _ (Silent-queue _) λ _ a. refl

Silent-poll_status : (fuel : ℕ) (s : Slave) (start t : ℕ) → Silent (poll_status fuel s start t)
unfolding poll_status
Silent-poll_status zero s start t w = tt
Silent-poll_status (suc fuel) s start t w =
    silently w.written _ _ (Silent-status_once s w) λ full a.
      Silent-if full (pure tt)
        (jiffies >>= λ now.
          if ltb t (sub_mod u64_mod now start)
          then fail Errno.mbox_empty
          else poll_status fuel s start t)
        a a.written refl
        (Silent-if (ltb t (sub_mod u64_mod (a.clock a.reads) start)) (fail Errno.mbox_empty)
          (poll_status fuel s start t) _ a.written tt
          (Silent-poll_status fuel s start t (record a { reads = a.reads + 1 })))

Silent-read_status : (i t : ℕ) → Silent (read_status i t)
unfolding read_status
Silent-read_status i t w =
    silently w.written _ _ (Silent-fail_if (leb w.slave_count i) Errno.inval w) λ _ a.
      Silent-poll_status (suc (length w.events)) (w.slaves i) (a.clock a.reads) t
        (record a { reads = a.reads + 1 })

Silent-receive : (i t : ℕ) → Silent (receive i t)
unfolding receive
Silent-receive i t w =
    silently w.written _ _ (Silent-fail_if (leb w.slave_count i) Errno.inval w) λ _ a.
      silently a.written _ _ (Silent-read_status i t a) λ _ b.
        silently b.written _ _
          (Silent-assert (leb (w.slaves i).configured_tx_mailbox_size b.datagram.mem_size) b)
          λ _ c. silently c.written _ _ (Silent-queue _) λ _ d.
            silently d.written _ _
              (Silent-assert
                (leb (read_u16 d.datagram.buf 0) (w.slaves i).configured_tx_mailbox_size) d)
              λ _ e.
                silently e.written _ _
                  (Silent-fail_if (read_u8 d.datagram.buf 5 % 16 == 0) Errno.mbox e) λ _ f. refl

pub Silent-exchange : (i n : ℕ) → Silent (exchange i n)
unfolding exchange
Silent-exchange i n w = silently w.written _ _ (Silent-send i w) λ _ a.
    silently a.written _ _ (Silent-receive i coe_timeout_ns a) λ r b.
      silently b.written _ _ (Silent-fail_if (not (r.0 == 3)) Errno.coe_type b) λ _ c.
        silently c.written _ _ (Silent-fail_if (ltb r.1 n) Errno.coe_size c) λ _ d.
          silently d.written _ _
            (Silent-fail_if (service d.datagram.buf == 2 && command d.datagram.buf == 4)
              Errno.coe_abort d)
            λ _ e. refl

pub Silent-request_segment : (i : ℕ) (t : Bool) → Silent (request_segment i t)
unfolding request_segment
Silent-request_segment i t w = silently w.written _ _ (Silent-fill_send i 3 10 w) λ _ a. refl
