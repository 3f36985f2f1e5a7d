-- ===== src/Mailbox/Waits.antt =====
-- The waits of src/ec_mailbox.c: a mailbox exchange has an end where finitely many sleeps end.
use cherry_ecat.Prelude.{
  ℕ, zero, suc, ◌+◌, ◌<◌, true, arith, length, if◌then◌else◌, ltb, leb, ◌==◌, sub_mod, u64_mod,
  read_u16, read_u8, ◌%◌,
}
use cherry_ecat.Slave.{Slave}
use cherry_ecat.Exchange.{Io, Errno, pure, fail, ◌>>=◌, jiffies}
use cherry_ecat.Exchange.Facts.{
  Post, Post-next, Post-then, Post-if, Post-fail_if, Post-assert, Post-queue_ext_datagram,
}
use cherry_ecat.Mailbox.{fill_send, send, status_once, poll_status, read_status, receive}

pub Post-fill_send : (i type size : ℕ) (w : Io) → Post 0 (length w.events) (fill_send i type size w)
unfolding fill_send
Post-fill_send i type size w =
    Post-then 0 (length w.events) _ _ (Post-assert (ltb i w.slave_count) w) λ _ a h.
      Post-then 0 (length a.events) _ _
        (Post-assert (leb (w.slaves i).configured_rx_mailbox_size w.datagram.mem_size) a)
        λ _ b h'.
          Post-then 0 (length b.events) _ _
            (Post-assert (leb (6 + size) (w.slaves i).configured_rx_mailbox_size) b)
            λ _ c h''. omega arith

pub Post-send : (i : ℕ) (w : Io) → Post 1 (length w.events) (send i w)
unfolding send
Post-send i w =
    Post-next 0 1 (length w.events) _ _ (Post-fail_if (leb w.slave_count i) Errno.inval w)
      λ _ a h. Post-queue_ext_datagram true _

Post-status_once : (s : Slave) (w : Io) → Post 1 (length w.events) (status_once s w)
unfolding status_once
Post-status_once s w =
    Post-next 1 0 (length w.events) _ _ (Post-queue_ext_datagram true _) λ _ a h. omega arith

Post-poll_status :
    (fuel : ℕ) (s : Slave) (start t : ℕ) (w : Io)
    → length w.events < fuel
    → Post 0 (length w.events) (poll_status fuel s start t w)
unfolding poll_status
Post-poll_status zero s start t w h = absurd (omega arith)
Post-poll_status (suc fuel) s start t w h =
    Post-then 1 (length w.events) _ _ (Post-status_once s w) λ full a k.
      Post-if full 0 (length a.events) (pure tt)
        (jiffies >>= λ now.
          if ltb t (sub_mod u64_mod now start)
          then fail Errno.mbox_empty
          else poll_status fuel s start t)
        a (omega arith)
        (Post-if (ltb t (sub_mod u64_mod (a.clock a.reads) start)) 0 (length a.events)
          (fail Errno.mbox_empty) (poll_status fuel s start t) _ tt
          (Post-poll_status fuel s start t (record a { reads = a.reads + 1 }) (omega arith)))

pub Post-read_status : (i t : ℕ) (w : Io) → Post 0 (length w.events) (read_status i t w)
unfolding read_status
Post-read_status i t w =
    Post-then 0 (length w.events) _ _ (Post-fail_if (leb w.slave_count i) Errno.inval w) λ _ a h.
      Post-poll_status (suc (length w.events)) (w.slaves i) (a.clock a.reads) t
        (record a { reads = a.reads + 1 }) (omega arith)

-- The reception of a mailbox returns, with at least one sleep behind it, or it sleeps on a datagram
-- that no event comes for any more.
pub receive-Post : (i t : ℕ) (w : Io) → Post 1 (length w.events) (receive i t w)
unfolding receive
receive-Post i t w =
    Post-next 0 1 (length w.events) _ _ (Post-fail_if (leb w.slave_count i) Errno.inval w) λ _ a h.
      Post-next 0 1 (length a.events) _ _ (Post-read_status i t a) λ _ b h'.
        Post-next 0 1 (length b.events) _ _
          (Post-assert (leb (w.slaves i).configured_tx_mailbox_size b.datagram.mem_size) b)
          λ _ c h''. Post-next 1 0 (length c.events) _ _ (Post-queue_ext_datagram true _) λ _ d k.
            Post-then 0 (length d.events) _ _
              (Post-assert (leb (read_u16 d.datagram.buf 0) (w.slaves i).configured_tx_mailbox_size)
                d)
              λ _ e k'.
                Post-then 0 (length e.events) _ _
                  (Post-fail_if (read_u8 d.datagram.buf 5 % 16 == 0) Errno.mbox e)
                  λ _ f k''. omega arith
