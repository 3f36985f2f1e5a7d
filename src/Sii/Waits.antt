-- ===== src/Sii/Waits.antt =====
-- The waits of src/ec_sii.c: an access to the EEPROM has an end where finitely many sleeps end.
use cherry_ecat.Prelude.{
  ℕ, zero, suc, ◌+◌, ◌/◌, ◌%◌, ◌<◌, List, [], ◌∷◌, true, not, arith, length, if◌then◌else◌, ltb,
  leb, ◌==◌, sub_mod, u64_mod, read_u16, test_bit, u16_mod,
}
use cherry_ecat.Slave.{Slave}
use cherry_ecat.Exchange.{Io, Errno, pure, fail, ◌>>=◌, jiffies}
use cherry_ecat.Exchange.Facts.{
  Post, Post-next, Post-then, Post-if, Post-drop, Post-fail_if, Post-queue_ext_datagram,
}
use cherry_ecat.Sii.{
  sii_timeout_ns, assign_master, assign_pdi, check_once, poll_ready, read_dword, write_word,
  read_dwords, read, write_words, words, write,
}

pub Post-assign_master : (s : Slave) (w : Io) → Post 1 (length w.events) (assign_master s w)
unfolding assign_master
Post-assign_master s w = Post-queue_ext_datagram true _

pub Post-assign_pdi : (s : Slave) (w : Io) → Post 1 (length w.events) (assign_pdi s w)
unfolding assign_pdi
Post-assign_pdi s w = Post-queue_ext_datagram true _

Post-check_once : (s : Slave) (size : ℕ) (w : Io) → Post 1 (length w.events) (check_once s size w)
unfolding check_once
Post-check_once s size w =
    Post-next 1 0 (length w.events) _ _ (Post-queue_ext_datagram true _) λ _ a h.
      Post-then 0 (length a.events) _ _
        (Post-fail_if (test_bit (read_u16 a.datagram.buf 0) 13) Errno.sii a) λ _ b k. omega arith

Post-poll_ready :
    (fuel : ℕ) (s : Slave) (size start : ℕ) (w : Io)
    → length w.events < fuel
    → Post 0 (length w.events) (poll_ready fuel s size start w)
unfolding poll_ready
Post-poll_ready zero s size start w h = absurd (omega arith)
Post-poll_ready (suc fuel) s size start w h =
    Post-then 1 (length w.events) _ _ (Post-check_once s size w) λ busy a k.
      Post-if busy 0 (length a.events)
        (jiffies >>= λ now.
          if ltb sii_timeout_ns (sub_mod u64_mod now start)
          then fail Errno.timeout
          else poll_ready fuel s size start)
        (pure tt) a
        (Post-if (ltb sii_timeout_ns (sub_mod u64_mod (a.clock a.reads) start)) 0 (length a.events)
          (fail Errno.timeout) (poll_ready fuel s size start) _ tt
          (Post-poll_ready fuel s size start (record a { reads = a.reads + 1 }) (omega arith)))
        (omega arith)

Post-read_dword : (s : Slave) (o : ℕ) (w : Io) → Post 0 (length w.events) (read_dword s o w)
unfolding read_dword
Post-read_dword s o w = Post-then 1 (length w.events) _ _ (Post-queue_ext_datagram true _) λ _ a h.
    Post-then 0 (length a.events) _ _
      (Post-poll_ready (suc (length a.events)) s 10 (a.clock a.reads)
        (record a { reads = a.reads + 1 }) (omega arith))
      λ _ b k. omega arith

Post-write_word : (s : Slave) (o v : ℕ) (w : Io) → Post 0 (length w.events) (write_word s o v w)
unfolding write_word
Post-write_word s o v w =
    Post-then 1 (length w.events) _ _ (Post-queue_ext_datagram true _) λ _ a h.
      Post-then 0 (length a.events) _ _
        (Post-poll_ready (suc (length a.events)) s 2 (a.clock a.reads)
          (record a { reads = a.reads + 1 }) (omega arith))
        λ _ b k. Post-fail_if (test_bit (read_u16 b.datagram.buf 0) 14) Errno.sii b

pub Post-read_dwords :
    (n : ℕ) (s : Slave) (o : ℕ) (w : Io) → Post 0 (length w.events) (read_dwords n s o w)
unfolding read_dwords
Post-read_dwords zero s o w = omega arith
Post-read_dwords (suc n) s o w =
    Post-then 0 (length w.events) _ _ (Post-read_dword s (o % u16_mod) w) λ v a h.
      Post-then 0 (length a.events) _ _ (Post-read_dwords n s (o + 2) a) λ vs b k. omega arith

Post-write_words :
    (vs : List ℕ) (s : Slave) (o : ℕ) (w : Io) → Post 0 (length w.events) (write_words vs s o w)
unfolding write_words
Post-write_words [] s o w = omega arith
Post-write_words (v ∷ vs) s o w =
    Post-then 0 (length w.events) _ _ (Post-write_word s (o % u16_mod) v w)
      λ _ a h. Post-write_words vs s (o + 1) a

-- A read of the EEPROM has an end where finitely many sleeps end: it returns, or it sleeps on a datagram that no event
-- comes for any more.
pub read-Post : (i o n : ℕ) (w : Io) → Post 0 (length w.events) (read i o n w)
unfolding read
read-Post i o n w =
    Post-then 0 (length w.events) _ _ (Post-fail_if (not (n % 4 == 0)) Errno.inval w) λ _ a h.
      Post-then 0 (length a.events) _ _ (Post-fail_if (leb a.slave_count i) Errno.inval a) λ _ b k.
        Post-then 1 (length b.events) _ _ (Post-assign_master (a.slaves i) b) λ _ c p.
          Post-then 0 (length c.events) _ _ (Post-read_dwords (n / 4) (a.slaves i) o c) λ vs d q.
            Post-then 1 (length d.events) _ _ (Post-assign_pdi (a.slaves i) d) λ _ e r. omega arith

-- A write of the EEPROM has an end where finitely many sleeps end: it returns, or it sleeps on a datagram that no event
-- comes for any more.
pub write-Post :
    (i o : ℕ) (buf : List ℕ) (n : ℕ) (w : Io) → Post 0 (length w.events) (write i o buf n w)
unfolding write
write-Post i o buf n w =
    Post-then 0 (length w.events) _ _ (Post-fail_if (not (n % 2 == 0)) Errno.inval w) λ _ a h.
      Post-then 0 (length a.events) _ _ (Post-fail_if (leb a.slave_count i) Errno.inval a) λ _ b k.
        Post-then 1 (length b.events) _ _ (Post-assign_master (a.slaves i) b) λ _ c p.
          Post-then 0 (length c.events) _ _
            (Post-write_words (words (n / 2) buf 0) (a.slaves i) o c)
            λ _ d q. Post-drop 1 (length d.events) _ (Post-assign_pdi (a.slaves i) d)
