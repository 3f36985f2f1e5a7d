-- ===== src/Coe/Answers.antt =====
-- What src/ec_coe.c makes of single answers of a slave.
use cherry_ecat.Prelude.{
  ℕ, ◌-◌, ◌<◌, ◌≤◌, ◌≡◌, refl, List, ◌++◌, Bool, true, false, ◌==◌, ltb, arith, read_u8, read_u32,
  length,
}
use cherry_ecat.Exchange.{Io, Out, Errno, fail_if}
use cherry_ecat.Master.Wire.{length-slice}
use cherry_ecat.Coe.{sent_subindex}
use cherry_ecat.Coe.Reply.{check_download}
use cherry_ecat.Coe.Upload.{bytes_at, upload_normal}

fail_if-true : (b : Bool) (e : Errno) (w : Io) → b ≡ true → fail_if b e w ≡ (Out.err e, w)
fail_if-true true e w h = refl
fail_if-true false e w h = absurd (ground (arith, h))

-- A download with complete access sends subindex 0, and refuses with EC_ERR_COE_REQUEST every answer
-- that has the subindex sent, where the subindex given is not 0.
pub check_download_refuses :
    (index subindex : ℕ) (buf : List ℕ) (w : Io)
    → read_u8 buf 11 ≡ sent_subindex true subindex
    → 0 < subindex
    → check_download index subindex buf w ≡ (Out.err Errno.coe_request, w)
unfolding check_download
check_download_refuses index subindex buf w h k =
    fail_if-true _ Errno.coe_request w (ground (arith, h, other))
  where
    other : (read_u8 buf 11 == subindex) ≡ false
    other = ground (arith, h)

-- The answer to an upload that holds the whole object of `total` bytes, at most `maxsize`: all bytes
-- behind its header are copied to the caller's buffer, as many as the mailbox gives, not `total`.
pub upload_normal_copies :
    (i maxsize size : ℕ) (buf : List ℕ) (w : Io)
    → 10 ≤ size
    → read_u32 buf 12 ≤ maxsize
    → read_u32 buf 12 ≤ size - 10
    → (upload_normal i maxsize size buf w ≡ (
      Out.ok (read_u32 buf 12),
      record w { written = w.written ++ bytes_at buf 16 (size - 10) },
    ))
      × (length (bytes_at buf 16 (size - 10)) ≡ size - 10)
unfolding upload_normal
upload_normal_copies i maxsize size buf w h k l =
    (rw (large, room, whole) refl, length-slice (read_u8 buf) 16 (size - 10))
  where
    large : ltb size 10 ≡ false
    large = ground arith

    room : ltb maxsize (read_u32 buf 12) ≡ false
    room = ground arith

    whole : ltb (size - 10) (read_u32 buf 12) ≡ false
    whole = ground arith
