-- ===== src/Coe/Upload.antt =====
-- src/ec_coe.c: ec_coe_upload. The bytes that it copies to the caller's buffer, from the buffer's
-- start on, are those that it emits; its result is the value stored through `size`.
use cherry_ecat.Prelude.{
  ℕ, zero, suc, ◌+◌, ◌-◌, ◌/◌, ◌%◌, List, Bool, false, not, ltb, ◌==◌, ◌||◌, read_u8, read_u16,
  read_u32, copy_at, replicate, length, u32_mod, if◌then◌else◌, test_bit,
}
use cherry_ecat.Master.Frame.{slice}
use cherry_ecat.Exchange.{M, Errno, pure, block, ◌>>=◌, ◌>>◌, fail_if, get, edit, emit}
use cherry_ecat.Mailbox.{fill_send}
use cherry_ecat.Coe.{sdo_common, sdo_segment, put_common, put_segment, sent_subindex}
use cherry_ecat.Coe.Reply.{service, command, exchange}

-- memcpy out of the mailbox, from the datagram's byte `off` on.
abbrev pub bytes_at : List ℕ → ℕ → ℕ → List ℕ
bytes_at buf off n = slice (read_u8 buf) off n

-- The expedited answer: up to four bytes in the header. They are copied before the size of the
-- caller's buffer is compared.
unfoldable pub upload_expedited : ℕ → ℕ → List ℕ → M ℕ
upload_expedited maxsize recv_size buf = do
  let total_size = if test_bit (read_u8 buf 8) 0 then 4 - read_u8 buf 8 / 4 % 4 else 4
  fail_if (ltb recv_size (total_size + 6)) Errno.coe_size
  emit (bytes_at buf 12 total_size)
  fail_if (ltb maxsize total_size) Errno.coe_size
  pure total_size

-- The request for the next segment.
unfoldable pub request_segment : ℕ → Bool → M (Unit {0})
request_segment slave_index toggle = do
  fill_send slave_index 3 10
  edit (λ d. record d {
    buf = copy_at 9 (replicate 7 0) (put_segment (sdo_segment false 0 toggle 3) d.buf);
  })

-- The number of bytes in a segment: the header's count of unused bytes holds for the shortest.
abbrev pub segment_size : ℕ → List ℕ → ℕ
segment_size recv_size buf = if recv_size == 10 then 7 - read_u8 buf 8 / 2 % 8 else recv_size - 3

-- The loop of ec_coe_upload; each turn uses up events, so that the fuel ends after them.
unfoldable pub upload_segments : ℕ → ℕ → ℕ → ℕ → Bool → M ℕ
upload_segments zero slave_index total_size offset toggle = block
upload_segments (suc fuel) slave_index total_size offset toggle = do
  request_segment slave_index toggle
  r ← exchange slave_index 10
  let buf = r.1
  fail_if (not (service buf == 3) || not (command buf == 0)) Errno.coe_request
  let data_size = segment_size r.0 buf
  let offset' = (offset + data_size) % u32_mod
  fail_if (ltb total_size offset') Errno.coe_size
  emit (bytes_at buf 9 data_size)
  let again = upload_segments fuel slave_index total_size offset' (not toggle)
  if test_bit (read_u8 buf 8) 0
      then (fail_if (not (offset' == total_size)) Errno.coe_size >> pure total_size)
      else again

-- The normal answer, with the first bytes of a longer transfer.
unfoldable pub upload_normal : ℕ → ℕ → ℕ → List ℕ → M ℕ
upload_normal slave_index maxsize recv_size buf = do
  fail_if (ltb recv_size 10) Errno.coe_size
  let data_size = recv_size - 10
  let total_size = read_u32 buf 12
  fail_if (ltb maxsize total_size) Errno.coe_size
  emit (bytes_at buf 16 data_size)
  w ← get
  if ltb data_size total_size
      then upload_segments (suc (length w.events)) slave_index total_size data_size false
      else pure total_size

-- ec_coe_upload
unfoldable pub upload : ℕ → ℕ → ℕ → ℕ → Bool → M ℕ
upload slave_index index subindex maxsize complete_access = do
  fill_send slave_index 3 10
  edit (λ d. record d {
    buf = copy_at 12 (replicate 4 0) (
        put_common (sdo_common 0 0 0 complete_access 2) index
          (sent_subindex complete_access subindex) d.buf);
  })
  r ← exchange slave_index 6
  let buf = r.1
  fail_if (not (service buf == 3) || not (command buf == 2)) Errno.coe_request
  fail_if
      (not (read_u16 buf 9 == index)
        || not (read_u8 buf 11 == sent_subindex complete_access subindex))
      Errno.coe_request
  if test_bit (read_u8 buf 8) 1
      then upload_expedited maxsize r.0 buf
      else upload_normal slave_index maxsize r.0 buf
