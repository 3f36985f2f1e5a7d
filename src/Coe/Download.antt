-- ===== src/Coe/Download.antt =====
-- src/ec_coe.c: ec_coe_download and the three kinds of requests that it is made of. The object's
-- value `buf` is a list of bytes whose length is the parameter `size`.
use cherry_ecat.Prelude.{
  ℕ, zero, suc, ◌+◌, ◌-◌, ◌/◌, ◌%◌, List, Bool, false, not, leb, ltb, ◌==◌, read_u8, write_u32,
  copy_at, replicate, take, drop, length, min, u16_mod, u32_mod, sub_mod, if◌then◌else◌,
}
use cherry_ecat.Exchange.{M, Errno, pure, block, ◌>>=◌, ◌>>◌, fail_if, get, edit}
use cherry_ecat.Mailbox.{fill_send}
use cherry_ecat.Coe.{bit, sdo_common, sdo_segment, put_common, put_segment, sent_subindex}
use cherry_ecat.Coe.Reply.{service, command, exchange, check_download}

-- ec_coe_download_expedited
unfoldable pub download_expedited : ℕ → ℕ → ℕ → List ℕ → Bool → M (Unit {0})
download_expedited slave_index index subindex buf complete_access = do
  let size = length buf
  fill_send slave_index 3 10
  edit (λ d. record d {
    buf = copy_at (12 + size) (replicate (4 - size) 0) (
        copy_at 12 buf (
          put_common (sdo_common 1 1 (4 - size) complete_access 1) index
            (sent_subindex complete_access subindex) d.buf));
  })
  r ← exchange slave_index 6
  check_download index subindex r.1

-- ec_coe_download_common: the size of the mailbox's data is a uint16_t.
unfoldable pub download_common : ℕ → ℕ → ℕ → List ℕ → Bool → M (Unit {0})
download_common slave_index index subindex buf complete_access = do
  let size = length buf
  fill_send slave_index 3 ((size + 10) % u16_mod)
  edit (λ d. record d {
    buf = copy_at 16 buf (
        write_u32
          (put_common (sdo_common 1 0 0 complete_access 1) index
            (sent_subindex complete_access subindex) d.buf)
          12 size);
  })
  r ← exchange slave_index 6
  check_download index subindex r.1

-- The toggle bit of an answer.
abbrev pub reply_toggle : List ℕ → ℕ
reply_toggle buf = read_u8 buf 8 / 16 % 2

-- ec_coe_download_segment: at least 7 bytes are sent, filled up with 0.
unfoldable pub download_segment : ℕ → List ℕ → Bool → Bool → M (Unit {0})
download_segment slave_index seg toggle last = do
  let size = length seg % u16_mod
  let seg_size = if ltb 7 size then 0 else 7 - size
  let data_size = if ltb 7 size then size else 7
  fill_send slave_index 3 ((data_size + 3) % u16_mod)
  edit (λ d. record d {
    buf =
        copy_at (9 + size) (replicate (7 - size) 0)
          (copy_at 9 (take size seg) (put_segment (sdo_segment last seg_size toggle 0) d.buf));
  })
  r ← exchange slave_index 6
  fail_if (not (service r.1 == 3)) Errno.coe_request
  fail_if (not (command r.1 == 1)) Errno.coe_request
  fail_if (not (reply_toggle r.1 == bit toggle)) Errno.coe_toggle

-- The loop of ec_coe_download; each turn sends at least a byte, so that the fuel never ends.
unfoldable pub download_segments : ℕ → ℕ → ℕ → List ℕ → Bool → M (Unit {0})
download_segments zero slave_index max_data_size buf toggle = block
download_segments (suc fuel) slave_index max_data_size buf toggle = do
  let seg_size = min (length buf) max_data_size
  download_segment slave_index (take seg_size buf) toggle (leb (length buf) max_data_size)
  let rest = drop seg_size buf
  let again = download_segments fuel slave_index max_data_size rest (not toggle)
  if length buf - seg_size == 0 then pure tt else again

-- ec_coe_download
unfoldable pub download : ℕ → ℕ → ℕ → List ℕ → Bool → M (Unit {0})
download slave_index index subindex buf complete_access = do
  w ← get
  fail_if (leb w.slave_count slave_index) Errno.inval
  let size = length buf
  let max_data_size =
      sub_mod u32_mod (sub_mod u32_mod (w.slaves slave_index).configured_rx_mailbox_size 6) 10
  if leb size 4
      then download_expedited slave_index index subindex buf complete_access
      else if leb size max_data_size
      then download_common slave_index index subindex buf complete_access
      else do
        download_common slave_index index subindex (take max_data_size buf) complete_access
        download_segments size slave_index (max_data_size + 7) (drop max_data_size buf) false
