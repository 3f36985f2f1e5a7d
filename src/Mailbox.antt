-- ===== src/Mailbox.antt =====
-- src/ec_mailbox.c: the mailbox of a slave, written to and read from by datagrams.
pub mod Waits
use cherry_ecat.Prelude.{
  ℕ, zero, suc, ◌+◌, ◌%◌, Bool, true, leb, ltb, ◌==◌, read_u8, read_u16, write_u8, write_u16,
  sub_mod, u64_mod, length, test_bit, if◌then◌else◌,
}
use cherry_ecat.Datagram.Fill.{fpwr, fprd, zero_data}
use cherry_ecat.Slave.{Slave}
use cherry_ecat.Exchange.{
  M, Errno, pure, fail, block, ◌>>=◌, ◌>>◌, assert, fail_if, get, edit, jiffies, queue_ext_datagram,
}
use cherry_ecat.Exchange

-- ec_mailbox_fill_send: it writes the mailbox header; the caller writes from byte 6 on.
unfoldable pub fill_send : ℕ → ℕ → ℕ → M (Unit {0})
fill_send slave_index type size = do
  w ← get
  let s = w.slaves slave_index
  assert (ltb slave_index w.slave_count)
  assert (leb s.configured_rx_mailbox_size w.datagram.mem_size)
  assert (leb (6 + size) s.configured_rx_mailbox_size)
  edit (λ d. record d {
    buf = write_u8 (write_u8 (write_u16 (write_u16 d.buf 0 size) 2 s.station_address) 4 0) 5 type;
  })

-- ec_mailbox_send
unfoldable pub send : ℕ → M (Unit {0})
send slave_index = do
  w ← get
  let s = w.slaves slave_index
  fail_if (leb w.slave_count slave_index) Errno.inval
  edit (λ d.
      record (fpwr d s.station_address s.configured_rx_mailbox_offset
        s.configured_rx_mailbox_size) { netdev_idx = s.netdev_idx })
  queue_ext_datagram true true

-- One read of the status of the sync manager with index 1, at 0x800 + 8: whether the mailbox is full.
unfoldable pub status_once : Slave → M Bool
status_once s = do
  edit (λ d. record (zero_data (fprd d s.station_address 0x808 8)) { netdev_idx = s.netdev_idx })
  queue_ext_datagram true true
  w ← get
  pure (test_bit (read_u8 w.datagram.buf 5) 3)

-- The loop at `check_again`; each turn uses up an event, so that the fuel ends after the events.
unfoldable pub poll_status : ℕ → Slave → ℕ → ℕ → M (Unit {0})
poll_status zero s start_time timeout_ns = block
poll_status (suc fuel) s start_time timeout_ns = do
  full ← status_once s
  let again = poll_status fuel s start_time timeout_ns
  if full then pure tt else do
    now ← jiffies
    if ltb timeout_ns (sub_mod u64_mod now start_time) then fail Errno.mbox_empty else again

-- ec_mailbox_read_status
unfoldable pub read_status : ℕ → ℕ → M (Unit {0})
read_status slave_index timeout_ns = do
  w ← get
  fail_if (leb w.slave_count slave_index) Errno.inval
  start_time ← jiffies
  poll_status (suc (length w.events)) (w.slaves slave_index) start_time timeout_ns

-- ec_mailbox_receive: the type and the size of the mailbox that is in the datagram's data then.
unfoldable pub receive : ℕ → ℕ → M (ℕ × ℕ)
receive slave_index timeout_ns = do
  w ← get
  let s = w.slaves slave_index
  fail_if (leb w.slave_count slave_index) Errno.inval
  read_status slave_index timeout_ns
  w' ← get
  assert (leb s.configured_tx_mailbox_size w'.datagram.mem_size)
  edit (λ d.
      record (zero_data
        (fprd d s.station_address s.configured_tx_mailbox_offset s.configured_tx_mailbox_size)) {
          netdev_idx = s.netdev_idx;
        })
  queue_ext_datagram true true
  w'' ← get
  let size = read_u16 w''.datagram.buf 0
  let type = read_u8 w''.datagram.buf 5 % 16
  assert (leb size s.configured_tx_mailbox_size)
  fail_if (type == 0) Errno.mbox
  pure (type, size)
