-- ===== src/Sii.antt =====
-- src/ec_sii.c: reading and writing the EEPROM (SII) of a slave through its registers at 0x500 and
-- 0x502.
pub mod Waits
pub mod Results
use cherry_ecat.Prelude.{
  ℕ, zero, suc, ◌+◌, ◌/◌, ◌%◌, List, [], ◌∷◌, Bool, true, leb, ltb, not, ◌==◌, read_u16, read_u32,
  write_u8, write_u16, sub_mod, u64_mod, u16_mod, length, test_bit, if◌then◌else◌, get_or,
}
use cherry_ecat.Datagram.Fill.{fpwr, fprd, zero_data}
use cherry_ecat.Slave.{Slave}
use cherry_ecat.Exchange.{
  M, Errno, pure, fail, block, ◌>>=◌, ◌>>◌, fail_if, get, edit, jiffies, queue_ext_datagram,
}

-- SII_TIMEOUT_NS, 200 ms.
abbrev pub sii_timeout_ns : ℕ
sii_timeout_ns = 200000000

-- ec_sii_assign_master
unfoldable pub assign_master : Slave → M (Unit {0})
assign_master s = do
  edit (λ d. fpwr d s.station_address 0x500 1)
  edit (λ d. record d { buf = write_u8 d.buf 0 0; netdev_idx = s.netdev_idx })
  queue_ext_datagram true true

-- esc_sii_assign_pdi
unfoldable pub assign_pdi : Slave → M (Unit {0})
assign_pdi s = do
  edit (λ d. fpwr d s.station_address 0x500 1)
  edit (λ d. record d { buf = write_u8 d.buf 0 1; netdev_idx = s.netdev_idx })
  queue_ext_datagram true true

-- One read of `size` bytes at the control register: the busy flag, or an error on the error flag.
unfoldable pub check_once : Slave → ℕ → M Bool
check_once s size = do
  edit (λ d. record (zero_data (fprd d s.station_address 0x502 size)) { netdev_idx = s.netdev_idx })
  queue_ext_datagram true true
  w ← get
  fail_if (test_bit (read_u16 w.datagram.buf 0) 13) Errno.sii
  pure (test_bit (read_u16 w.datagram.buf 0) 15)

-- The loop at `sii_check`; each turn uses up an event, so that the fuel ends after the events.
unfoldable pub poll_ready : ℕ → Slave → ℕ → ℕ → M (Unit {0})
poll_ready zero s size start_time = block
poll_ready (suc fuel) s size start_time = do
  busy ← check_once s size
  let again = poll_ready fuel s size start_time
  if busy
      then (jiffies >>= λ now.
          if ltb sii_timeout_ns (sub_mod u64_mod now start_time) then fail Errno.timeout else again)
      else pure tt

-- ec_sii_read_dword
unfoldable pub read_dword : Slave → ℕ → M ℕ
read_dword s woffset = do
  edit (λ d. fpwr d s.station_address 0x502 4)
  edit (λ d. record d {
    buf = write_u16 (write_u8 (write_u8 d.buf 0 0x80) 1 0x01) 2 woffset;
    netdev_idx = s.netdev_idx;
  })
  queue_ext_datagram true true
  start_time ← jiffies
  w ← get
  poll_ready (suc (length w.events)) s 10 start_time
  w' ← get
  pure (read_u32 w'.datagram.buf 6)

-- ec_sii_write_word
unfoldable pub write_word : Slave → ℕ → ℕ → M (Unit {0})
write_word s woffset value = do
  edit (λ d. fpwr d s.station_address 0x502 8)
  edit (λ d. record d {
    buf =
        write_u16 (write_u16 (write_u16 (write_u8 (write_u8 d.buf 0 0x81) 1 0x02) 2 woffset) 4 0) 6
          value;
    netdev_idx = s.netdev_idx;
  })
  queue_ext_datagram true true
  start_time ← jiffies
  w ← get
  poll_ready (suc (length w.events)) s 2 start_time
  w' ← get
  fail_if (test_bit (read_u16 w'.datagram.buf 0) 14) Errno.sii

-- The loop of ec_sii_read: `n` double words from the word offset `woffset` on.
unfoldable pub read_dwords : ℕ → Slave → ℕ → M (List ℕ)
read_dwords zero s woffset = pure []
read_dwords (suc n) s woffset = do
  v ← read_dword s (woffset % u16_mod)
  vs ← read_dwords n s (woffset + 2)
  pure (v ∷ vs)

-- ec_sii_read: the double words that it stores in `buf`.
unfoldable pub read : ℕ → ℕ → ℕ → M (List ℕ)
read slave_index woffset len = do
  fail_if (not (len % 4 == 0)) Errno.inval
  w ← get
  fail_if (leb w.slave_count slave_index) Errno.inval
  let s = w.slaves slave_index
  assign_master s
  vs ← read_dwords (len / 4) s woffset
  assign_pdi s
  pure vs

-- The loop of ec_sii_write.
unfoldable pub write_words : List ℕ → Slave → ℕ → M (Unit {0})
write_words [] s woffset = pure tt
write_words (v ∷ vs) s woffset = do
  write_word s (woffset % u16_mod) v
  write_words vs s (woffset + 1)

-- The first `n` words of a buffer; past its end the model reads 0.
abbrev pub words : ℕ → List ℕ → ℕ → List ℕ
words zero buf i = []
words (suc n) buf i = get_or buf i 0 ∷ words n buf (i + 1)

-- ec_sii_write
unfoldable pub write : ℕ → ℕ → List ℕ → ℕ → M (Unit {0})
write slave_index woffset buf len = do
  fail_if (not (len % 2 == 0)) Errno.inval
  w ← get
  fail_if (leb w.slave_count slave_index) Errno.inval
  let s = w.slaves slave_index
  assign_master s
  write_words (words (len / 2) buf 0) s woffset
  assign_pdi s
