-- ===== src/Slave/Config/Stages.antt =====
-- src/ec_slave.c, ec_slave_config in its parts, and the whole.
use cherry_ecat.Prelude.{
  ℕ, zero, suc, ◌+◌, ◌*◌, ◌/◌, ◌%◌, Bool, true, false, if◌then◌else◌, not, ◌==◌, ◌&&◌, ltb, List,
  [], ◌∷◌, Option, none, some, length, write_u16, write_u32, write_u64, read_u32, test_bit,
  bytes_u16, bytes_u32, sub_mod, u32_mod, u64_mod,
}
use cherry_ecat.Datagram.Fill.{fprd, zero_data}
use cherry_ecat.Exchange.{
  M, Errno, pure, fail, fail_if, assert, block, ◌>>=◌, ◌>>◌, get, edit, edit_slave, jiffies,
  queue_ext_datagram,
}
use cherry_ecat.Coe.Download.{download}
use cherry_ecat.Slave.State.{
  state_change, state_init, state_preop, state_boot, state_safeop, state_op,
}
use cherry_ecat.Slave.Config.{Sm, Config, Setup, sm_config, fmmu_config, put_pages, write_area}

-- Lines 440 to 442; the count is a uint8_t.
abbrev pub coe_support : Setup → Bool
coe_support st = test_bit st.mailbox_protocols 2

abbrev pub pdo_sm_count : Setup → ℕ
pdo_sm_count st = if coe_support st then sub_mod 256 st.sm_count 2 else st.sm_count

abbrev pub pdo_sm_offset : Setup → ℕ
pdo_sm_offset st = if coe_support st then 2 else 0

-- The FMMUs, the sync managers and the DC assignment are cleared.
unfoldable pub clear_areas : ℕ → Setup → M (Unit {0})
unfolding write_area
clear_areas i st = do
  write_area true i 0x600 (16 * st.base_fmmu_count) (λ buf. buf)
  write_area true i 0x800 (8 * st.base_sync_count) (λ buf. buf)
  write_area true i 0x980 2 (λ buf. buf)

-- The two sync managers of the mailbox, and what the slave then keeps of them.
unfoldable pub mailbox_sms : ℕ → Sm → Sm → M (Unit {0})
unfolding write_area sm_config
mailbox_sms i write read = do
  write_area true i 0x800 16 (λ buf. sm_config read (sm_config write buf 0) 8)
  edit_slave i (λ s. record s {
    configured_rx_mailbox_offset = write.physical_start_address;
    configured_rx_mailbox_size = write.length;
    configured_tx_mailbox_offset = read.physical_start_address;
    configured_tx_mailbox_size = read.length;
  })

-- A sync manager of the BOOT mailbox; of its fields sm_config reads these four only.
abbrev pub boot_sm : Sm → ℕ → ℕ → ℕ → Sm
boot_sm sm offset size control = record sm {
  physical_start_address = offset;
  length = size;
  control = control;
  enable = 1;
}

-- The way to BOOT.
unfoldable pub to_boot : ℕ → Setup → M (Unit {0})
unfolding mailbox_sms state_change
to_boot i st = do
  fail_if (not (test_bit st.mailbox_protocols 3)) Errno.nosupp
  mailbox_sms i (boot_sm (st.sm_info 0) st.boot_rx_mailbox_offset st.boot_rx_mailbox_size 0x26)
      (boot_sm (st.sm_info 1) st.boot_tx_mailbox_offset st.boot_tx_mailbox_size 0x22)
  state_change i state_boot

-- A count in one byte, or in two if it needs them.
abbrev pub count_bytes : ℕ → List ℕ
count_bytes n = if ltb 255 n then bytes_u16 n else n ∷ []

abbrev pub zero_bytes : ℕ → List ℕ
zero_bytes n = if ltb 255 n then 0 ∷ 0 ∷ [] else 0 ∷ []

-- The entries of a PDO assignment from number `k` on, each a word; the subindex is a uint8_t.
unfoldable pub assign_entries : ℕ → ℕ → ℕ → List ℕ → M (Unit {0})
unfolding download
assign_entries i index k [] = pure tt
assign_entries i index k (e ∷ es) =
    download i index ((1 + k) % 256) (bytes_u16 e) false >> assign_entries i index (k + 1) es

-- The entries of a PDO mapping, each a double word.
unfoldable pub map_entries : ℕ → ℕ → ℕ → List ℕ → M (Unit {0})
unfolding download
map_entries i index k [] = pure tt
map_entries i index k (e ∷ es) =
    download i index ((1 + k) % 256) (bytes_u32 e) false >> map_entries i index (k + 1) es

-- The mappings of the PDOs of a sync manager, from PDO number `k` on: the count is set to 0, the
-- entries are written, and the count, of which one byte is sent, is set.
unfoldable pub map_pdos : ℕ → Sm → ℕ → List ℕ → M (Unit {0})
unfolding download map_entries
map_pdos i sm k [] = pure tt
map_pdos i sm k (pdo ∷ pdos) = do
  download i pdo 0 (0 ∷ []) false
  map_entries i pdo 0 (sm.pdo_mapping k)
  download i pdo 0 (length (sm.pdo_mapping k) % 256 ∷ []) false
  map_pdos i sm (k + 1) pdos

-- The PDO assignments 0x1c12 and 0x1c13, and the PDO mappings.
unfoldable pub pdo_objects : ℕ → Setup → M (Unit {0})
unfolding download assign_entries map_pdos
pdo_objects i st = do
  let out = st.sm_info 2
  let inp = st.sm_info 3
  download i 0x1c12 0 (zero_bytes (length out.pdo_assign)) false
  download i 0x1c13 0 (zero_bytes (length inp.pdo_assign)) false
  assign_entries i 0x1c12 0 out.pdo_assign
  assign_entries i 0x1c13 0 inp.pdo_assign
  download i 0x1c12 0 (count_bytes (length out.pdo_assign)) false
  download i 0x1c13 0 (count_bytes (length inp.pdo_assign)) false
  if st.enable_pdo_configuration
      then map_pdos i out 0 out.pdo_assign >> map_pdos i inp 0 inp.pdo_assign
      else pure tt

-- The sync managers and the FMMUs of the process data.
unfoldable pub process_pages : ℕ → Setup → M (Unit {0})
unfolding write_area put_pages sm_config fmmu_config
process_pages i st = do
  let n = pdo_sm_count st
  let k = pdo_sm_offset st
  write_area true i (0x800 + 8 * k) (8 * n) (λ buf. put_pages sm_config 8 st.sm_info k n 0 buf)
  write_area true i 0x600 (16 * n) (λ buf. put_pages fmmu_config 16 st.sm_info k n 0 buf)

-- The loop at `read_check`: the difference of the slave's system time is polled until it is small.
unfoldable pub poll_difference : ℕ → ℕ → ℕ → M (Unit {0})
poll_difference zero i count = block
poll_difference (suc fuel) i count = do
  w ← get
  let s = w.slaves i
  edit (λ d. record (zero_data (fprd d s.station_address 0x92c 4)) { netdev_idx = s.netdev_idx })
  queue_ext_datagram true true
  w' ← get
  let again = poll_difference fuel i (count + 1)
  if ltb 100 (read_u32 w'.datagram.buf 0 % 0x80000000)
      then (if ltb 15000 (count + 1) then fail Errno.timeout else again)
      else pure tt

unfoldable pub await_difference : ℕ → M (Unit {0})
unfolding poll_difference
await_difference i = do w ← get; poll_difference (suc (length w.events)) i 0

-- The start time of the cyclic operation, at the time `now`.
abbrev pub dc_start_time : Config → ℕ → ℕ
dc_start_time c now =
    let remainder = 100000000 / ((c.cycle_time_0 + c.cycle_time_1) % u32_mod) in
    sub_mod u64_mod ((now + 100000000 + c.cycle_time_0 + c.cycle_time_1) % u64_mod) remainder
    + c.shift_time_0

-- The data of the four datagrams that set the clock.
abbrev pub offset_data : Setup → List ℕ → List ℕ
offset_data st buf = write_u32 (write_u64 buf 0 st.system_time_offset) 8 st.transmission_delay

abbrev pub cycle_data : Config → List ℕ → List ℕ
cycle_data c buf = write_u32 (write_u32 buf 0 c.cycle_time_0) 4 c.cycle_time_1

abbrev pub start_data : Config → ℕ → List ℕ → List ℕ
start_data c now buf = write_u64 buf 0 (dc_start_time c now)

abbrev pub activate_data : Config → List ℕ → List ℕ
activate_data c buf = write_u16 buf 0 c.dc_assign_activate

abbrev pub no_cycle : Config → Bool
no_cycle c = (c.cycle_time_0 + c.cycle_time_1) % u32_mod == 0

-- The start of the cyclic operation. A division by 0, which the source does not rule out, is taken
-- as a failed assertion.
unfoldable pub start_cycles : ℕ → Config → M (Unit {0})
unfolding write_area
start_cycles i c = do
  assert (not (no_cycle c))
  now ← jiffies
  write_area false i 0x990 8 (start_data c now)
  write_area false i 0x980 2 (activate_data c)

-- The distributed clock.
unfoldable pub start_clock : ℕ → Setup → Config → M (Unit {0})
unfolding write_area await_difference start_cycles
start_clock i st c = do
  assert st.base_dc_supported
  write_area false i 0x920 12 (offset_data st)
  write_area false i 0x9a0 8 (cycle_data c)
  await_difference i
  start_cycles i c

-- What a configuration of the slave's user adds before PREOP is left.
unfoldable pub user_config : ℕ → Setup → Option Config → M (Unit {0})
unfolding pdo_objects process_pages start_clock
user_config i st none = pure tt
user_config i st (some c) = do
  if st.enable_pdo_assign && coe_support st then pdo_objects i st else pure tt
  process_pages i st
  if c.dc_assign_activate == 0 then pure tt else start_clock i st c

-- `if (slave->current_state == slave->requested_state) { ret = 0; goto errorout; }`
unfoldable pub unless_reached : ℕ → M (Unit {0}) → M (Unit {0})
unless_reached i m = do
  w ← get
  if (w.slaves i).current_state == (w.slaves i).requested_state then pure tt else m

-- From PREOP on.
unfoldable pub from_preop : ℕ → Setup → M (Unit {0})
unfolding user_config state_change unless_reached
from_preop i st = do
  user_config i st st.config
  state_change i state_safeop
  unless_reached i (state_change i state_op)

-- From INIT on.
unfoldable pub from_init : ℕ → Setup → M (Unit {0})
unfolding mailbox_sms state_change from_preop unless_reached
from_init i st = do
  if coe_support st then mailbox_sms i (st.sm_info 0) (st.sm_info 1) else pure tt
  state_change i state_preop
  unless_reached i (from_preop i st)

-- Once INIT is reached and is not the end.
unfoldable pub beyond_init : ℕ → Setup → M (Unit {0})
unfolding to_boot from_init
beyond_init i st = do
  w ← get
  if (w.slaves i).requested_state == state_boot then to_boot i st else from_init i st

-- ec_slave_config
unfoldable pub slave_config : ℕ → Setup → M (Unit {0})
unfolding state_change clear_areas beyond_init unless_reached
slave_config i st = do
  state_change i state_init
  clear_areas i st
  unless_reached i (beyond_init i st)
