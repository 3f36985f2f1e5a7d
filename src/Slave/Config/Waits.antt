-- ===== src/Slave/Config/Waits.antt =====
-- src/ec_slave.c, ec_slave_config: it has an end where finitely many sleeps end.
use cherry_ecat.Prelude.{
  ℕ, zero, suc, ◌+◌, ◌*◌, ◌%◌, ◌<◌, Bool, true, false, if◌then◌else◌, not, ◌==◌, ◌&&◌, ltb, List,
  [], ◌∷◌, Option, none, some, length, arith, test_bit, read_u32, bytes_u16, bytes_u32,
}
use cherry_ecat.Exchange.{M, Io, Errno, pure, fail, fail_if, assert, ◌>>=◌, get, jiffies}
use cherry_ecat.Exchange.Facts.{
  Post, Post-then, Post-if, Post-drop, Post-fail_if, Post-assert, Post-queue_ext_datagram,
}
use cherry_ecat.Coe.Download.{download}
use cherry_ecat.Coe.Waits.{download-Post}
use cherry_ecat.Slave.State.{
  state_change, state_init, state_preop, state_boot, state_safeop, state_op,
}
use cherry_ecat.Slave.StateFacts.{state_change-Post}
use cherry_ecat.Slave.Config.{Sm, Config, Setup, write_area, put_pages, sm_config, fmmu_config}
use cherry_ecat.Slave.Config.Stages.{
  start_cycles, start_data, activate_data, offset_data, cycle_data, no_cycle, await_difference,
  unless_reached, beyond_init, slave_config, start_clock, user_config, from_preop, from_init,
  coe_support, clear_areas, mailbox_sms, boot_sm, to_boot, count_bytes, zero_bytes, assign_entries,
  map_entries, map_pdos, pdo_objects, process_pages, poll_difference, start_clock, user_config,
  from_preop, from_init, slave_config, pdo_sm_count, pdo_sm_offset,
}

-- What ends from every state.
abbrev EndsAlways : {A : Type 0} → M A → Type 0
EndsAlways m = (w : Io) → Post 0 (length w.events) (m w)

pure-EndsAlways : EndsAlways (pure tt)
pure-EndsAlways w = omega arith

bind-EndsAlways :
    {A B : Type 0} (m : M A) (f : A → M B)
    → EndsAlways m
    → ((a : A) → EndsAlways (f a))
    → EndsAlways (m >>= f)
bind-EndsAlways m f h g w = Post-then 0 (length w.events) (m w) f (h w) λ a w' k. g a w'

get-EndsAlways :
    {B : Type 0} (f : Io → M B) → ((v : Io) → EndsAlways (f v)) → EndsAlways (get >>= f)
get-EndsAlways f g w = g w w

if-EndsAlways :
    {A : Type 0} (b : Bool) (m m' : M A)
    → EndsAlways m
    → EndsAlways m'
    → EndsAlways (if b then m else m')
if-EndsAlways true m m' h h' = h
if-EndsAlways false m m' h h' = h'

fail_if-EndsAlways : (b : Bool) (e : Errno) → EndsAlways (fail_if b e)
fail_if-EndsAlways b e w = Post-fail_if b e w

assert-EndsAlways : (b : Bool) → EndsAlways (assert b)
assert-EndsAlways b w = Post-assert b w

write_area-EndsAlways :
    (z : Bool) (i ado size : ℕ) (f : List ℕ → List ℕ) → EndsAlways (write_area z i ado size f)
unfolding write_area
write_area-EndsAlways z i ado size f w =
    Post-drop 1 (length w.events) _ (Post-queue_ext_datagram true _)

state_change-EndsAlways : (i s : ℕ) → EndsAlways (state_change i s)
state_change-EndsAlways i s w = state_change-Post i s w

download-EndsAlways :
    (i index subindex : ℕ) (buf : List ℕ) (c : Bool) → EndsAlways (download i index subindex buf c)
download-EndsAlways i index subindex buf c w = download-Post i index subindex buf c w

clear_areas-EndsAlways : (i : ℕ) (st : Setup) → EndsAlways (clear_areas i st)
unfolding clear_areas
clear_areas-EndsAlways i st =
    bind-EndsAlways _ _ (write_area-EndsAlways true i 0x600 (16 * st.base_fmmu_count) (λ buf. buf))
      λ _.
        bind-EndsAlways _ _
          (write_area-EndsAlways true i 0x800 (8 * st.base_sync_count) (λ buf. buf))
          λ _. write_area-EndsAlways true i 0x980 2 (λ buf. buf)

mailbox_sms-EndsAlways : (i : ℕ) (write read : Sm) → EndsAlways (mailbox_sms i write read)
unfolding mailbox_sms
mailbox_sms-EndsAlways i write read =
    bind-EndsAlways _ _
      (write_area-EndsAlways true i 0x800 16 (λ buf. sm_config read (sm_config write buf 0) 8))
      λ _ w. omega arith

to_boot-EndsAlways : (i : ℕ) (st : Setup) → EndsAlways (to_boot i st)
unfolding to_boot
to_boot-EndsAlways i st =
    bind-EndsAlways _ _ (fail_if-EndsAlways (not (test_bit st.mailbox_protocols 3)) Errno.nosupp)
      λ _.
        bind-EndsAlways _ _
          (mailbox_sms-EndsAlways i
            (boot_sm (st.sm_info 0) st.boot_rx_mailbox_offset st.boot_rx_mailbox_size 0x26)
            (boot_sm (st.sm_info 1) st.boot_tx_mailbox_offset st.boot_tx_mailbox_size 0x22))
          λ _. state_change-EndsAlways i state_boot

assign_entries-EndsAlways : (i index k : ℕ) (es : List ℕ) → EndsAlways (assign_entries i index k es)
unfolding assign_entries
assign_entries-EndsAlways i index k [] = pure-EndsAlways
assign_entries-EndsAlways i index k (e ∷ es) =
    bind-EndsAlways _ _ (download-EndsAlways i index ((1 + k) % 256) (bytes_u16 e) false)
      λ _. assign_entries-EndsAlways i index (k + 1) es

map_entries-EndsAlways : (i index k : ℕ) (es : List ℕ) → EndsAlways (map_entries i index k es)
unfolding map_entries
map_entries-EndsAlways i index k [] = pure-EndsAlways
map_entries-EndsAlways i index k (e ∷ es) =
    bind-EndsAlways _ _ (download-EndsAlways i index ((1 + k) % 256) (bytes_u32 e) false)
      λ _. map_entries-EndsAlways i index (k + 1) es

map_pdos-EndsAlways : (i : ℕ) (sm : Sm) (k : ℕ) (pdos : List ℕ) → EndsAlways (map_pdos i sm k pdos)
unfolding map_pdos
map_pdos-EndsAlways i sm k [] = pure-EndsAlways
map_pdos-EndsAlways i sm k (pdo ∷ pdos) =
    bind-EndsAlways _ _ (download-EndsAlways i pdo 0 (0 ∷ []) false) λ _.
      bind-EndsAlways _ _ (map_entries-EndsAlways i pdo 0 (sm.pdo_mapping k)) λ _.
        bind-EndsAlways _ _
          (download-EndsAlways i pdo 0 (length (sm.pdo_mapping k) % 256 ∷ []) false)
          λ _. map_pdos-EndsAlways i sm (k + 1) pdos

pdo_objects-EndsAlways : (i : ℕ) (st : Setup) → EndsAlways (pdo_objects i st)
unfolding pdo_objects
pdo_objects-EndsAlways i st =
    let out = (st.sm_info 2).pdo_assign in
    let inp = (st.sm_info 3).pdo_assign in
    bind-EndsAlways _ _ (download-EndsAlways i 0x1c12 0 (zero_bytes (length out)) false) λ _.
      bind-EndsAlways _ _ (download-EndsAlways i 0x1c13 0 (zero_bytes (length inp)) false) λ _.
        bind-EndsAlways _ _ (assign_entries-EndsAlways i 0x1c12 0 out) λ _.
          bind-EndsAlways _ _ (assign_entries-EndsAlways i 0x1c13 0 inp) λ _.
            bind-EndsAlways _ _ (download-EndsAlways i 0x1c12 0 (count_bytes (length out)) false)
              λ _.
                bind-EndsAlways _ _
                  (download-EndsAlways i 0x1c13 0 (count_bytes (length inp)) false)
                  λ _.
                    if-EndsAlways st.enable_pdo_configuration _ (pure tt)
                      (bind-EndsAlways _ _ (map_pdos-EndsAlways i (st.sm_info 2) 0 out)
                        λ _. map_pdos-EndsAlways i (st.sm_info 3) 0 inp)
                      pure-EndsAlways

process_pages-EndsAlways : (i : ℕ) (st : Setup) → EndsAlways (process_pages i st)
unfolding process_pages
process_pages-EndsAlways i st =
    bind-EndsAlways _ _
      (write_area-EndsAlways true i (0x800 + 8 * pdo_sm_offset st) (8 * pdo_sm_count st)
        (λ buf. put_pages sm_config 8 st.sm_info (pdo_sm_offset st) (pdo_sm_count st) 0 buf))
      λ _.
        write_area-EndsAlways true i 0x600 (16 * pdo_sm_count st)
          (λ buf. put_pages fmmu_config 16 st.sm_info (pdo_sm_offset st) (pdo_sm_count st) 0 buf)

poll_difference-Post :
    (fuel i count : ℕ) (w : Io)
    → length w.events < fuel
    → Post 0 (length w.events) (poll_difference fuel i count w)
unfolding poll_difference
poll_difference-Post zero i count w h = absurd (omega arith)
poll_difference-Post (suc fuel) i count w h =
    Post-then 1 (length w.events) _ _ (Post-queue_ext_datagram true _) λ _ a k.
      Post-if (ltb 100 (read_u32 a.datagram.buf 0 % 0x80000000)) 0 (length a.events)
        (if ltb 15000 (count + 1) then fail Errno.timeout else poll_difference fuel i (count + 1))
        (pure tt) a
        (Post-if (ltb 15000 (count + 1)) 0 (length a.events) (fail Errno.timeout)
          (poll_difference fuel i (count + 1)) a tt
          (poll_difference-Post fuel i (count + 1) a (omega arith)))
        (omega arith)

await_difference-EndsAlways : (i : ℕ) → EndsAlways (await_difference i)
unfolding await_difference
await_difference-EndsAlways i w = poll_difference-Post (suc (length w.events)) i 0 w (omega arith)

start_cycles-EndsAlways : (i : ℕ) (c : Config) → EndsAlways (start_cycles i c)
unfolding start_cycles
start_cycles-EndsAlways i c = bind-EndsAlways _ _ (assert-EndsAlways (not (no_cycle c))) λ _.
    bind-EndsAlways jiffies _ (λ w. omega arith)
      λ now.
        bind-EndsAlways _ _ (write_area-EndsAlways false i 0x990 8 (start_data c now))
          λ _. write_area-EndsAlways false i 0x980 2 (activate_data c)

start_clock-EndsAlways : (i : ℕ) (st : Setup) (c : Config) → EndsAlways (start_clock i st c)
unfolding start_clock
start_clock-EndsAlways i st c = bind-EndsAlways _ _ (assert-EndsAlways st.base_dc_supported) λ _.
    bind-EndsAlways _ _ (write_area-EndsAlways false i 0x920 12 (offset_data st)) λ _.
      bind-EndsAlways _ _ (write_area-EndsAlways false i 0x9a0 8 (cycle_data c))
        λ _. bind-EndsAlways _ _ (await_difference-EndsAlways i) λ _. start_cycles-EndsAlways i c

user_config-EndsAlways : (i : ℕ) (st : Setup) (o : Option Config) → EndsAlways (user_config i st o)
unfolding user_config
user_config-EndsAlways i st none = pure-EndsAlways
user_config-EndsAlways i st (some c) =
    bind-EndsAlways _ _
      (if-EndsAlways (st.enable_pdo_assign && coe_support st) (pdo_objects i st) (pure tt)
        (pdo_objects-EndsAlways i st) pure-EndsAlways)
      λ _. bind-EndsAlways _ _ (process_pages-EndsAlways i st) λ _.
        if-EndsAlways (c.dc_assign_activate == 0) (pure tt) (start_clock i st c) pure-EndsAlways
          (start_clock-EndsAlways i st c)

unless_reached-EndsAlways :
    (i : ℕ) (m : M (Unit {0})) → EndsAlways m → EndsAlways (unless_reached i m)
unfolding unless_reached
unless_reached-EndsAlways i m h w =
    if-EndsAlways ((w.slaves i).current_state == (w.slaves i).requested_state) (pure tt) m
      pure-EndsAlways h w

from_preop-EndsAlways : (i : ℕ) (st : Setup) → EndsAlways (from_preop i st)
unfolding from_preop
from_preop-EndsAlways i st = bind-EndsAlways _ _ (user_config-EndsAlways i st st.config) λ _.
    bind-EndsAlways _ _ (state_change-EndsAlways i state_safeop) λ _.
      unless_reached-EndsAlways i (state_change i state_op) (state_change-EndsAlways i state_op)

from_init-EndsAlways : (i : ℕ) (st : Setup) → EndsAlways (from_init i st)
unfolding from_init
from_init-EndsAlways i st =
    bind-EndsAlways _ _
      (if-EndsAlways (coe_support st) (mailbox_sms i (st.sm_info 0) (st.sm_info 1)) (pure tt)
        (mailbox_sms-EndsAlways i (st.sm_info 0) (st.sm_info 1)) pure-EndsAlways)
      λ _.
        bind-EndsAlways _ _ (state_change-EndsAlways i state_preop)
          λ _. unless_reached-EndsAlways i (from_preop i st) (from_preop-EndsAlways i st)

beyond_init-EndsAlways : (i : ℕ) (st : Setup) → EndsAlways (beyond_init i st)
unfolding beyond_init
beyond_init-EndsAlways i st w =
    if-EndsAlways ((w.slaves i).requested_state == state_boot) (to_boot i st) (from_init i st)
      (to_boot-EndsAlways i st) (from_init-EndsAlways i st) w

slave_config-EndsAlways : (i : ℕ) (st : Setup) → EndsAlways (slave_config i st)
unfolding slave_config
slave_config-EndsAlways i st = bind-EndsAlways _ _ (state_change-EndsAlways i state_init) λ _.
    bind-EndsAlways _ _ (clear_areas-EndsAlways i st)
      λ _. unless_reached-EndsAlways i (beyond_init i st) (beyond_init-EndsAlways i st)

-- ec_slave_config has an end where finitely many sleeps end, whatever the slave and the bus answer and whatever is to be
-- configured: it returns, stops at an assertion, or sleeps on a datagram that no event comes for any
-- more, all events before being used up.
pub slave_config-Post :
    (i : ℕ) (st : Setup) (w : Io) → Post 0 (length w.events) (slave_config i st w)
slave_config-Post i st w = slave_config-EndsAlways i st w
