-- ===== src/Slave/Config/Requests/Stages.antt =====
-- src/ec_slave.c, ec_slave_config: its steps leave the state that is requested of a slave as it is.
use cherry_ecat.Prelude.{
  ℕ, zero, suc, ◌+◌, ◌*◌, ◌%◌, Bool, true, false, if◌then◌else◌, not, ◌==◌, ◌&&◌, ltb, List, [],
  ◌∷◌, Option, none, some, length, read_u32, bytes_u16, bytes_u32, refl,
}
use cherry_ecat.Exchange.{M, Io, Errno, pure, fail, ◌>>=◌, jiffies}
use cherry_ecat.Coe.Download.{download}
use cherry_ecat.Slave.Config.Requests.{
  Asks, Kept, queue-Kept, then-Kept, assert-Kept, if-Kept, edited, download-Kept,
}
use cherry_ecat.Slave.Config.{Sm, Config, Setup, write_area, put_pages, sm_config, fmmu_config}
use cherry_ecat.Slave.Config.Stages.{
  start_cycles, start_data, activate_data, offset_data, cycle_data, no_cycle, await_difference,
  start_clock, user_config, coe_support, clear_areas, mailbox_sms, count_bytes, zero_bytes,
  assign_entries, map_entries, map_pdos, pdo_objects, process_pages, poll_difference, pdo_sm_count,
  pdo_sm_offset,
}

-- From every state that `q` is requested of the slave `k` in.
abbrev pub Steady : {A : Type 0} → ℕ → ℕ → M A → Type 0
Steady k q m = (w : Io) → Asks k q w → Kept k q (m w)

pure-Steady : (k q : ℕ) → Steady k q (pure tt)
pure-Steady k q w h = h

pub bind-Steady :
    {A B : Type 0} (k q : ℕ) (m : M A) (f : A → M B)
    → Steady k q m
    → ((a : A) → Steady k q (f a))
    → Steady k q (m >>= f)
bind-Steady k q m f h g w e = then-Kept k q (m w) f (h w e) λ a w' l. g a w' l

pub if-Steady :
    {A : Type 0} (k q : ℕ) (b : Bool) (m m' : M A)
    → Steady k q m
    → Steady k q m'
    → Steady k q (if b then m else m')
if-Steady k q true m m' h h' = h
if-Steady k q false m m' h h' = h'

module _ (z q : ℕ) where
  write_area-Steady :
      (zeroed : Bool) (i ado size : ℕ) (f : List ℕ → List ℕ)
      → Steady z q (write_area zeroed i ado size f)
  unfolding write_area
  write_area-Steady zeroed i ado size f w h = queue-Kept z q true _ h

  download-Steady :
      (i index subindex : ℕ) (buf : List ℕ) (c : Bool)
      → Steady z q (download i index subindex buf c)
  download-Steady i index subindex buf c w h = download-Kept z q i index subindex buf c w h

  pub clear_areas-Steady : (i : ℕ) (st : Setup) → Steady z q (clear_areas i st)
  unfolding clear_areas
  clear_areas-Steady i st =
      bind-Steady z q _ _ (write_area-Steady true i 0x600 (16 * st.base_fmmu_count) (λ buf. buf))
        λ _.
          bind-Steady z q _ _ (write_area-Steady true i 0x800 (8 * st.base_sync_count) (λ buf. buf))
            λ _. write_area-Steady true i 0x980 2 (λ buf. buf)

  pub mailbox_sms-Steady : (i : ℕ) (write read : Sm) → Steady z q (mailbox_sms i write read)
  unfolding mailbox_sms
  mailbox_sms-Steady i write read =
      bind-Steady z q _ _
        (write_area-Steady true i 0x800 16 (λ buf. sm_config read (sm_config write buf 0) 8))
        λ _ w h. edited z q i w _ refl h

  assign_entries-Steady : (i index k : ℕ) (es : List ℕ) → Steady z q (assign_entries i index k es)
  unfolding assign_entries
  assign_entries-Steady i index k [] = (pure-Steady z q)
  assign_entries-Steady i index k (e ∷ es) =
      bind-Steady z q _ _ (download-Steady i index ((1 + k) % 256) (bytes_u16 e) false)
        λ _. assign_entries-Steady i index (k + 1) es

  map_entries-Steady : (i index k : ℕ) (es : List ℕ) → Steady z q (map_entries i index k es)
  unfolding map_entries
  map_entries-Steady i index k [] = (pure-Steady z q)
  map_entries-Steady i index k (e ∷ es) =
      bind-Steady z q _ _ (download-Steady i index ((1 + k) % 256) (bytes_u32 e) false)
        λ _. map_entries-Steady i index (k + 1) es

  map_pdos-Steady : (i : ℕ) (sm : Sm) (k : ℕ) (pdos : List ℕ) → Steady z q (map_pdos i sm k pdos)
  unfolding map_pdos
  map_pdos-Steady i sm k [] = (pure-Steady z q)
  map_pdos-Steady i sm k (pdo ∷ pdos) =
      bind-Steady z q _ _ (download-Steady i pdo 0 (0 ∷ []) false) λ _.
        bind-Steady z q _ _ (map_entries-Steady i pdo 0 (sm.pdo_mapping k)) λ _.
          bind-Steady z q _ _ (download-Steady i pdo 0 (length (sm.pdo_mapping k) % 256 ∷ []) false)
            λ _. map_pdos-Steady i sm (k + 1) pdos

  pdo_objects-Steady : (i : ℕ) (st : Setup) → Steady z q (pdo_objects i st)
  unfolding pdo_objects
  pdo_objects-Steady i st =
      let out = (st.sm_info 2).pdo_assign in
      let inp = (st.sm_info 3).pdo_assign in
      bind-Steady z q _ _ (download-Steady i 0x1c12 0 (zero_bytes (length out)) false) λ _.
        bind-Steady z q _ _ (download-Steady i 0x1c13 0 (zero_bytes (length inp)) false) λ _.
          bind-Steady z q _ _ (assign_entries-Steady i 0x1c12 0 out) λ _.
            bind-Steady z q _ _ (assign_entries-Steady i 0x1c13 0 inp) λ _.
              bind-Steady z q _ _ (download-Steady i 0x1c12 0 (count_bytes (length out)) false) λ _.
                bind-Steady z q _ _ (download-Steady i 0x1c13 0 (count_bytes (length inp)) false)
                  λ _.
                    if-Steady z q st.enable_pdo_configuration _ (pure tt)
                      (bind-Steady z q _ _ (map_pdos-Steady i (st.sm_info 2) 0 out)
                        λ _. map_pdos-Steady i (st.sm_info 3) 0 inp)
                      (pure-Steady z q)

  process_pages-Steady : (i : ℕ) (st : Setup) → Steady z q (process_pages i st)
  unfolding process_pages
  process_pages-Steady i st =
      bind-Steady z q _ _
        (write_area-Steady true i (0x800 + 8 * pdo_sm_offset st) (8 * pdo_sm_count st)
          (λ buf. put_pages sm_config 8 st.sm_info (pdo_sm_offset st) (pdo_sm_count st) 0 buf))
        λ _.
          write_area-Steady true i 0x600 (16 * pdo_sm_count st)
            (λ buf. put_pages fmmu_config 16 st.sm_info (pdo_sm_offset st) (pdo_sm_count st) 0 buf)

  poll_difference-Steady : (fuel i count : ℕ) → Steady z q (poll_difference fuel i count)
  unfolding poll_difference
  poll_difference-Steady zero i count w h = tt
  poll_difference-Steady (suc fuel) i count w h =
      then-Kept z q _ _ (queue-Kept z q true _ h) λ _ a l.
        if-Kept z q (ltb 100 (read_u32 a.datagram.buf 0 % 0x80000000))
          (if ltb 15000 (count + 1) then fail Errno.timeout else poll_difference fuel i (count + 1))
          (pure tt) a
          (if-Kept z q (ltb 15000 (count + 1)) (fail Errno.timeout)
            (poll_difference fuel i (count + 1)) a tt
            (poll_difference-Steady fuel i (count + 1) a l))
          l

  await_difference-Steady : (i : ℕ) → Steady z q (await_difference i)
  unfolding await_difference
  await_difference-Steady i w h = poll_difference-Steady (suc (length w.events)) i 0 w h

  start_cycles-Steady : (i : ℕ) (c : Config) → Steady z q (start_cycles i c)
  unfolding start_cycles
  start_cycles-Steady i c = bind-Steady z q _ _ (assert-Kept z q (not (no_cycle c))) λ _.
      bind-Steady z q jiffies _ (λ w h. h)
        λ now.
          bind-Steady z q _ _ (write_area-Steady false i 0x990 8 (start_data c now))
            λ _. write_area-Steady false i 0x980 2 (activate_data c)

  start_clock-Steady : (i : ℕ) (st : Setup) (c : Config) → Steady z q (start_clock i st c)
  unfolding start_clock
  start_clock-Steady i st c = bind-Steady z q _ _ (assert-Kept z q st.base_dc_supported) λ _.
      bind-Steady z q _ _ (write_area-Steady false i 0x920 12 (offset_data st)) λ _.
        bind-Steady z q _ _ (write_area-Steady false i 0x9a0 8 (cycle_data c))
          λ _. bind-Steady z q _ _ (await_difference-Steady i) λ _. start_cycles-Steady i c

  pub user_config-Steady :
      (i : ℕ) (st : Setup) (o : Option Config) → Steady z q (user_config i st o)
  unfolding user_config
  user_config-Steady i st none = (pure-Steady z q)
  user_config-Steady i st (some c) =
      bind-Steady z q _ _
        (if-Steady z q (st.enable_pdo_assign && coe_support st) (pdo_objects i st) (pure tt)
          (pdo_objects-Steady i st) (pure-Steady z q))
        λ _. bind-Steady z q _ _ (process_pages-Steady i st) λ _.
          if-Steady z q (c.dc_assign_activate == 0) (pure tt) (start_clock i st c) (pure-Steady z q)
            (start_clock-Steady i st c)
