-- ===== src/Slave/Config/Reached.antt =====
-- src/ec_slave.c, ec_slave_config: the state in which a slave is after a configuration.
use cherry_ecat.Prelude.{
  not, ◌*◌, ◌⊎◌, List, test_bit, if◌then◌else◌, ℕ, ◌≡◌, ◌∙◌, Bool, true, false, sym, subst, inl,
  inr, ◌==◌, ◌||◌, ==_iff, arith, ap,
}
use cherry_ecat.Exchange.{Errno, fail_if, M, Io, Out, ok, err, asserted, blocked, pure, ◌>>◌, next}
use cherry_ecat.Exchange.Facts.{Gives, Gives-next, Gives-map, Gives-if}
use cherry_ecat.Exchange.Steps.{Slept, Slept-queue_ext_datagram}
use cherry_ecat.Slave.State.{
  state_init, state_preop, state_safeop, state_change, state_boot, state_op,
}
use cherry_ecat.Slave.Reached.{Reached, Gives-state_change}
use cherry_ecat.Slave.Config.{Setup, write_area}
use cherry_ecat.Slave.Config.Requests.{Asks, Kept, fail_if-Kept, state_change-Kept}
use cherry_ecat.Slave.Config.Requests.Stages.{if-Steady, mailbox_sms-Steady, user_config-Steady}
use cherry_ecat.Slave.Config.Stages.{
  mailbox_sms, boot_sm, user_config, coe_support, clear_areas, to_boot, unless_reached, from_preop,
  from_init, beyond_init, slave_config,
}

-- The states of ec_slave_state_t that can be requested.
abbrev pub is_state : ℕ → Bool
is_state q =
    q == state_init || q == state_preop || q == state_boot || q == state_safeop || q == state_op

-- The state `q` is requested, and it is the state that was read last.
abbrev pub Configured : ℕ → ℕ → Unit {0} → Io → Type 0
Configured i q _ w = ((w.slaves i).requested_state ≡ q) × ((w.slaves i).current_state ≡ q)

-- To clear the areas changes nothing that is kept of the slaves.
Slept-Same : (w : Io) (r : Out (Unit {0}) × Io) → Slept w r → Gives (λ _ v. v.slaves ≡ w.slaves) r
Slept-Same w (ok u, v) (_, e) = e
Slept-Same w (err e, v) h = tt
Slept-Same w (asserted, v) h = tt
Slept-Same w (blocked, v) h = tt

write_area-Same :
    (z : Bool) (i ado size : ℕ) (f : List ℕ → List ℕ) (w : Io)
    → Gives (λ _ v. v.slaves ≡ w.slaves) (write_area z i ado size f w)
unfolding write_area
write_area-Same z i ado size f w = Slept-Same _ _ (Slept-queue_ext_datagram true _)

clear_areas-Same :
    (i : ℕ) (st : Setup) (w : Io) → Gives (λ _ v. v.slaves ≡ w.slaves) (clear_areas i st w)
unfolding clear_areas
clear_areas-Same i st w =
    Gives-next (λ _ v. v.slaves ≡ w.slaves) (λ _ v. v.slaves ≡ w.slaves)
      (write_area true i 0x600 (16 * st.base_fmmu_count) (λ buf. buf) w) _
      (write_area-Same true i 0x600 (16 * st.base_fmmu_count) (λ buf. buf) w)
      λ _ a e.
        Gives-next (λ _ v. v.slaves ≡ a.slaves) (λ _ v. v.slaves ≡ w.slaves)
          (write_area true i 0x800 (8 * st.base_sync_count) (λ buf. buf) a) _
          (write_area-Same true i 0x800 (8 * st.base_sync_count) (λ buf. buf) a)
          λ _ b f.
            Gives-map (λ _ v. v.slaves ≡ b.slaves) (λ _ v. v.slaves ≡ w.slaves)
              (write_area true i 0x980 2 (λ buf. buf) b)
              (write_area-Same true i 0x980 2 (λ buf. buf) b) λ _ c g. g ∙ (f ∙ e)

next-Configured :
    {A : Type 0} (i q : ℕ) (r : Out A × Io) (f : A → M (Unit {0}))
    → Kept i q r
    → ((a : A) (w : Io) → Asks i q w → Gives (Configured i q) (f a w))
    → Gives (Configured i q) (next r f)
next-Configured i q (ok a, w) f h g = g a w h
next-Configured i q (err e, w) f h g = tt
next-Configured i q (asserted, w) f h g = tt
next-Configured i q (blocked, w) f h g = tt

-- A change to the requested state.
merged :
    (i q : ℕ) (r : Out (Unit {0}) × Io)
    → Kept i q r
    → Gives (Reached i q) r
    → Gives (Configured i q) r
unfolding Reached
merged i q (ok u, w) k (inl e) = (k, e)
merged i q (ok u, w) k (inr (_, e, _)) = (k, e ∙ k)
merged i q (err e, w) k h = tt
merged i q (asserted, w) k h = tt
merged i q (blocked, w) k h = tt

-- Here `i` is the slave, and `q` the state that is requested.
module _ (i q : ℕ) (st : Setup) where
  -- A state change to `s`, which is left in the state `s` or in the requested one.
  changed :
      (s : ℕ) (r : Out (Unit {0}) × Io) (f : Unit {0} → M (Unit {0}))
      → Kept i q r
      → Gives (Reached i s) r
      → ((w : Io) → Asks i q w → (w.slaves i).current_state ≡ s → Gives (Configured i q) (f tt w))
      → ((w : Io) → Asks i q w → (w.slaves i).current_state ≡ q → Gives (Configured i q) (f tt w))
      → Gives (Configured i q) (next r f)
  unfolding Reached
  changed s (ok a, w) f k (inl e) g h = g w k e
  changed s (ok a, w) f k (inr (_, e, _)) g h = h w k (e ∙ k)
  changed s (err e, w) f k r g h = tt
  changed s (asserted, w) f k r g h = tt
  changed s (blocked, w) f k r g h = tt

  -- A change to `s`, where that is the requested state.
  last_change : (s : ℕ) (w : Io) → s ≡ q → Asks i q w → Gives (Configured i q) (state_change i s w)
  last_change s w e a =
      subst (λ (t : ℕ). Gives (Configured i q) (state_change i t w)) (sym e)
        (merged i q (state_change i q w) (state_change-Kept i q i q w a) (Gives-state_change i q w))

  -- The early exit: where it is not taken, the state is another than the requested one.
  exits :
      (m : M (Unit {0})) (w : Io)
      → Asks i q w
      → (((w.slaves i).current_state == q) ≡ false → Gives (Configured i q) (m w))
      → Gives (Configured i q) (unless_reached i m w)
  unfolding unless_reached
  exits m w a h =
      Gives-if (Configured i q) ((w.slaves i).current_state == (w.slaves i).requested_state)
        (pure tt) m w
        (λ e. (a, (==_iff (w.slaves i).current_state (w.slaves i).requested_state).0 e ∙ a))
        (λ e. h (ap (λ (r : ℕ). (w.slaves i).current_state == r) (sym a) ∙ e))

  -- A change to `s`, with the early exit behind it.
  stage :
      (s : ℕ) (m : M (Unit {0})) (w : Io)
      → Asks i q w
      → ((w : Io) → Asks i q w → (s == q) ≡ false → Gives (Configured i q) (m w))
      → Gives (Configured i q) (next (state_change i s w) (λ _. unless_reached i m))
  stage s m w a h =
      changed s (state_change i s w) (λ _. unless_reached i m) (state_change-Kept i q i s w a)
        (Gives-state_change i s w)
        (λ v b e. exits m v b λ n. h v b (ap (λ (c : ℕ). c == q) (sym e) ∙ n))
        (λ v b e. exits m v b λ n. absurd (ground (arith, e, n)))

  from_preop-Configured :
      (w : Io)
      → is_state q ≡ true
      → (state_init == q) ≡ false
      → (state_preop == q) ≡ false
      → (q == state_boot) ≡ false
      → Asks i q w
      → Gives (Configured i q) (from_preop i st w)
  unfolding from_preop
  from_preop-Configured w s n1 n2 n3 a =
      next-Configured i q (user_config i st st.config w) _
        (user_config-Steady i q i st st.config w a)
        λ _ v b.
          stage state_safeop (state_change i state_op) v b
            λ x c n4. last_change state_op x (ground arith) c

  from_init-Configured :
      (w : Io)
      → is_state q ≡ true
      → (state_init == q) ≡ false
      → (q == state_boot) ≡ false
      → Asks i q w
      → Gives (Configured i q) (from_init i st w)
  unfolding from_init
  from_init-Configured w s n1 n3 a =
      next-Configured i q
        ((if coe_support st then mailbox_sms i (st.sm_info 0) (st.sm_info 1) else pure tt) w) _
        (if-Steady i q (coe_support st) (mailbox_sms i (st.sm_info 0) (st.sm_info 1)) (pure tt)
          (mailbox_sms-Steady i q i (st.sm_info 0) (st.sm_info 1)) (λ v h. h) w a)
        λ _ v b.
          stage state_preop (from_preop i st) v b λ x c n2. from_preop-Configured x s n1 n2 n3 c

  to_boot-Configured :
      (w : Io) → (q == state_boot) ≡ true → Asks i q w → Gives (Configured i q) (to_boot i st w)
  unfolding to_boot
  to_boot-Configured w e a =
      next-Configured i q (fail_if (not (test_bit st.mailbox_protocols 3)) Errno.nosupp w) _
        (fail_if-Kept i q (not (test_bit st.mailbox_protocols 3)) Errno.nosupp w a)
        λ _ v b.
          next-Configured i q
            (mailbox_sms i
              (boot_sm (st.sm_info 0) st.boot_rx_mailbox_offset st.boot_rx_mailbox_size 0x26)
              (boot_sm (st.sm_info 1) st.boot_tx_mailbox_offset st.boot_tx_mailbox_size 0x22) v)
            _
            (mailbox_sms-Steady i q i
              (boot_sm (st.sm_info 0) st.boot_rx_mailbox_offset st.boot_rx_mailbox_size 0x26)
              (boot_sm (st.sm_info 1) st.boot_tx_mailbox_offset st.boot_tx_mailbox_size 0x22) v b)
            λ _ x c. last_change state_boot x (ground arith) c

  beyond_init-Configured :
      (w : Io)
      → is_state q ≡ true
      → (state_init == q) ≡ false
      → Asks i q w
      → Gives (Configured i q) (beyond_init i st w)
  unfolding beyond_init
  beyond_init-Configured w s n1 a =
      Gives-if (Configured i q) ((w.slaves i).requested_state == state_boot) (to_boot i st)
        (from_init i st) w
        (λ e. to_boot-Configured w (ap (λ (r : ℕ). r == state_boot) (sym a) ∙ e) a)
        (λ e. from_init-Configured w s n1 (ap (λ (r : ℕ). r == state_boot) (sym a) ∙ e) a)

  -- The areas are cleared between the change to INIT and the exit behind it.
  cleared :
      (w : Io)
      → is_state q ≡ true
      → Asks i q w
      → ((w.slaves i).current_state ≡ state_init) ⊎ ((w.slaves i).current_state ≡ q)
      → Gives (Configured i q) ((clear_areas i st >> unless_reached i (beyond_init i st)) w)
  cleared w s a h =
      Gives-next (λ _ v. v.slaves ≡ w.slaves) (Configured i q) (clear_areas i st w) _
        (clear_areas-Same i st w)
        λ _ v e.
          let b : Asks i q v = ap (λ f. (f i).requested_state) e ∙ a in
          let c = ap (λ f. (f i).current_state) e in
          exits (beyond_init i st) v b λ n. elim h [
            | inl g ↦ beyond_init-Configured v s (ap (λ (x : ℕ). x == q) (sym (c ∙ g)) ∙ n) b
            | inr g ↦ absurd (ground (arith, c, g, n))
          ]

-- Let one of the five states INIT, PREOP, BOOT, SAFEOP and OP be requested of a slave. Where
-- ec_slave_config returns without an error, the same state is still requested of it, and it is
-- exactly the state that was read last: the slave is neither left before that state nor taken
-- beyond it.
pub slave_config-Configured :
    (i q : ℕ) (st : Setup) (w : Io)
    → is_state q ≡ true
    → (w.slaves i).requested_state ≡ q
    → Gives (Configured i q) (slave_config i st w)
unfolding slave_config
slave_config-Configured i q st w s a =
    changed i q st state_init (state_change i state_init w) _
      (state_change-Kept i q i state_init w a) (Gives-state_change i state_init w)
      (λ v b e. cleared i q st v s b (inl e)) (λ v b e. cleared i q st v s b (inr e))
