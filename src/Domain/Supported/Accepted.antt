-- ===== src/Domain/Supported/Accepted.antt =====
-- The tables of src/ec_slave_table.c are such that ec_master_start of src/ec_master.c takes them.
use cherry_ecat.Prelude.{
  u32_mod, ◌+◌, ◌<◌, ◌==◌, ◌||◌, ℕ, ◌%◌, ◌≤◌, ◌≡◌, refl, List, [], ◌∷◌, Option, none, some, Bool,
  true, false, ◌&&◌, ltb, leb, length, if◌then◌else◌, Ends, Gets, arith, u16_mod,
}
use cherry_ecat.Domain.{Direction, input, output, Sync, Area}
use cherry_ecat.Domain.Disjoint.{syncs_bytes, Part, layout_slave-Part}
use cherry_ecat.Domain.Supported.{
  find_slave_sync_info, hpm, hpm_cia402, sv660n, hpm_dio_syncs, hpm_cia402_csv_syncs,
  hpm_cia402_csp_syncs, em32dx_4e_v30_syncs, sg_elc_syncs, sv660n_csp_syncs, sv660n_csv_syncs,
  sv660n_cst_syncs,
}
use cherry_ecat.Domain.Layout.{
  layout_slave, sync_bytes, Limits, entries_fit, layout_sync, layout_syncs, add_size, ◌>>=◌,
}

-- CONFIG_EC_PER_SM_MAX_PDOS and CONFIG_EC_PER_PDO_MAX_PDO_ENTRIES of the template.
abbrev pub template_limits : Limits
template_limits = record { per_sm_max_pdos = 3; per_pdo_max_pdo_entries = 8 }

-- What the assertions ask of a sync manager, for a slave with four of them.
abbrev admissible : Sync → Bool
admissible c =
    ltb c.index 4 && (leb (length c.pdos % u16_mod) 3 && entries_fit template_limits c.pdos)

abbrev all_admissible : List Sync → Bool
all_admissible [] = true
all_admissible (c ∷ cs) = admissible c && all_admissible cs

Gets-then {ℓ} :
    {A : Type ℓ} (P : A → Type 0) (b : Bool) (o : Option A)
    → b ≡ true
    → Gets P o
    → Gets P (if b then o else none)
Gets-then P true o e h = h
Gets-then P false o e h = absurd (ground arith)

Gets->>= {ℓ} :
    {A B : Type ℓ} (P : A → Type 0) (Q : B → Type 0) (o : Option A) (f : A → Option B)
    → Gets P o
    → ((a : A) → P a → Gets Q (f a))
    → Gets Q (o >>= f)
Gets->>= P Q none f h g = absurd h
Gets->>= P Q (some a) f h g = g a h

Gets-Ends {ℓ} : {A : Type ℓ} (P Q : A → Type 0) (o : Option A) → Gets P o → Ends Q o → Gets Q o
Gets-Ends P Q none h k = absurd h
Gets-Ends P Q (some a) h k = k

four_sms : (d : Direction) (n : ℕ) (a : Area) → 4 ≤ a.sm_count → 4 ≤ (add_size d n a).sm_count
four_sms output n a h = h
four_sms input n a h = h

layout_sync-Gets :
    (c : Sync) (a : Area) (size : ℕ)
    → 4 ≤ a.sm_count
    → admissible c ≡ true
    → Gets (λ r. 4 ≤ r.0.sm_count) (layout_sync template_limits c (a, size))
unfolding layout_sync
layout_sync-Gets c a size h e =
    Gets-then (λ r. 4 ≤ r.0.sm_count)
      (ltb c.index a.sm_count
        && (leb (length c.pdos % u16_mod) 3 && entries_fit template_limits c.pdos))
      _ (ground arith) (four_sms c.dir (sync_bytes c) _ h)

layout_syncs-Gets :
    (cs : List Sync) (a : Area) (size : ℕ)
    → 4 ≤ a.sm_count
    → all_admissible cs ≡ true
    → Gets (λ r. Unit) (layout_syncs template_limits cs (a, size))
unfolding layout_syncs
layout_syncs-Gets [] a size h e = tt
layout_syncs-Gets (c ∷ cs) a size h e =
    Gets->>= (λ r. 4 ≤ r.0.sm_count) (λ r. Unit) (layout_sync template_limits c (a, size)) _
      (layout_sync-Gets c a size h (ground arith))
      λ r k. layout_syncs-Gets cs r.0 r.1 k (ground arith)

layout_slave-Gets :
    (cs : List Sync) (a : Area) (size : ℕ)
    → 4 ≤ a.sm_count
    → all_admissible cs ≡ true
    → size + syncs_bytes cs < u32_mod
    → Gets (Part size (syncs_bytes cs)) (layout_slave template_limits (some cs) a size)
unfolding layout_slave
layout_slave-Gets cs a size h e l =
    Gets-Ends (λ r. Unit) (Part size (syncs_bytes cs))
      (layout_slave template_limits (some cs) a size)
      (Gets->>= (λ r. Unit) (λ r. Unit) (layout_syncs template_limits cs _) _
        (layout_syncs-Gets cs
          (record a { logical_start_address = size; odata_size = 0; idata_size = 0 }) size h e)
        λ r u. tt)
      (layout_slave-Part template_limits cs a size l)

-- A table is taken by ec_master_start, and the slave's part of the image has its bytes.
pub Taken : Area → ℕ → List Sync → Type 0
Taken a size cs = Gets (Part size (syncs_bytes cs)) (layout_slave template_limits (some cs) a size)

Ends-if :
    (P : List Sync → Type 0) (b : Bool) (o o' : Option (List Sync))
    → Ends P o
    → Ends P o'
    → Ends P (if b then o else o')
Ends-if P true o o' h h' = h
Ends-if P false o o' h h' = h'

module _ (a : Area) (size : ℕ) (enough : 4 ≤ a.sm_count) (fits : size + 64 < u32_mod) where
  taken : (cs : List Sync) → all_admissible cs ≡ true → syncs_bytes cs ≤ 64 → Taken a size cs
  unfolding Taken
  taken cs e l = layout_slave-Gets cs a size enough e (omega arith)

  hpm_cia402-Taken : (mode : ℕ) → Ends (Taken a size) (hpm_cia402 mode)
  unfolding hpm_cia402
  hpm_cia402-Taken mode =
      Ends-if (Taken a size) (mode == 2) _ _ (taken hpm_cia402_csv_syncs refl (omega arith)) (
        Ends-if (Taken a size) (mode == 1) _ none (taken hpm_cia402_csp_syncs refl (omega arith))
          tt)

  sv660n-Taken : (mode : ℕ) → Ends (Taken a size) (sv660n mode)
  unfolding sv660n
  sv660n-Taken mode =
      Ends-if (Taken a size) (mode == 2) _ _ (taken sv660n_csv_syncs refl (omega arith)) (
        Ends-if (Taken a size) (mode == 1) _ _ (taken sv660n_csp_syncs refl (omega arith)) (
          Ends-if (Taken a size) (mode == 4) _ none (taken sv660n_cst_syncs refl (omega arith)) tt))

  hpm-Taken : (p mode : ℕ) → Ends (Taken a size) (hpm p mode)
  unfolding hpm
  hpm-Taken p mode =
      Ends-if (Taken a size) (p == 0x1 || p == 0x5) _ _ (taken hpm_dio_syncs refl (omega arith))
        (Ends-if (Taken a size) (p == 0x3 || p == 0x4) _ none (hpm_cia402-Taken mode) tt)

-- Whatever configuration ec_master_find_slave_sync_info finds for a slave with at least four sync
-- managers passes the assertions of ec_master_start with the limits of the template, and the slave
-- gets as many bytes of the image as the configuration has, from the address `size` on, while the
-- image stays 64 bytes below 2^32.
pub find_slave_sync_info-Taken :
    (vendor_id product_code revision_number mode : ℕ) (a : Area) (size : ℕ)
    → 4 ≤ a.sm_count
    → size + 64 < u32_mod
    → Ends (Taken a size) (find_slave_sync_info vendor_id product_code revision_number mode)
unfolding find_slave_sync_info
find_slave_sync_info-Taken v p r mode a size h l =
    Ends-if (Taken a size) (v == 0x0048504D) _ _ (hpm-Taken a size h l p mode) (
      Ends-if (Taken a size) (v == 0xEE000002) _ _
        (Ends-if (Taken a size) (p == 0x00010204) _ none
          (taken a size h l sg_elc_syncs refl (omega arith)) tt)
        (Ends-if (Taken a size) (v == 0x00004321) _ _
          (Ends-if (Taken a size) (p == 0x01100073) _ none
            (taken a size h l em32dx_4e_v30_syncs refl (omega arith)) tt)
          (Ends-if (Taken a size) (v == 0x00100000) _ none
            (Ends-if (Taken a size) (p == 0x000C010D) _ none (sv660n-Taken a size h l mode) tt)
            tt)))
