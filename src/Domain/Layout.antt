-- ===== src/Domain/Layout.antt =====
-- src/ec_master.c, ec_master_start: the layout of the process data. `none` is a failed assertion.
use cherry_ecat.Prelude.{
  ℕ, ◌+◌, ◌*◌, ◌/◌, ◌%◌, List, [], ◌∷◌, map, Bool, true, Option, none, some, ◌&&◌, ◌==◌, ltb, leb,
  length, u16_mod, u32_mod, if◌then◌else◌,
}
use cherry_ecat.Domain.{Direction, output, input, Entry, Pdo, Sync, SmInfo, Area}

infixl 5 ◌>>=◌
abbrev pub ◌>>=◌ {ℓ κ} : {A : Type ℓ} {B : Type κ} → Option A → (A → Option B) → Option B
none >>= f = none
some a >>= f = f a

-- CONFIG_EC_PER_SM_MAX_PDOS and CONFIG_EC_PER_PDO_MAX_PDO_ENTRIES, as configured.
pub record Limits : Type 0 where
  pub per_sm_max_pdos : ℕ
  pub per_pdo_max_pdo_entries : ℕ

-- The word that names an entry in a mapping.
abbrev pub entry_word : Entry → ℕ
entry_word e = 65536 * e.index + 256 * (e.subindex % 256) + e.bit_length % 256

abbrev pub entries_bits : List Entry → ℕ
entries_bits [] = 0
entries_bits (e ∷ es) = e.bit_length + entries_bits es

-- The `bitlen` that the loops over PDOs and entries add up.
abbrev pub pdos_bits : List Pdo → ℕ
pdos_bits [] = 0
pdos_bits (p ∷ ps) = entries_bits p.entries + pdos_bits ps

-- The assertions on the number of entries.
abbrev pub entries_fit : Limits → List Pdo → Bool
entries_fit l [] = true
entries_fit l (p ∷ ps) =
    leb (length p.entries % u16_mod) l.per_pdo_max_pdo_entries && entries_fit l ps

-- The bytes of a sync manager: bitlen is a uint32_t.
abbrev pub sync_bytes : Sync → ℕ
sync_bytes c = (pdos_bits c.pdos % u32_mod + 7) % u32_mod / 8

-- The sync manager and FMMU of `c`, at the address `actual_pdo_size`.
unfoldable pub sm_of : Sync → ℕ → SmInfo
sm_of c actual_pdo_size = record {
  pdo_assign = map (λ p. p.index) c.pdos;
  pdo_mapping = map (λ p. map entry_word p.entries) c.pdos;
  length = sync_bytes c % u16_mod;
  enable = true;
  fmmu_data_size = sync_bytes c;
  logical_start_address = actual_pdo_size;
  fmmu_dir = c.dir;
  fmmu_enable = true;
}

-- The sizes of the outputs and inputs, after `n` bytes more.
abbrev pub add_size : Direction → ℕ → Area → Area
add_size output n a = record a { odata_size = (a.odata_size + n) % u32_mod }
add_size input n a = record a { idata_size = (a.idata_size + n) % u32_mod }

-- One turn of the loop over the sync managers of a slave: the slave and actual_pdo_size.
unfoldable pub layout_sync : Limits → Sync → Area × ℕ → Option (Area × ℕ)
layout_sync l c (a, size) =
    if ltb c.index a.sm_count
      && (leb (length c.pdos % u16_mod) l.per_sm_max_pdos && entries_fit l c.pdos)
    then some (
      add_size c.dir (sync_bytes c)
          (record a { sm_info = λ i. if c.index == i then sm_of c size else a.sm_info i }),
      (size + sync_bytes c) % u32_mod,
    )
    else none

unfoldable pub layout_syncs : Limits → List Sync → Area × ℕ → Option (Area × ℕ)
layout_syncs l [] r = some r
layout_syncs l (c ∷ cs) r = do r' ← layout_sync l c r; layout_syncs l cs r'

-- One turn of the loop over the slaves; a slave without a configuration fails its assertion.
unfoldable pub layout_slave : Limits → Option (List Sync) → Area → ℕ → Option (Area × ℕ)
layout_slave l none a size = none
layout_slave l (some cs) a size = do
  r ←
      layout_syncs l cs
        (record a { logical_start_address = size; odata_size = 0; idata_size = 0 }, size)
  some (record (r.0) { expected_working_counter = 3 }, r.1)

-- What the loop over the slaves keeps: the slaves done, actual_pdo_size and
-- expected_working_counter.
pub record Image : Type 0 where
  pub slaves : List Area
  pub actual_pdo_size : ℕ
  pub expected_working_counter : ℕ

unfoldable pub layout : Limits → List (Option (List Sync) × Area) → ℕ → ℕ → Option Image
layout l [] size wc =
    some (record { slaves = []; actual_pdo_size = size; expected_working_counter = wc })
layout l ((c, a) ∷ rest) size wc = do
  r ← layout_slave l c a size
  image ← layout l rest r.1 ((wc + 3) % u32_mod)
  some (record image { slaves = r.0 ∷ image.slaves })
