-- ===== src/Domain.antt =====
-- src/ec_master.c, the loop of ec_master_start that lays out the process data, and the functions
-- ec_master_get_slave_domain and so on that give its parts to the application. The image is
-- `pdo_buffer[EC_NETDEV_MAIN]`; a pointer into it is the number of the byte.
pub mod Layout
pub mod Disjoint
pub mod Access
pub mod Supported
use cherry_ecat.Prelude.{
  ℕ, ◌+◌, ◌-◌, ◌*◌, ◌/◌, ◌%◌, List, [], ◌∷◌, Bool, true, Option, none, some, if◌then◌else◌, leb,
  ltb, ◌==◌, u16_mod, u32_mod,
}

-- ec_direction_t, of which a configuration uses these two.
pub data Direction : Type 0 where
  output input : Direction

-- ec_pdo_entry_info_t
pub record Entry : Type 0 where
  pub index : ℕ
  pub subindex : ℕ
  pub bit_length : ℕ

-- ec_pdo_info_t
pub record Pdo : Type 0 where
  pub index : ℕ
  pub entries : List Entry

-- ec_sync_info_t, without the watchdog, which the layout does not read.
pub record Sync : Type 0 where
  pub index : ℕ
  pub dir : Direction
  pub pdos : List Pdo

-- ec_sm_info_t, as the layout sets it: of pdo_assign and pdo_mapping the entries that are counted.
pub record SmInfo : Type 0 where
  pub pdo_assign : List ℕ
  pub pdo_mapping : List (List ℕ)
  pub length : ℕ
  pub enable : Bool
  pub fmmu_data_size : ℕ
  pub logical_start_address : ℕ
  pub fmmu_dir : Direction
  pub fmmu_enable : Bool

-- The process data of an ec_slave_t.
pub record Area : Type 0 where
  pub logical_start_address : ℕ
  pub odata_size : ℕ
  pub idata_size : ℕ
  pub expected_working_counter : ℕ
  pub sm_count : ℕ
  pub sm_info : ℕ → SmInfo

-- `master->slaves[slave_index]`, where `slave_index` is below `slave_count`.
unfoldable pub slave_at : List Area → ℕ → Option Area
slave_at [] slave_index = none
slave_at (s ∷ slaves) slave_index =
    let rest = slave_at slaves (slave_index - 1) in if slave_index == 0 then some s else rest

abbrev pub part_domain : Option Area → Option ℕ
part_domain none = none
part_domain (some s) =
    if (s.odata_size + s.idata_size) % u32_mod == 0 then none else some (s.logical_start_address)

-- ec_master_get_slave_domain
unfoldable pub get_slave_domain : List Area → ℕ → Option ℕ
get_slave_domain slaves slave_index = part_domain (slave_at slaves slave_index)

abbrev pub part_domain_output : Option Area → Option ℕ
part_domain_output none = none
part_domain_output (some s) = if s.odata_size == 0 then none else some (s.logical_start_address)

-- ec_master_get_slave_domain_output
unfoldable pub get_slave_domain_output : List Area → ℕ → Option ℕ
get_slave_domain_output slaves slave_index = part_domain_output (slave_at slaves slave_index)

abbrev pub part_domain_input : Option Area → Option ℕ
part_domain_input none = none
part_domain_input (some s) =
    if s.idata_size == 0 then none else some ((s.logical_start_address + s.odata_size) % u32_mod)

-- ec_master_get_slave_domain_input
unfoldable pub get_slave_domain_input : List Area → ℕ → Option ℕ
get_slave_domain_input slaves slave_index = part_domain_input (slave_at slaves slave_index)

abbrev pub part_domain_size : Option Area → ℕ
part_domain_size none = 0
part_domain_size (some s) = (s.odata_size + s.idata_size) % u32_mod

-- ec_master_get_slave_domain_size
unfoldable pub get_slave_domain_size : List Area → ℕ → ℕ
get_slave_domain_size slaves slave_index = part_domain_size (slave_at slaves slave_index)

abbrev pub part_domain_osize : Option Area → ℕ
part_domain_osize none = 0
part_domain_osize (some s) = s.odata_size

-- ec_master_get_slave_domain_osize
unfoldable pub get_slave_domain_osize : List Area → ℕ → ℕ
get_slave_domain_osize slaves slave_index = part_domain_osize (slave_at slaves slave_index)

abbrev pub part_domain_isize : Option Area → ℕ
part_domain_isize none = 0
part_domain_isize (some s) = s.idata_size

-- ec_master_get_slave_domain_isize
unfoldable pub get_slave_domain_isize : List Area → ℕ → ℕ
get_slave_domain_isize slaves slave_index = part_domain_isize (slave_at slaves slave_index)
