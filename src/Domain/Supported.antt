-- ===== src/Domain/Supported.antt =====
-- src/ec_slave_table.c: the sync managers, PDOs and entries of the slaves that are known. The watchdog
-- mode is left out. The array of a sync manager begins at one of the PDOs, that of a PDO at one of
-- the entries.
pub mod Accepted
use cherry_ecat.Prelude.{
  ℕ, List, [], ◌∷◌, Option, none, some, Bool, ◌==◌, ◌||◌, if◌then◌else◌, take, drop,
}
use cherry_ecat.Domain.{Entry, Pdo, Sync, output, input}

abbrev entry : ℕ → ℕ → ℕ → Entry
entry index subindex bit_length = record {
  index = index;
  subindex = subindex;
  bit_length = bit_length;
}

abbrev hpm_dio_output_pdo_entries : List Entry
hpm_dio_output_pdo_entries = entry 0x6000 0x00 0x20 ∷ []

abbrev hpm_dio_input_pdo_entries : List Entry
hpm_dio_input_pdo_entries = entry 0x7010 0x00 0x20 ∷ []

abbrev hpm_cia402_csv_output_pdo_entries : List Entry
hpm_cia402_csv_output_pdo_entries =
    entry 0x6040 0x00 0x10 ∷ entry 0x60ff 0x00 0x20 ∷ entry 0x0000 0x00 0x10 ∷ []

abbrev hpm_cia402_csv_input_pdo_entries : List Entry
hpm_cia402_csv_input_pdo_entries =
    entry 0x6041 0x00 0x10 ∷ entry 0x6064 0x00 0x20 ∷ entry 0x0000 0x00 0x10 ∷ []

abbrev hpm_cia402_csp_output_pdo_entries : List Entry
hpm_cia402_csp_output_pdo_entries =
    entry 0x6040 0x00 0x10 ∷ entry 0x607A 0x00 0x20 ∷ entry 0x0000 0x00 0x10 ∷ []

abbrev hpm_cia402_csp_input_pdo_entries : List Entry
hpm_cia402_csp_input_pdo_entries =
    entry 0x6041 0x00 0x10 ∷ entry 0x6064 0x00 0x20 ∷ entry 0x0000 0x00 0x10 ∷ []

abbrev em32dx_4e_v30_output_pdo_entries : List Entry
em32dx_4e_v30_output_pdo_entries = entry 0x6000 0x01 0x10 ∷ []

abbrev em32dx_4e_v30_input_pdo_entries : List Entry
em32dx_4e_v30_input_pdo_entries = entry 0x7000 0x01 0x10 ∷ []

abbrev sg_elc_output_pdo_entries : List Entry
sg_elc_output_pdo_entries = entry 0x3101 0x01 0x08 ∷ entry 0x3101 0x02 0x08 ∷ []

abbrev sg_elc_input_pdo_entries : List Entry
sg_elc_input_pdo_entries = entry 0x3001 0x01 0x08 ∷ entry 0x3001 0x02 0x08 ∷ []

abbrev sv660n_csp_output_pdo_entries : List Entry
sv660n_csp_output_pdo_entries =
    entry 0x6060 0x00 8
    ∷ entry 0x6040 0x00 16
    ∷ entry 0x607A 0x00 32
    ∷ entry 0x60FF 0x00 32
    ∷ entry 0x6071 0x00 16
    ∷ []

abbrev sv660n_csp_input_pdo_entries : List Entry
sv660n_csp_input_pdo_entries =
    entry 0x603F 0x00 16
    ∷ entry 0x6041 0x00 16
    ∷ entry 0x6064 0x00 32
    ∷ entry 0x606C 0x00 32
    ∷ entry 0x6077 0x00 16
    ∷ []

abbrev sv660n_csv_output_pdo_entries : List Entry
sv660n_csv_output_pdo_entries =
    entry 0x6040 0x00 16 ∷ entry 0x60FF 0x00 32 ∷ entry 0x6060 0x00 8 ∷ []

abbrev sv660n_csv_input_pdo_entries : List Entry
sv660n_csv_input_pdo_entries =
    entry 0x6041 0x00 16 ∷ entry 0x6064 0x00 32 ∷ entry 0x606C 0x00 32 ∷ entry 0x6061 0x00 8 ∷ []

abbrev sv660n_cst_output_pdo_entries : List Entry
sv660n_cst_output_pdo_entries =
    entry 0x6040 0x00 16
    ∷ entry 0x6071 0x00 16
    ∷ entry 0x60B2 0x00 16
    ∷ entry 0x6060 0x00 8
    ∷ entry 0x6072 0x00 16
    ∷ entry 0x607F 0x00 32
    ∷ entry 0x60E0 0x00 32
    ∷ entry 0x60E1 0x00 32
    ∷ []

abbrev sv660n_cst_input_pdo_entries : List Entry
sv660n_cst_input_pdo_entries =
    entry 0x6041 0x00 16
    ∷ entry 0x6064 0x00 32
    ∷ entry 0x606C 0x00 32
    ∷ entry 0x6077 0x00 16
    ∷ entry 0x6061 0x00 8
    ∷ []

abbrev hpm_dio_pdos : List Pdo
hpm_dio_pdos =
    record { index = 0x1600; entries = hpm_dio_output_pdo_entries }
    ∷ record { index = 0x1a00; entries = hpm_dio_input_pdo_entries }
    ∷ []

abbrev hpm_cia402_csv_pdos : List Pdo
hpm_cia402_csv_pdos =
    record { index = 0x1602; entries = hpm_cia402_csv_output_pdo_entries }
    ∷ record { index = 0x1a02; entries = hpm_cia402_csv_input_pdo_entries }
    ∷ []

abbrev hpm_cia402_csp_pdos : List Pdo
hpm_cia402_csp_pdos =
    record { index = 0x1601; entries = hpm_cia402_csp_output_pdo_entries }
    ∷ record { index = 0x1a01; entries = hpm_cia402_csp_input_pdo_entries }
    ∷ []

abbrev em32dx_4e_v30_pdos : List Pdo
em32dx_4e_v30_pdos =
    record { index = 0x1600; entries = em32dx_4e_v30_output_pdo_entries }
    ∷ record { index = 0x1a00; entries = em32dx_4e_v30_input_pdo_entries }
    ∷ []

abbrev sg_elc_pdos : List Pdo
sg_elc_pdos =
    record { index = 0x1600; entries = (take 1 (drop 0 sg_elc_output_pdo_entries)) }
    ∷ record { index = 0x1601; entries = (take 1 (drop 1 sg_elc_output_pdo_entries)) }
    ∷ record { index = 0x1a00; entries = (take 1 (drop 0 sg_elc_input_pdo_entries)) }
    ∷ record { index = 0x1a01; entries = (take 1 (drop 1 sg_elc_input_pdo_entries)) }
    ∷ []

abbrev sv660n_csp_pdos : List Pdo
sv660n_csp_pdos =
    record { index = 0x1600; entries = sv660n_csp_output_pdo_entries }
    ∷ record { index = 0x1a00; entries = sv660n_csp_input_pdo_entries }
    ∷ []

abbrev sv660n_csv_pdos : List Pdo
sv660n_csv_pdos =
    record { index = 0x1600; entries = sv660n_csv_output_pdo_entries }
    ∷ record { index = 0x1a00; entries = sv660n_csv_input_pdo_entries }
    ∷ []

abbrev sv660n_cst_pdos : List Pdo
sv660n_cst_pdos =
    record { index = 0x1600; entries = sv660n_cst_output_pdo_entries }
    ∷ record { index = 0x1a00; entries = sv660n_cst_input_pdo_entries }
    ∷ []

abbrev pub hpm_dio_syncs : List Sync
hpm_dio_syncs =
    record { index = 2; dir = output; pdos = take 1 (drop 0 hpm_dio_pdos) }
    ∷ record { index = 3; dir = input; pdos = take 1 (drop 1 hpm_dio_pdos) }
    ∷ []

abbrev pub hpm_cia402_csv_syncs : List Sync
hpm_cia402_csv_syncs =
    record { index = 2; dir = output; pdos = take 1 (drop 0 hpm_cia402_csv_pdos) }
    ∷ record { index = 3; dir = input; pdos = take 1 (drop 1 hpm_cia402_csv_pdos) }
    ∷ []

abbrev pub hpm_cia402_csp_syncs : List Sync
hpm_cia402_csp_syncs =
    record { index = 2; dir = output; pdos = take 1 (drop 0 hpm_cia402_csp_pdos) }
    ∷ record { index = 3; dir = input; pdos = take 1 (drop 1 hpm_cia402_csp_pdos) }
    ∷ []

abbrev pub em32dx_4e_v30_syncs : List Sync
em32dx_4e_v30_syncs =
    record { index = 2; dir = output; pdos = take 1 (drop 0 em32dx_4e_v30_pdos) }
    ∷ record { index = 3; dir = input; pdos = take 1 (drop 1 em32dx_4e_v30_pdos) }
    ∷ []

abbrev pub sg_elc_syncs : List Sync
sg_elc_syncs =
    record { index = 0; dir = output; pdos = take 1 (drop 0 sg_elc_pdos) }
    ∷ record { index = 1; dir = output; pdos = take 1 (drop 1 sg_elc_pdos) }
    ∷ record { index = 2; dir = input; pdos = take 2 (drop 2 sg_elc_pdos) }
    ∷ []

abbrev pub sv660n_csp_syncs : List Sync
sv660n_csp_syncs =
    record { index = 2; dir = output; pdos = take 1 (drop 0 sv660n_csp_pdos) }
    ∷ record { index = 3; dir = input; pdos = take 1 (drop 1 sv660n_csp_pdos) }
    ∷ []

abbrev pub sv660n_csv_syncs : List Sync
sv660n_csv_syncs =
    record { index = 2; dir = output; pdos = take 1 (drop 0 sv660n_csv_pdos) }
    ∷ record { index = 3; dir = input; pdos = take 1 (drop 1 sv660n_csv_pdos) }
    ∷ []

abbrev pub sv660n_cst_syncs : List Sync
sv660n_cst_syncs =
    record { index = 2; dir = output; pdos = take 1 (drop 0 sv660n_cst_pdos) }
    ∷ record { index = 3; dir = input; pdos = take 1 (drop 1 sv660n_cst_pdos) }
    ∷ []

-- EC_CIA402_OPERATION_MODE_CSP, EC_CIA402_OPERATION_MODE_CSV, EC_CIA402_OPERATION_MODE_CST
abbrev mode_csp : ℕ
mode_csp = 1

abbrev mode_csv : ℕ
mode_csv = 2

abbrev mode_cst : ℕ
mode_cst = 4

-- The drives of the first vendor.
unfoldable pub hpm_cia402 : ℕ → Option (List Sync)
hpm_cia402 mode =
    if mode == mode_csv
    then some hpm_cia402_csv_syncs
    else if mode == mode_csp
    then some hpm_cia402_csp_syncs
    else none

unfoldable pub sv660n : ℕ → Option (List Sync)
sv660n mode =
    if mode == mode_csv
    then some sv660n_csv_syncs
    else if mode == mode_csp
    then some sv660n_csp_syncs
    else if mode == mode_cst
    then some sv660n_cst_syncs
    else none

unfoldable pub hpm : ℕ → ℕ → Option (List Sync)
unfolding hpm_cia402
hpm product_code mode =
    if product_code == 0x1 || product_code == 0x5
    then some hpm_dio_syncs
    else if product_code == 0x3 || product_code == 0x4
    then hpm_cia402 mode
    else none

-- ec_master_find_slave_sync_info: none for -1. The revision number is not looked at.
unfoldable pub find_slave_sync_info : ℕ → ℕ → ℕ → ℕ → Option (List Sync)
unfolding hpm sv660n
find_slave_sync_info vendor_id product_code revision_number mode =
    if vendor_id == 0x0048504D
    then hpm product_code mode
    else if vendor_id == 0xEE000002
    then (if product_code == 0x00010204 then some sg_elc_syncs else none)
    else if vendor_id == 0x00004321
    then (if product_code == 0x01100073 then some em32dx_4e_v30_syncs else none)
    else if vendor_id == 0x00100000
    then (if product_code == 0x000C010D then sv660n mode else none)
    else none
