-- ===== src/Tests/Domain.antt =====
-- Runs of the layout of the process data of src/ec_master.c.
use cherry_ecat.Prelude.{◌≡◌, refl, List, [], ◌∷◌, false, Option, some, arith, Ends}
use cherry_ecat.Domain.{
  slave_at, get_slave_domain, get_slave_domain_output, get_slave_domain_input,
  get_slave_domain_size, get_slave_domain_osize, get_slave_domain_isize, Direction, Sync, SmInfo,
  Area,
}
use cherry_ecat.Domain.Layout.{Limits, layout}
use cherry_ecat.Domain.Access.{Span, domains-Span}
use cherry_ecat.Domain.Supported.{find_slave_sync_info}
use cherry_ecat.Domain.Supported.Accepted.{Taken, find_slave_sync_info-Taken}
use cherry_ecat.Domain.Disjoint.{Tiles, layout-Filled, Filled, config_bytes}

-- A drive with six bytes of outputs and four of inputs.
abbrev pub syncs : List Sync
syncs =
    record {
      index = 2;
      dir = Direction.output;
      pdos =
          record {
            index = 0x1600;
            entries =
                record { index = 0x6040; subindex = 0; bit_length = 16 }
                ∷ record { index = 0x607a; subindex = 0; bit_length = 32 }
                ∷ [];
          }
          ∷ [];
    }
    ∷ record {
      index = 3;
      dir = Direction.input;
      pdos =
          record {
            index = 0x1a00;
            entries = record { index = 0x6064; subindex = 0; bit_length = 32 } ∷ [];
          }
          ∷ [];
    }
    ∷ []

abbrev no_sm : SmInfo
no_sm = record {
  pdo_assign = [];
  pdo_mapping = [];
  length = 0;
  enable = false;
  fmmu_data_size = 0;
  logical_start_address = 0;
  fmmu_dir = Direction.output;
  fmmu_enable = false;
}

abbrev pub drive : Area
drive = record {
  logical_start_address = 0;
  odata_size = 0;
  idata_size = 0;
  expected_working_counter = 0;
  sm_count = 4;
  sm_info = λ i. no_sm;
}

abbrev pub limits : Limits
limits = record { per_sm_max_pdos = 3; per_pdo_max_pdo_entries = 8 }

abbrev two_drives : List (Option (List Sync) × Area)
two_drives = (some syncs, drive) ∷ (some syncs, drive) ∷ []

layout-Filled_example : Ends (Filled 0 (config_bytes two_drives)) (layout limits two_drives 0 0)
layout-Filled_example = layout-Filled limits two_drives 0 0 (omega arith)

abbrev pub laid_out : List Area
laid_out =
    record drive { odata_size = 6; idata_size = 4 }
    ∷ record drive { logical_start_address = 10; odata_size = 6; idata_size = 4 }
    ∷ []

pub laid_out-Tiles : Tiles laid_out 0 20
laid_out-Tiles =
    Tiles.tile (record drive { odata_size = 6; idata_size = 4 })
      (record drive { logical_start_address = 10; odata_size = 6; idata_size = 4 } ∷ []) 0 20 refl
      (Tiles.tile (record drive { logical_start_address = 10; odata_size = 6; idata_size = 4 }) []
        10 20 refl (Tiles.tiled 20))

domains-Span_example :
    Ends (Span 0 20 (get_slave_domain_size laid_out 1)) (get_slave_domain laid_out 1)
    × Ends (Span 0 20 (get_slave_domain_osize laid_out 1)) (get_slave_domain_output laid_out 1)
    × Ends (Span 0 20 (get_slave_domain_isize laid_out 1)) (get_slave_domain_input laid_out 1)
domains-Span_example = domains-Span laid_out 0 20 1 laid_out-Tiles (omega arith)

input_of_second : get_slave_domain_input laid_out 1 ≡ some 16
unfolding get_slave_domain_input slave_at
input_of_second = refl

-- A drive in the velocity mode, behind ten bytes of others.
find_slave_sync_info-Taken_example :
    Ends (Taken drive 10) (find_slave_sync_info 0x00100000 0x000C010D 1 2)
find_slave_sync_info-Taken_example =
    find_slave_sync_info-Taken 0x00100000 0x000C010D 1 2 drive 10 (omega arith) (omega arith)
