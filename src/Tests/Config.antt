-- ===== src/Tests/Config.antt =====
-- Runs of ec_slave_config and ec_master_scan_slaves_state of src/ec_slave.c.
use cherry_ecat.Prelude.{ℕ, ◌≡◌, refl, [], ◌∷◌, ◌++◌, some, true, arith, replicate}
use cherry_ecat.Domain.{Direction}
use cherry_ecat.Exchange.{Io, Out, received, queue_ext_datagram, wait, finish_wait}
use cherry_ecat.Exchange.Facts.{Gives}
use cherry_ecat.Datagram.Fill.{zero_data, fpwr, fprd, fill}
use cherry_ecat.Master.Receive.{deliver}
use cherry_ecat.Slave.State.{
  write_control, poll_state, read_state, read_register, or_timeout, state_change_timeout_ns,
  state_change,
}
use cherry_ecat.Slave.Config.{write_area, Sm, Setup, put_pages, sm_config, fmmu_config}
use cherry_ecat.Slave.Config.Stages.{
  slave_config, clear_areas, beyond_init, from_init, unless_reached, mailbox_sms,
}
use cherry_ecat.Slave.Config.Reached.{Configured, slave_config-Configured}
use cherry_ecat.Slave.Config.Pages.{pages, sm_page, fmmu_page, put_pages_lem}
use cherry_ecat.Tests.Bus.{drive, bus}

abbrev sm : ℕ → Sm
sm k = record {
  physical_start_address = 0x1000;
  length = 128;
  control = 0x26;
  enable = 1;
  pdo_assign = 0x1600 ∷ [];
  pdo_mapping = λ j. 0x60400010 ∷ [];
  logical_start_address = 0x01020304;
  data_size = 2;
  dir = Direction.output;
}

abbrev pub setup : Setup
setup = record {
  mailbox_protocols = 4;
  boot_rx_mailbox_offset = 0;
  boot_rx_mailbox_size = 0;
  boot_tx_mailbox_offset = 0;
  boot_tx_mailbox_size = 0;
  enable_pdo_assign = true;
  enable_pdo_configuration = true;
  base_fmmu_count = 2;
  base_sync_count = 4;
  base_dc_supported = true;
  system_time_offset = 0;
  transmission_delay = 0;
  sm_info = sm;
  sm_count = 4;
  config = some (record {
    dc_assign_activate = 0x300;
    cycle_time_0 = 1000000;
    cycle_time_1 = 0;
    shift_time_0 = 0;
  });
}

-- A slave that is asked for PREOP goes to INIT, takes what is cleared and its mailbox, and goes on.
abbrev preop_bus : Io
preop_bus =
    record (bus (
      received 1 []
      ∷ received 1 (1 ∷ 0 ∷ [])
      ∷ received 1 []
      ∷ received 1 []
      ∷ received 1 []
      ∷ received 1 []
      ∷ received 1 []
      ∷ received 1 (2 ∷ 0 ∷ [])
      ∷ [])) { slaves = λ i. record drive { requested_state = 2 } }

preop_run : (slave_config 0 setup preop_bus).0 ≡ Out.ok tt
unfolding slave_config clear_areas beyond_init from_init unless_reached mailbox_sms write_area
    state_change write_control poll_state read_state read_register or_timeout
    state_change_timeout_ns queue_ext_datagram wait finish_wait deliver zero_data fpwr fprd fill
preop_run = refl

slave_config-Configured_example : Gives (Configured 0 2) (slave_config 0 setup preop_bus)
slave_config-Configured_example = slave_config-Configured 0 2 setup preop_bus refl refl

put_pages_lem_example :
    (put_pages sm_config 8 sm 2 2 0 (replicate 40 7) ≡ pages sm_page sm 2 2 ++ replicate 24 7)
    × (put_pages fmmu_config 16 sm 2 2 0 (replicate 40 7) ≡ pages fmmu_page sm 2 2 ++ replicate 8 7)
put_pages_lem_example = put_pages_lem sm 2 2 (replicate 40 7) (omega arith)
