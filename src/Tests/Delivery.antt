-- ===== src/Tests/Delivery.antt =====
-- Runs of ec_master_receive of src/ec_master.c.
use cherry_ecat.Prelude.{◌≡◌, refl, [], ◌∷◌, true}
use cherry_ecat.Master.{Master}
use cherry_ecat.Master.Delivery.{Delivery, callbacks}
use cherry_ecat.Tests.Domain.{drive}
use cherry_ecat.Tests.Queue.{two_queued}

-- Two drives with callbacks; the datagram 3 carries the process data.
abbrev in_operation : Delivery
in_operation = record {
  master = two_queued;
  in_operation = true;
  pdo_datagram = 3;
  slaves =
      (record drive { odata_size = 6; idata_size = 4 }, true)
      ∷ (record drive { logical_start_address = 10; odata_size = 6; idata_size = 4 }, true)
      ∷ [];
  actual_working_counter = 6;
}

callbacks_of_drives :
    callbacks 0 in_operation.slaves
    ≡ record { slave_index = 0; output = 0; input = 6 }
      ∷ record { slave_index = 1; output = 10; input = 16 }
      ∷ []
unfolding callbacks
callbacks_of_drives = refl
