-- ===== src/Master/Delivery.antt =====
-- src/ec_master.c, ec_master_receive with a single domain: a received frame is read, and in operation
-- the callbacks of the slaves get the process data. A pointer into the image is the number of the
-- byte; the measurements that `perf_enable` turns on are left out.
pub mod Handed
use cherry_ecat.Prelude.{
  ℕ, ◌+◌, ◌%◌, List, [], ◌∷◌, map, Bool, true, false, Option, none, some, if◌then◌else◌, u32_mod,
}
use cherry_ecat.Datagram.{DatagramState}
use cherry_ecat.Domain.{Area}
use cherry_ecat.Master.{Master, jiffies}
use cherry_ecat.Master.Receive.{receive_datagrams}

-- What the function uses of ec_master_t; a slave comes with whether it has a configuration with a
-- callback.
pub record Delivery : Type 0 where
  pub master : Master
  pub in_operation : Bool
  pub pdo_datagram : ℕ
  pub slaves : List (Area × Bool)
  pub actual_working_counter : ℕ

-- A call of a callback: the slave, its outputs and its inputs.
pub record Handover : Type 0 where
  pub slave_index : ℕ
  pub output : ℕ
  pub input : ℕ

-- The arguments of a callback.
abbrev pub handover : ℕ → Area → Handover
handover i a = record {
  slave_index = i;
  output = a.logical_start_address;
  input = (a.logical_start_address + a.odata_size) % u32_mod;
}

-- The loop over the slaves, of which the first is the `i`-th.
unfoldable pub callbacks : ℕ → List (Area × Bool) → List Handover
callbacks i [] = []
callbacks i ((a, false) ∷ slaves) = callbacks (i + 1) slaves
callbacks i ((a, true) ∷ slaves) = handover i a ∷ callbacks (i + 1) slaves

abbrev pub is_received : DatagramState → Bool
is_received DatagramState.received = true
is_received _ = false

-- What is done in operation, with the master after the frame.
unfoldable pub hand_over : Delivery → Master → List Handover × Delivery
unfolding callbacks
hand_over r m =
    let d = m.cells r.pdo_datagram in
    let m' = (jiffies m).1 in
    if is_received d.state
    then (
      callbacks 0 r.slaves,
      record r { master = m'; actual_working_counter = d.working_counter },
    )
    else ([], record r { master = m'; actual_working_counter = 0 })

abbrev pub after_frame : Delivery → Option Master → Option (List Handover × Delivery)
after_frame r none = none
after_frame r (some m) =
    if r.in_operation then some (hand_over r m) else some ([], record r { master = m })

-- ec_master_receive; none would be a loop that does not end.
unfoldable pub receive : (ℕ → ℕ) → ℕ → Delivery → Option (List Handover × Delivery)
unfolding receive_datagrams hand_over
receive frame_data size r = after_frame r (receive_datagrams frame_data size (jiffies r.master).1)
