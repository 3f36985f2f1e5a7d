-- ===== src/Tests/Scan.antt =====
-- Runs of the scan of src/ec_slave.c.
use cherry_ecat.Prelude.{
  ℕ, ◌≡◌, refl, true, false, List, [], ◌∷◌, arith, length, replicate, bytes_u32, ◌++◌,
}
use cherry_ecat.Datagram.Fill.{zero_data, fpwr, fprd, fill}
use cherry_ecat.Master.Receive.{deliver}
use cherry_ecat.Exchange.{Event, Out, ok, queue_ext_datagram, wait, finish_wait}
use cherry_ecat.Sii.{
  read, read_dwords, read_dword, poll_ready, check_once, assign_master, assign_pdi,
}
use cherry_ecat.Exchange.Facts.{Gives}
use cherry_ecat.Scan.{stations, device_stations}
use cherry_ecat.Scan.Addresses.{Addressed, stations_lem}
use cherry_ecat.Scan.Image.{measure, read_image}
use cherry_ecat.Scan.Sized.{Sized, read_image-Sized}
use cherry_ecat.Scan.Whole.{Scan, count_slaves}
use cherry_ecat.Scan.Whole.Answered.{Answered, count_slaves-Answered}
use cherry_ecat.Tests.Bus.{bus}
use cherry_ecat.Tests.Control.{resting}
use cherry_ecat.Tests.Topology.{clocks}
use cherry_ecat.Tests.Config.{setup}

-- Two slaves on the first device, one on the second.
stations_run :
    stations (2 ∷ 1 ∷ []) 0 0
    ≡ record { index = 0; netdev_idx = 0; autoinc_address = 0; station_address = 1001 }
      ∷ record { index = 1; netdev_idx = 0; autoinc_address = 65535; station_address = 1002 }
      ∷ record { index = 2; netdev_idx = 1; autoinc_address = 0; station_address = 1003 }
      ∷ []
unfolding stations device_stations
stations_run = refl

stations_lem_example :
    Addressed 0 (stations (2 ∷ 1 ∷ []) 0 0) × (length (stations (2 ∷ 1 ∷ []) 0 0) ≡ 3)
stations_lem_example = stations_lem (2 ∷ 1 ∷ []) (omega arith)

-- The answers to a read of the EEPROM: assigned, read, ready with a value, given back.
abbrev answers : ℕ → List Event
answers v =
    Event.received 1 []
    ∷ Event.received 1 []
    ∷ Event.received 1 (0 ∷ 0 ∷ 0 ∷ 0 ∷ 0 ∷ 0 ∷ bytes_u32 v)
    ∷ Event.received 1 []
    ∷ []

-- A category of four words, and the end: the result, where there is one.
result : Out ℕ → ℕ
result (ok n) = n
result _ = 0

measure_run : result (measure 2 0 0x40 (bus (answers 0x40028 ++ answers 0xFFFF))).0 ≡ 0x48
unfolding result measure read read_dwords read_dword poll_ready check_once assign_master assign_pdi
    queue_ext_datagram wait finish_wait deliver fpwr fprd zero_data fill
measure_run = refl

-- An EEPROM of nothing but ones: its first category is the end, so that 66 words are read.
abbrev empty_eeprom : List Event
empty_eeprom = replicate 72 (Event.received 1 (0 ∷ 0 ∷ 0 ∷ 0 ∷ 0 ∷ 0 ∷ bytes_u32 0xFFFFFFFF))

words_read : Out (ℕ × List ℕ) → ℕ
words_read (ok r) = r.0
words_read _ = 0

read_image_run : words_read (read_image true 0 (bus empty_eeprom)).0 ≡ 66
unfolding words_read read_image measure read read_dwords read_dword poll_ready check_once
    assign_master assign_pdi queue_ext_datagram wait finish_wait deliver fpwr fprd zero_data fill
read_image_run = refl

read_image-Sized_example : Gives Sized (read_image true 0 (bus empty_eeprom))
read_image-Sized_example = read_image-Sized true 0 (bus empty_eeprom)

abbrev one_device : Scan
one_device = record {
  control = resting;
  devices = record { up = true; link_state = false; working_counter = 0; state = 0 } ∷ [];
  clocks = clocks;
  setups = λ i. setup;
}

count_slaves-Answered_example : Gives (Answered 1) (count_slaves 1 0 one_device (bus (answers 1)))
count_slaves-Answered_example = count_slaves-Answered one_device (bus (answers 1))
