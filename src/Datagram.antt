-- ===== src/Datagram.antt =====
-- include/ec_datagram.h: the datagram; its functions are in the child modules. Left out of the
-- record: the list nodes (the queue is a list of pointers in Master), the name, and the semaphore
-- handle (Master logs each give).
pub mod Fill
pub mod Facts
use cherry_ecat.Prelude.{ℕ, List, Bool}

-- ec_datagram_type_t
pub data DatagramType : Type 0 where
  none aprd apwr aprw fprd fpwr fprw brd bwr brw lrd lwr lrw armw frmw : DatagramType

-- The command byte of a type: the value of the enumeration.
abbrev pub type_code : DatagramType → ℕ
type_code DatagramType.none = 0
type_code DatagramType.aprd = 1
type_code DatagramType.apwr = 2
type_code DatagramType.aprw = 3
type_code DatagramType.fprd = 4
type_code DatagramType.fpwr = 5
type_code DatagramType.fprw = 6
type_code DatagramType.brd = 7
type_code DatagramType.bwr = 8
type_code DatagramType.brw = 9
type_code DatagramType.lrd = 10
type_code DatagramType.lwr = 11
type_code DatagramType.lrw = 12
type_code DatagramType.armw = 13
type_code DatagramType.frmw = 14

-- ec_datagram_state_t
pub data DatagramState : Type 0 where
  init queued sent received timed_out error : DatagramState

-- ec_datagram_t
pub record Datagram : Type 0 where
  pub netdev_idx : ℕ
  pub type : DatagramType
  pub static_alloc : Bool
  pub address : List ℕ
  pub buf : List ℕ
  pub mem_size : ℕ
  pub data_size : ℕ
  pub index : ℕ
  pub working_counter : ℕ
  pub state : DatagramState
  pub jiffies_sent : ℕ
  pub jiffies_received : ℕ
  pub waiter : Bool
