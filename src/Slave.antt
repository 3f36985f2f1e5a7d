-- ===== src/Slave.antt =====
-- include/ec_slave.h: the fields of a slave that the mailbox, EEPROM and state functions use.
pub mod Content
pub mod State
pub mod StateFacts
pub mod Reached
pub mod InTime
pub mod Arrives
pub mod Topology
pub mod Delays
pub mod Config
use cherry_ecat.Prelude.{ℕ}

pub record Slave : Type 0 where
  pub index : ℕ
  pub netdev_idx : ℕ
  pub station_address : ℕ
  pub requested_state : ℕ
  pub current_state : ℕ
  pub alstatus_code : ℕ
  pub configured_rx_mailbox_offset : ℕ
  pub configured_rx_mailbox_size : ℕ
  pub configured_tx_mailbox_offset : ℕ
  pub configured_tx_mailbox_size : ℕ
