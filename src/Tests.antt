-- ===== src/Tests.antt =====
-- Runs of the modelled functions of src/ec_master.c, src/ec_slave.c, src/ec_coe.c, src/ec_sii.c,
-- src/ec_mailbox.c, src/ec_common.c, src/ec_slave_table.c, src/ec_netdev.c and src/ec_cmd.c on
-- concrete inputs.
pub mod Queue
pub mod Domain
pub mod Lists
pub mod Topology
pub mod Content
pub mod Config
pub mod Period
pub mod Control
pub mod Scan
pub mod Bus
pub mod Memory
pub mod Delivery
pub mod Shell
pub mod Netdev
