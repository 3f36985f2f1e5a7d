-- ===== src/Lib.antt =====
-- CherryECAT is an EtherCAT master for microcontrollers. This library models its core: the queue of
-- datagrams and their frames, the calls above it that exchange datagrams with one slave and wait
-- (application states, mailbox, EEPROM, CANopen over EtherCAT), the layout of the process data,
-- the texts of its codes, the scan of the bus, and the start and stop of the master.
--
-- How the parts interact: the periodic process sends (ec_master_send) and receives
-- (ec_master_receive_datagrams) frames; everything else queues a datagram and sleeps on its
-- semaphore (ec_master_queue_ext_datagram) until one of these two has completed it.
--
-- Files, and the code that they model (paths from the repository's root):
--   Prelude        shared names, tests, lists; Prelude/Bytes the macros of include/ec_util.h
--   Datagram       include/ec_datagram.h, src/ec_datagram.c; Datagram/Fill the fill functions
--   Master         src/ec_master.c, the queue: the state, ec_master_queue_datagram and
--                  ec_master_unqueue_datagram; Frame and Send: ec_master_send_datagrams; Receive:
--                  ec_master_receive_datagrams; Cycle: ec_master_send. Queue, Retire, Complete,
--                  Progress, Drained, Wire and Whole hold the proofs.
--   Master/Period  src/ec_master.c, ec_master_period_process and ec_master_dc_sync_with_pi
--   Master/Control src/ec_master.c, ec_master_start and ec_master_stop, and of src/ec_datagram.c
--                  ec_datagram_unqueue and ec_datagram_clear; Running and Calls hold the proofs;
--                  Init ec_master_init, Init/Fresh its proofs
--   Master/Delivery
--                  src/ec_master.c, ec_master_receive and the callbacks; Handed its proofs
--   Netdev         src/ec_netdev.c, counters and statistics, Rates their proofs; Link the polling of
--                  the links, Link/Followed its proofs
--   Exchange       src/ec_master.c, ec_master_queue_ext_datagram, and the state that the functions
--                  above it pass on; Facts the rules for runs of them
--   Slave          include/ec_slave.h; Slave/State the state changes of src/ec_slave.c,
--                  StateFacts, Reached, InTime and Arrives their proofs
--   Slave/Topology src/ec_slave.c, ec_master_calc_topology and the order of the linked ports;
--                  Slave/Delays the rest of ec_master_calc_dc; Slave/Config ec_slave_config and
--                  ec_master_scan_slaves_state; Slave/Content the parsing of the EEPROM image in
--                  ec_slaves_scanning, with its strings
--   Scan           src/ec_slave.c, ec_slaves_scanning: Probe the registers, Image the EEPROM, Rescan
--                  the slaves together, Whole the function; the rest are proofs
--   Mailbox, Sii   src/ec_mailbox.c, src/ec_sii.c, a function each
--   Coe            src/ec_coe.c; Reply what all functions do with an answer, Download and Upload the
--                  transfers
--   Domain         src/ec_master.c, the layout in ec_master_start and ec_master_get_slave_domain and
--                  its kin; Domain/Supported src/ec_slave_table.c
--   Shell          src/ec_cmd.c, parse_hex_string
--   Memory         src/ec_common.c, ec_memcpy and ec_memset, which all other parts use as plain copies
--   Lists          include/ec_list.h; Lists/Single its singly linked lists
--   Messages       src/ec_common.c, the tables of messages and the searches in them
--   Tests          runs on concrete inputs
--
-- Numbers are natural numbers; fields and results of a fixed width are reduced where the source's
-- type can wrap round. Bytes are read and written low byte first, as on the hosts of the source.
-- Pointers to datagrams are numbers, and the memory is a function, so that the queue and the caller
-- share a datagram. The clock is the sequence of its readings. What other threads and the bus do
-- while a caller sleeps is a sequence of events, one for each sleep.
--
-- Fuel: the loops over a received frame have one unit for each byte of the frame and one more, the
-- frames to send one for each datagram in the queue and one more, the loops that poll a slave or
-- measure its EEPROM one for each event and one more, the segments of a download one for each byte,
-- the walks down the tree of slaves one for each slave, the walks along a list one for each node and
-- one more, and the parsing of an image one for each byte. A loop that ran out of fuel gives `none`,
-- or blocks with events left.
--
-- Not modelled: the shell but for its parser of hexadecimal strings, the drivers of the network
-- devices and the PHYs, the ports, the operating systems' layers, whose answers are arguments, the
-- endless loops of the threads around the functions, and the measurements of perf_enable.
pub mod Prelude
pub mod Datagram
pub mod Slave
pub mod Master
pub mod Exchange
pub mod Mailbox
pub mod Sii
pub mod Coe
pub mod Lists
pub mod Memory
pub mod Scan
pub mod Netdev
pub mod Shell
pub mod Messages
pub mod Domain
pub mod Tests
