-- ===== src/Coe.antt =====
-- src/ec_coe.c: CANopen over EtherCAT, the download of an object to a slave and its upload from a
-- slave, over the mailbox. The mailbox's data begins at byte 6 of the datagram; the CoE header takes
-- 2 bytes, the SDO header 1 byte, index and subindex 3 bytes. Bit-fields are written out: each store
-- of the source sets all bits of its byte or word.
pub mod Reply
pub mod Download
pub mod Upload
pub mod Waits
pub mod Answers
pub mod Silent
pub mod Counted
use cherry_ecat.Prelude.{
  ℕ, ◌+◌, ◌-◌, ◌*◌, ◌%◌, List, [], ◌∷◌, Bool, true, false, write_u8, write_u16, if◌then◌else◌,
}

-- EC_COE_TIMEOUT_NS, 1 s.
abbrev pub coe_timeout_ns : ℕ
coe_timeout_ns = 1000000000

abbrev pub bit : Bool → ℕ
bit true = 1
bit false = 0

-- ec_coe_header_t: number 0, reserved 0, service EC_COE_SERVICE_SDO_REQUEST.
abbrev pub coe_header : ℕ
coe_header = 2 * 4096

-- ec_sdo_header_common_t
abbrev pub sdo_common : ℕ → ℕ → ℕ → Bool → ℕ → ℕ
sdo_common size_indicator transfertype data_set_size complete_access command =
    size_indicator
    + 2 * transfertype
    + 4 * (data_set_size % 4)
    + 16 * bit complete_access
    + 32 * command

-- ec_sdo_header_segment_t
abbrev pub sdo_segment : Bool → ℕ → Bool → ℕ → ℕ
sdo_segment more_follows segdata_size toggle command =
    bit more_follows + 2 * (segdata_size % 8) + 16 * bit toggle + 32 * command

-- CoE header, SDO header, index and subindex of ec_coe_download_common_header_t.
abbrev pub put_common : ℕ → ℕ → ℕ → List ℕ → List ℕ
put_common sdo index subindex buf =
    write_u8 (write_u16 (write_u8 (write_u16 buf 6 coe_header) 8 sdo) 9 index) 11 subindex

-- ec_coe_download_segment_header_t
abbrev pub put_segment : ℕ → List ℕ → List ℕ
put_segment sdo buf = write_u8 (write_u16 buf 6 coe_header) 8 sdo

-- complete_access ? 0x00 : subindex
abbrev pub sent_subindex : Bool → ℕ → ℕ
sent_subindex complete_access subindex = if complete_access then 0 else subindex
