-- ===== src/Messages/Tables.antt =====
-- src/ec_common.c: the tables of messages, each with its last row, which only ends the search.
use cherry_ecat.Prelude.{List, [], ◌∷◌}
use cherry_ecat.Messages.{Row, row}

-- ec_mbox_protocol_messages
unfoldable pub ec_mbox_protocol_messages : List Row
ec_mbox_protocol_messages =
    row 0x0001 "AOE"
    ∷ row 0x0002 "EOE"
    ∷ row 0x0004 "COE"
    ∷ row 0x0008 "FOE"
    ∷ row 0x0010 "SOE"
    ∷ row 0x0020 "VOE"
    ∷ row 0 ""
    ∷ []

-- al_status_messages
unfoldable pub al_status_messages : List Row
al_status_messages =
    row 0x0000 "No error"
    ∷ row 0x0001 "Unspecified error"
    ∷ row 0x0002 "No Memory"
    ∷ row 0x0011 "Invalid requested state change"
    ∷ row 0x0012 "Unknown requested state"
    ∷ row 0x0013 "Bootstrap not supported"
    ∷ row 0x0014 "No valid firmware"
    ∷ row 0x0015 "Invalid mailbox configuration (BOOT state)"
    ∷ row 0x0016 "Invalid mailbox configuration (PreOP state)"
    ∷ row 0x0017 "Invalid sync manager configuration"
    ∷ row 0x0018 "No valid inputs available"
    ∷ row 0x0019 "No valid outputs"
    ∷ row 0x001A "Synchronization error"
    ∷ row 0x001B "Sync manager watchdog"
    ∷ row 0x001C "Invalid sync manager types"
    ∷ row 0x001D "Invalid output configuration"
    ∷ row 0x001E "Invalid input configuration"
    ∷ row 0x001F "Invalid watchdog configuration"
    ∷ row 0x0020 "Slave needs cold start"
    ∷ row 0x0021 "Slave needs INIT"
    ∷ row 0x0022 "Slave needs PREOP"
    ∷ row 0x0023 "Slave needs SAFEOP"
    ∷ row 0x0024 "Invalid Input Mapping"
    ∷ row 0x0025 "Invalid Output Mapping"
    ∷ row 0x0026 "Inconsistent Settings"
    ∷ row 0x0027 "Freerun not supported"
    ∷ row 0x0028 "Synchronization not supported"
    ∷ row 0x0029 "Freerun needs 3 Buffer Mode"
    ∷ row 0x002A "Background Watchdog"
    ∷ row 0x002B "No Valid Inputs and Outputs"
    ∷ row 0x002C "Fatal Sync Error"
    ∷ row 0x002D "No Sync Error"
    ∷ row 0x0030 "Invalid DC SYNCH configuration"
    ∷ row 0x0031 "Invalid DC latch configuration"
    ∷ row 0x0032 "PLL error"
    ∷ row 0x0033 "DC Sync IO Error"
    ∷ row 0x0034 "DC Sync Timeout Error"
    ∷ row 0x0035 "DC Invalid Sync Cycle Time"
    ∷ row 0x0036 "DC Sync0 Cycle Time"
    ∷ row 0x0037 "DC Sync1 Cycle Time"
    ∷ row 0x0041 "MBX_AOE"
    ∷ row 0x0042 "MBX_EOE"
    ∷ row 0x0043 "MBX_COE"
    ∷ row 0x0044 "MBX_FOE"
    ∷ row 0x0045 "MBX_SOE"
    ∷ row 0x004F "MBX_VOE"
    ∷ row 0x0050 "EEPROM No Access"
    ∷ row 0x0051 "EEPROM Error"
    ∷ row 0x0060 "Slave Restarted Locally"
    ∷ row 0xffff ""
    ∷ []

-- mbox_error_messages
unfoldable pub mbox_error_messages : List Row
mbox_error_messages =
    row 0x00000001 "MBXERR_SYNTAX"
    ∷ row 0x00000002 "MBXERR_UNSUPPORTEDPROTOCOL"
    ∷ row 0x00000003 "MBXERR_INVAILDCHANNEL"
    ∷ row 0x00000004 "MBXERR_SERVICENOTSUPPORTED"
    ∷ row 0x00000005 "MBXERR_INVALIDHEADER"
    ∷ row 0x00000006 "MBXERR_SIZETOOSHORT"
    ∷ row 0x00000007 "MBXERR_NOMOREMEMORY"
    ∷ row 0x00000008 "MBXERR_INVALIDSIZE"
    ∷ row 0xffffffff ""
    ∷ []

-- sdo_abort_messages
unfoldable pub sdo_abort_messages : List Row
sdo_abort_messages =
    row 0x05030000 "Toggle bit not changed"
    ∷ row 0x05040000 "SDO protocol timeout"
    ∷ row 0x05040001 "Client/Server command specifier not valid or unknown"
    ∷ row 0x05040005 "Out of memory"
    ∷ row 0x06010000 "Unsupported access to an object"
    ∷ row 0x06010001 "Attempt to read a write-only object"
    ∷ row 0x06010002 "Attempt to write a read-only object"
    ∷ row 0x06020000 "This object does not exist in the object directory"
    ∷ row 0x06040041 "The object cannot be mapped into the PDO"
    ∷ row 0x06040042 "The number and length of the objects to be mapped would exceed the PDO length"
    ∷ row 0x06040043 "General parameter incompatibility reason"
    ∷ row 0x06040047 "Gerneral internal incompatibility in device"
    ∷ row 0x06060000 "Access failure due to a hardware error"
    ∷ row 0x06070010 "Data type does not match, length of service parameter does not match"
    ∷ row 0x06070012 "Data type does not match, length of service parameter too high"
    ∷ row 0x06070013 "Data type does not match, length of service parameter too low"
    ∷ row 0x06090011 "Subindex does not exist"
    ∷ row 0x06090030 "Value range of parameter exceeded"
    ∷ row 0x06090031 "Value of parameter written too high"
    ∷ row 0x06090032 "Value of parameter written too low"
    ∷ row 0x06090036 "Maximum value is less than minimum value"
    ∷ row 0x08000000 "General error"
    ∷ row 0x08000020 "Data cannot be transferred or stored to the application"
    ∷ row 0x08000021
        "Data cannot be transferred or stored to the application because of local control"
    ∷ row 0x08000022
        "Data cannot be transferred or stored to the application because of the present device state"
    ∷ row 0x08000023 "Object dictionary dynamic generation fails or no object dictionary is present"
    ∷ row 0xffffffff ""
    ∷ []

-- foe_errcode_messages
unfoldable pub foe_errcode_messages : List Row
foe_errcode_messages =
    row 0x8000 "Not defined"
    ∷ row 0x8001 "The file requested by an FoE upload service could not be found on the server"
    ∷ row 0x8002 "Read or write access to this file not allowed (e.g. due to local control)"
    ∷ row 0x8003 "Disk to store file is full or memory allocation exceeded"
    ∷ row 0x8004 "Illegal FoE operation, e.g. service identifier invalid"
    ∷ row 0x8005 "FoE packet number invalid"
    ∷ row 0x8006 "The file which is requested to be downloaded does already exist"
    ∷ row 0x8007 "No User"
    ∷ row 0x8008 "FoE only supported in Bootstrap"
    ∷ row 0x8009 "This file may not be accessed in BOOTSTRAP state"
    ∷ row 0x800A "Password invalid"
    ∷ row 0x800B
        "Generic programming error. Should only be returned if  error reason cannot be distinguished"
    ∷ row 0x800C "checksum included in the file is invalid"
    ∷ row 0x800D "The hardware does not support the downloaded firmware"
    ∷ row 0x800F "Do not use (identical with 0x8001)"
    ∷ row 0x8010 "Missing file header of error in file header"
    ∷ row 0x8011 "Flash cannot be accessed"
    ∷ row 0xffffffff ""
    ∷ []

-- eoe_errcode_messages
unfoldable pub eoe_errcode_messages : List Row
eoe_errcode_messages =
    row 0x0000 "No Error"
    ∷ row 0x0001 "Unspecified error"
    ∷ row 0x0002 "Unsupported type"
    ∷ row 0x0201 "No IP support"
    ∷ row 0x0202 "No DHCP support"
    ∷ row 0x0401 "No MAC filter/mask support"
    ∷ row 0xffffffff ""
    ∷ []
