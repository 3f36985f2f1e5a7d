-- ===== src/Scan/Image.antt =====
-- src/ec_slave.c, ec_slaves_scanning: the EEPROM of a slave is measured by its category headers and
-- read into the image, and the identity of the slave is taken from it.
use cherry_ecat.Prelude.{
  ℕ, zero, suc, ◌+◌, ◌*◌, ◌/◌, ◌%◌, List, [], ◌∷◌, ◌++◌, Bool, if◌then◌else◌, ◌==◌, ◌&&◌, not, ltb,
  read_u16, read_u32, bytes_u32, get_or, u16_mod, length,
}
use cherry_ecat.Exchange.{M, Errno, pure, block, ◌>>=◌, ◌>>◌, get, fail_if}
use cherry_ecat.Sii.{read}

-- What the header `sii_data` of a category at `sii_offset` makes of the offset, a uint16_t.
abbrev pub next_offset : ℕ → ℕ → ℕ
next_offset sii_offset sii_data = (sii_offset + 2 + sii_data / u16_mod % u16_mod) % u16_mod

-- The loop's condition: the type is not that of the end, and the offset is below EC_MAX_SII_SIZE.
abbrev pub goes_on : ℕ → ℕ → Bool
goes_on sii_data offset = not (sii_data % u16_mod == 0xFFFF) && ltb offset 4096

-- The loop over the category headers; each turn uses up an event.
unfoldable pub measure : ℕ → ℕ → ℕ → M ℕ
unfolding read
measure zero slave_index sii_offset = block
measure (suc fuel) slave_index sii_offset = do
  vs ← read slave_index sii_offset 4
  let sii_data = get_or vs 0 0
  let offset = next_offset sii_offset sii_data
  if goes_on sii_data offset then measure fuel slave_index offset else pure offset

-- EC_ALIGN_UP(sii_offset + 1, 2)
abbrev pub nwords : ℕ → ℕ
nwords sii_offset = (sii_offset + 1 + 1) / 2 * 2

abbrev pub dword_bytes : List ℕ → List ℕ
dword_bytes [] = []
dword_bytes (v ∷ vs) = bytes_u32 v ++ dword_bytes vs

-- The image, with sii_nwords words.
unfoldable pub read_image : Bool → ℕ → M (ℕ × List ℕ)
unfolding measure
read_image allocated slave_index = do
  w ← get
  sii_offset ← measure (suc (length w.events)) slave_index 0x40
  fail_if (not allocated) Errno.nomem
  vs ← read slave_index 0 (nwords sii_offset * 2)
  pure (nwords sii_offset, dword_bytes vs)

-- The fields of ec_sii_t that are not in a category; alias_address is the same as aliasaddr.
pub record Identity : Type 0 where
  pub aliasaddr : ℕ
  pub vendor_id : ℕ
  pub product_code : ℕ
  pub revision_number : ℕ
  pub serial_number : ℕ
  pub boot_rx_mailbox_offset : ℕ
  pub boot_rx_mailbox_size : ℕ
  pub boot_tx_mailbox_offset : ℕ
  pub boot_tx_mailbox_size : ℕ
  pub std_rx_mailbox_offset : ℕ
  pub std_rx_mailbox_size : ℕ
  pub std_tx_mailbox_offset : ℕ
  pub std_tx_mailbox_size : ℕ
  pub mailbox_protocols : ℕ

-- The words of the image by their numbers.
unfoldable pub identity : List ℕ → Identity
identity image = record {
  aliasaddr = read_u16 image (2 * 0x4);
  vendor_id = read_u32 image (2 * 0x8);
  product_code = read_u32 image (2 * 0xA);
  revision_number = read_u32 image (2 * 0xC);
  serial_number = read_u32 image (2 * 0xE);
  boot_rx_mailbox_offset = read_u16 image (2 * 0x14);
  boot_rx_mailbox_size = read_u16 image (2 * 0x15);
  boot_tx_mailbox_offset = read_u16 image (2 * 0x16);
  boot_tx_mailbox_size = read_u16 image (2 * 0x17);
  std_rx_mailbox_offset = read_u16 image (2 * 0x18);
  std_rx_mailbox_size = read_u16 image (2 * 0x19);
  std_tx_mailbox_offset = read_u16 image (2 * 0x1A);
  std_tx_mailbox_size = read_u16 image (2 * 0x1B);
  mailbox_protocols = read_u16 image (2 * 0x1C);
}
