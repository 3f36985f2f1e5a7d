-- ===== src/Datagram/Fill.antt =====
-- src/ec_datagram.c: the initialisation of a datagram, and the functions that fill in its command,
-- address and size.
use cherry_ecat.Prelude.{
  ℕ, ◌/◌, ◌%◌, List, [], Bool, true, false, Option, none, some, if◌then◌else◌, replicate,
  zero_prefix, write_u16, u16_mod,
}
use cherry_ecat.Datagram.{Datagram, DatagramType, DatagramState}

-- ec_datagram_init_static: the memory is the caller's, and the waiter flag is left as it was.
unfoldable pub init_static : Datagram → List ℕ → ℕ → Datagram
init_static d buf mem_size = record d {
  netdev_idx = 0;
  type = DatagramType.none;
  static_alloc = true;
  address = replicate 4 0;
  buf = buf;
  mem_size = mem_size;
  data_size = 0;
  index = 0;
  working_counter = 0;
  state = DatagramState.init;
  jiffies_sent = 0;
  jiffies_received = 0;
}

-- ec_datagram_init: what ec_osal_malloc gives, of unknown content, and whether ec_osal_sem_create
-- succeeds.
unfoldable pub init_allocated : Datagram → Option (List ℕ) → Bool → ℕ → Datagram
init_allocated d none sem mem_size = d
init_allocated d (some buf) sem mem_size = record d {
  netdev_idx = 0;
  type = DatagramType.none;
  address = replicate 4 0;
  buf = if sem then buf else [];
  mem_size = mem_size;
  data_size = 0;
  index = 0;
  working_counter = 0;
  state = DatagramState.init;
  jiffies_sent = 0;
  jiffies_received = 0;
  waiter = false;
}

-- ec_datagram_zero
unfoldable pub zero_data : Datagram → Datagram
zero_data d = record d { buf = zero_prefix d.data_size d.buf }

-- ec_datagram_fill: the size parameter is a uint16_t.
unfoldable pub fill : Datagram → DatagramType → ℕ → ℕ → ℕ → Datagram
fill d type adp ado size = record d {
  index = 0;
  working_counter = 0;
  state = DatagramState.init;
  type = type;
  address = write_u16 (write_u16 d.address 0 adp) 2 ado;
  data_size = size % u16_mod;
  waiter = false;
}

unfoldable pub aprd : Datagram → ℕ → ℕ → ℕ → Datagram
aprd d autoinc_address mem_address data_size =
    fill d DatagramType.aprd autoinc_address mem_address data_size

unfoldable pub apwr : Datagram → ℕ → ℕ → ℕ → Datagram
apwr d autoinc_address mem_address data_size =
    fill d DatagramType.apwr autoinc_address mem_address data_size

unfoldable pub aprw : Datagram → ℕ → ℕ → ℕ → Datagram
aprw d autoinc_address mem_address data_size =
    fill d DatagramType.aprw autoinc_address mem_address data_size

unfoldable pub armw : Datagram → ℕ → ℕ → ℕ → Datagram
armw d autoinc_address mem_address data_size =
    fill d DatagramType.armw autoinc_address mem_address data_size

unfoldable pub fprd : Datagram → ℕ → ℕ → ℕ → Datagram
fprd d configured_address mem_address data_size =
    fill d DatagramType.fprd configured_address mem_address data_size

unfoldable pub fpwr : Datagram → ℕ → ℕ → ℕ → Datagram
fpwr d configured_address mem_address data_size =
    fill d DatagramType.fpwr configured_address mem_address data_size

unfoldable pub fprw : Datagram → ℕ → ℕ → ℕ → Datagram
fprw d configured_address mem_address data_size =
    fill d DatagramType.fprw configured_address mem_address data_size

unfoldable pub frmw : Datagram → ℕ → ℕ → ℕ → Datagram
frmw d configured_address mem_address data_size =
    fill d DatagramType.frmw configured_address mem_address data_size

unfoldable pub brd : Datagram → ℕ → ℕ → Datagram
brd d mem_address data_size = fill d DatagramType.brd 0 mem_address data_size

unfoldable pub bwr : Datagram → ℕ → ℕ → Datagram
bwr d mem_address data_size = fill d DatagramType.bwr 0 mem_address data_size

unfoldable pub brw : Datagram → ℕ → ℕ → Datagram
brw d mem_address data_size = fill d DatagramType.brw 0 mem_address data_size

unfoldable pub lrd : Datagram → ℕ → ℕ → Datagram
lrd d offset data_size =
    fill d DatagramType.lrd (offset % u16_mod) (offset / u16_mod % u16_mod) data_size

unfoldable pub lwr : Datagram → ℕ → ℕ → Datagram
lwr d offset data_size =
    fill d DatagramType.lwr (offset % u16_mod) (offset / u16_mod % u16_mod) data_size

unfoldable pub lrw : Datagram → ℕ → ℕ → Datagram
lrw d offset data_size =
    fill d DatagramType.lrw (offset % u16_mod) (offset / u16_mod % u16_mod) data_size
