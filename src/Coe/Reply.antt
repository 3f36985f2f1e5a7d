-- ===== src/Coe/Reply.antt =====
-- src/ec_coe.c: what every function does with the answer of the slave, in the order of its tests.
use cherry_ecat.Prelude.{ℕ, ◌/◌, List, ltb, not, ◌==◌, ◌&&◌, ◌||◌, read_u8, read_u16}
use cherry_ecat.Exchange.{M, Errno, pure, ◌>>=◌, ◌>>◌, fail_if, get}
use cherry_ecat.Mailbox.{send, receive}
use cherry_ecat.Coe.{coe_timeout_ns}

-- EC_READ_U16(data) >> 12, with `data` behind the mailbox header.
abbrev pub service : List ℕ → ℕ
service buf = read_u16 buf 6 / 4096

-- EC_READ_U8(data + 2) >> 5
abbrev pub command : List ℕ → ℕ
command buf = read_u8 buf 8 / 32

-- The mailbox exchange and the tests that are the same in all functions: the type of the mailbox,
-- its size, and an abort. It gives the size and the datagram's data.
unfoldable pub exchange : ℕ → ℕ → M (ℕ × List ℕ)
exchange slave_index min_size = do
  send slave_index
  r ← receive slave_index coe_timeout_ns
  fail_if (not (r.0 == 3)) Errno.coe_type
  fail_if (ltb r.1 min_size) Errno.coe_size
  w ← get
  let buf = w.datagram.buf
  fail_if (service buf == 2 && command buf == 4) Errno.coe_abort
  pure (r.1, buf)

-- The answer to a download request.
unfoldable pub check_download : ℕ → ℕ → List ℕ → M (Unit {0})
check_download index subindex buf =
    fail_if
      (not (service buf == 3)
        || (not (command buf == 3)
            || (not (read_u16 buf 9 == index) || not (read_u8 buf 11 == subindex))))
      Errno.coe_request
