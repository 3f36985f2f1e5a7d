-- ===== src/Sii/Results.antt =====
-- What ec_sii_read of src/ec_sii.c returns.
use cherry_ecat.Prelude.{
  ℕ, zero, suc, ◌+◌, ◌/◌, ◌%◌, ◌<◌, ◌≡◌, refl, ap, List, Bool, false, not, arith, length, leb, ◌==◌,
  u16_mod,
}
use cherry_ecat.Slave.{Slave}
use cherry_ecat.Exchange.{Io, Errno, fail_if}
use cherry_ecat.Exchange.Facts.{Gives, Gives-next, Gives-any, Gives-fail_if}
use cherry_ecat.Sii.{assign_master, assign_pdi, read_dword, read_dwords, read}

-- `n` double words were read.
abbrev Long : ℕ → List ℕ → Io → Type 0
Long n vs w = length vs ≡ n

-- A test that did not fail.
abbrev Passed : Bool → Io → Unit {0} → Io → Type 0
Passed b w a w' = (b ≡ false) × (w' ≡ w)

read_dwords-Long : (n : ℕ) (s : Slave) (o : ℕ) (w : Io) → Gives (Long n) (read_dwords n s o w)
unfolding read_dwords
read_dwords-Long zero s o w = refl
read_dwords-Long (suc n) s o w =
    Gives-next (λ _ _. Unit) (Long (suc n)) (read_dword s (o % u16_mod) w) _
      (Gives-any (read_dword s (o % u16_mod) w))
      λ v a _.
        Gives-next (Long n) (Long (suc n)) (read_dwords n s (o + 2) a) _
          (read_dwords-Long n s (o + 2) a) λ vs b h. ap suc h

-- What a successful read says of its arguments and its result.
unfoldable pub Whole : ℕ → ℕ → ℕ → List ℕ → Io → Type 0
Whole count i len vs w = (i < count) × (len % 4 ≡ 0) × (length vs ≡ len / 4)

-- Where ec_sii_read succeeds, the slave exists, the length is a multiple of 4, and as many double
-- words as fit into the length were read.
pub read-Whole : (i o len : ℕ) (w : Io) → Gives (Whole w.slave_count i len) (read i o len w)
unfolding read Whole
read-Whole i o len w =
    Gives-next (Passed (not (len % 4 == 0)) w) (Whole w.slave_count i len)
      (fail_if (not (len % 4 == 0)) Errno.inval w) _
      (Gives-fail_if (not (len % 4 == 0)) Errno.inval w)
      λ _ a c.
        Gives-next (Passed (leb a.slave_count i) a) (Whole w.slave_count i len)
          (fail_if (leb a.slave_count i) Errno.inval a) _
          (Gives-fail_if (leb a.slave_count i) Errno.inval a)
          λ _ b d.
            Gives-next (λ _ _. Unit) (Whole w.slave_count i len) (assign_master (a.slaves i) b) _
              (Gives-any (assign_master (a.slaves i) b))
              λ _ e _.
                Gives-next (Long (len / 4)) (Whole w.slave_count i len)
                  (read_dwords (len / 4) (a.slaves i) o e) _
                  (read_dwords-Long (len / 4) (a.slaves i) o e)
                  λ vs f h.
                    Gives-next (λ _ _. Unit) (Whole w.slave_count i len) (assign_pdi (a.slaves i) f)
                      _ (Gives-any (assign_pdi (a.slaves i) f))
                      λ _ g _. (
                        ground (arith, d.0, ap (λ (x : Io). x.slave_count) c.1),
                        ground (arith, c.0),
                        h,
                      )
