-- ===== src/Coe/Counted.antt =====
-- The bytes that the uploads of src/ec_coe.c copy to the caller's buffer: the segments add up to the
-- size of the object.
use cherry_ecat.Prelude.{
  ℕ, zero, suc, ◌+◌, ◌-◌, ◌%◌, ◌≤◌, ◌≡◌, refl, ap, ◌∙◌, List, ◌++◌, Bool, false, not, arith, length,
  length-append, if◌then◌else◌, ltb, ltb→le, ◌==◌, ◌||◌, u32_mod, read_u8, read_u32, test_bit,
}
use cherry_ecat.Exchange.{Io, M, Out, Errno, ok, err, asserted, blocked, pure, ◌>>◌, fail_if}
use cherry_ecat.Exchange.Facts.{Gives, Gives-next, Gives-if, Gives-fail_if}
use cherry_ecat.Master.Wire.{length-slice}
use cherry_ecat.Coe.Reply.{service, command}
use cherry_ecat.Coe.Upload.{segment_size, upload_segments, upload_normal, bytes_at}
use cherry_ecat.Coe.Silent.{Same, Silent-exchange, Silent-request_segment, Silent-fail_if}

-- The result is the size `total`, and with the `before` bytes of the object copied earlier, the bytes
-- copied since are as many, counted in a uint32_t.
pub Counted : ℕ → ℕ → List ℕ → ℕ → Io → Type 0
Counted total before bytes n w =
    (n ≡ total) × ((length w.written + before) % u32_mod ≡ (length bytes + total) % u32_mod)

Counted-shift :
    (total before count : ℕ) (bytes xs : List ℕ) (s : Out ℕ × Io)
    → length xs ≡ length bytes + count
    → Gives (Counted total ((before + count) % u32_mod) xs) s
    → Gives (Counted total before bytes) s
unfolding Counted
Counted-shift total before count bytes xs (ok n, w) h g = (g.0, omega (arith, g.1))
Counted-shift total before count bytes xs (err e, w) h g = tt
Counted-shift total before count bytes xs (asserted, w) h g = tt
Counted-shift total before count bytes xs (blocked, w) h g = tt

-- A test that did not fail.
abbrev Passed : Bool → Io → Unit {0} → Io → Type 0
Passed b w a w' = (b ≡ false) × (w' ≡ w)

-- The state after `n` bytes of an answer were copied.
abbrev after : ℕ → ℕ → List ℕ → Io → Io
after off n buf e = record e { written = e.written ++ bytes_at buf off n }

length-after :
    (off n : ℕ) (buf bytes : List ℕ) (e : Io)
    → e.written ≡ bytes
    → length (after off n buf e).written ≡ length bytes + n
length-after off n buf bytes e h = omega (
  arith,
  length-append e.written (bytes_at buf off n),
  length-slice (read_u8 buf) off n,
  ap length h,
)

-- The end of a turn, once the answer is known to fit.
turn-Counted :
    (total offset n : ℕ) (buf bytes : List ℕ) (e : Io) (again : M ℕ)
    → e.written ≡ bytes
    → ((w : Io) → Gives (Counted total ((offset + n) % u32_mod) w.written) (again w))
    → Gives (Counted total offset bytes) (
        (if test_bit (read_u8 buf 8) 0
            then (fail_if (not ((offset + n) % u32_mod == total)) Errno.coe_size >> pure total)
            else again)
          (after 9 n buf e))
unfolding Counted
turn-Counted total offset n buf bytes e again h g =
    Gives-if (Counted total offset bytes) (test_bit (read_u8 buf 8) 0)
      (fail_if (not ((offset + n) % u32_mod == total)) Errno.coe_size >> pure total) again
      (after 9 n buf e)
      (λ _.
        Gives-next (Passed (not ((offset + n) % u32_mod == total)) (after 9 n buf e))
          (Counted total offset bytes)
          (fail_if (not ((offset + n) % u32_mod == total)) Errno.coe_size (after 9 n buf e))
          (λ _. pure total)
          (Gives-fail_if (not ((offset + n) % u32_mod == total)) Errno.coe_size (after 9 n buf e))
          λ _ v c. (
            refl,
            last v.written (ap (λ (x : Io). length x.written) c.1 ∙ length-after 9 n buf bytes e h)
                (ground (arith, c.0)),
          ))
      (λ _.
        Counted-shift total offset n bytes (e.written ++ bytes_at buf 9 n) _
          (length-after 9 n buf bytes e h) (g (after 9 n buf e)))
  where
    last :
        (xs : List ℕ)
        → length xs ≡ length bytes + n
        → (offset + n) % u32_mod ≡ total
        → (length xs + offset) % u32_mod ≡ (length bytes + total) % u32_mod
    last xs h k = omega arith

upload_segments-Counted :
    (fuel i total offset : ℕ) (t : Bool) (w : Io)
    → Gives (Counted total offset w.written) (upload_segments fuel i total offset t w)
unfolding upload_segments
upload_segments-Counted zero i total offset t w = tt
upload_segments-Counted (suc fuel) i total offset t w =
    Gives-next (Same w.written) (Counted total offset w.written) _ _ (Silent-request_segment i t w)
      λ _ a p.
        Gives-next (Same a.written) (Counted total offset w.written) _ _ (Silent-exchange i 10 a)
          λ r b q.
            Gives-next (Same b.written) (Counted total offset w.written) _ _
              (Silent-fail_if (not (service r.1 == 3) || not (command r.1 == 0)) Errno.coe_request
                b)
              λ _ d k.
                Gives-next (Same d.written) (Counted total offset w.written) _ _
                  (Silent-fail_if (ltb total ((offset + segment_size r.0 r.1) % u32_mod))
                    Errno.coe_size d)
                  λ _ e l.
                    turn-Counted total offset (segment_size r.0 r.1) r.1 w.written e
                      (upload_segments fuel i total ((offset + segment_size r.0 r.1) % u32_mod)
                        (not t))
                      (l ∙ k ∙ q ∙ p)
                      (upload_segments-Counted fuel i total
                        ((offset + segment_size r.0 r.1) % u32_mod) (not t))

-- The object fits into the caller's buffer, and all of it is there.
pub Fitting : ℕ → ℕ → List ℕ → ℕ → Io → Type 0
Fitting maxsize total bytes n w = (n ≤ maxsize) × Counted total 0 bytes n w

Fitting-start :
    (maxsize total count : ℕ) (bytes xs : List ℕ) (s : Out ℕ × Io)
    → total ≤ maxsize
    → length xs ≡ length bytes + count
    → Gives (Counted total count xs) s
    → Gives (Fitting maxsize total bytes) s
unfolding Fitting Counted
Fitting-start maxsize total count bytes xs (ok n, w) h k g =
    (omega (arith, g.0), (g.0, omega (arith, g.1)))
Fitting-start maxsize total count bytes xs (err e, w) h k g = tt
Fitting-start maxsize total count bytes xs (asserted, w) h k g = tt
Fitting-start maxsize total count bytes xs (blocked, w) h k g = tt

-- A normal answer that brings at most as many bytes as the size in it: where ec_coe_upload then
-- succeeds, with or without segments to follow, its result is that size, it is at most the size of
-- the caller's buffer, and the bytes copied to the buffer are as many, counted in a uint32_t.
pub upload_normal-Counted :
    (i maxsize size : ℕ) (buf : List ℕ) (w : Io)
    → size - 10 ≤ read_u32 buf 12
    → Gives (Fitting maxsize (read_u32 buf 12) w.written) (upload_normal i maxsize size buf w)
unfolding upload_normal Fitting Counted
upload_normal-Counted i maxsize size buf w h =
    Gives-next (Passed (ltb size 10) w) (Fitting maxsize (read_u32 buf 12) w.written)
      (fail_if (ltb size 10) Errno.coe_size w) _ (Gives-fail_if (ltb size 10) Errno.coe_size w)
      λ _ a c.
        Gives-next (Passed (ltb maxsize (read_u32 buf 12)) a)
          (Fitting maxsize (read_u32 buf 12) w.written)
          (fail_if (ltb maxsize (read_u32 buf 12)) Errno.coe_size a) _
          (Gives-fail_if (ltb maxsize (read_u32 buf 12)) Errno.coe_size a)
          λ _ b d.
            let e = ap (λ (x : Io). x.written) (d.1 ∙ c.1) in
            Gives-if (Fitting maxsize (read_u32 buf 12) w.written)
              (ltb (size - 10) (read_u32 buf 12))
              (upload_segments (suc (length b.events)) i (read_u32 buf 12) (size - 10) false)
              (pure (read_u32 buf 12)) (after 16 (size - 10) buf b)
              (λ _.
                Fitting-start maxsize (read_u32 buf 12) (size - 10) w.written
                  (after 16 (size - 10) buf b).written _ (ltb→le maxsize (read_u32 buf 12) d.0)
                  (length-after 16 (size - 10) buf w.written b e)
                  (upload_segments-Counted (suc (length b.events)) i (read_u32 buf 12) (size - 10)
                    false (after 16 (size - 10) buf b)))
              (λ k. (
                ltb→le maxsize (read_u32 buf 12) d.0,
                (
                  refl,
                  ap (λ (x : ℕ). x % u32_mod)
                      (omega (
                        arith,
                        h,
                        ltb→le (size - 10) (read_u32 buf 12) k,
                        length-after 16 (size - 10) buf w.written b e,
                      )),
                ),
              ))
