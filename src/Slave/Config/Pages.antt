-- ===== src/Slave/Config/Pages.antt =====
-- src/ec_slave.c, ec_slave_sm_config and ec_slave_fmmu_config: the registers' pages as bytes, and
-- what the loops that fill a datagram with them leave in it.
use cherry_ecat.Prelude.{
  ℕ, zero, suc, ◌+◌, ◌*◌, ◌/◌, ◌%◌, ◌≤◌, ◌≡◌, refl, arith, List, [], ◌∷◌, ◌++◌, length, set,
  set-append, write_u16, write_u32, bytes_u16, bytes_u32, take, drop, length-take, get_or,
  length-drop, length-append, take-append-drop, append_assoc, ap, sym, ◌∙◌,
}
use cherry_ecat.Domain.{Direction}
use cherry_ecat.Slave.Config.{fmmu_config, put_pages, Sm, sm_config, dir_byte}

-- A sync manager's registers: start address, length, control, status, activation.
abbrev pub sm_page : Sm → List ℕ
sm_page sm =
    bytes_u16 sm.physical_start_address
    ++ (bytes_u16 sm.length ++ ((sm.control % 256) ∷ 0 ∷ bytes_u16 sm.enable))

-- An FMMU's registers: logical address and length, first and last bit, physical address and bit,
-- direction, activation, reserved bytes.
abbrev pub fmmu_page : Sm → List ℕ
fmmu_page sm =
    bytes_u32 sm.logical_start_address
    ++ (bytes_u16 sm.data_size
        ++ (0 ∷ 7 ∷ bytes_u16 sm.physical_start_address
            ++ (0 ∷ dir_byte sm.dir ∷ 1 ∷ 0 ∷ 0 ∷ 0 ∷ [])))

-- The pages of `n` sync managers from number `k` on.
abbrev pub pages : (Sm → List ℕ) → (ℕ → Sm) → ℕ → ℕ → List ℕ
pages page sms k zero = []
pages page sms k (suc n) = page (sms k) ++ pages page sms (k + 1) n

write_u16-append :
    (xs ys : List ℕ) (n i v : ℕ)
    → n ≡ length xs + i
    → write_u16 (xs ++ ys) n v ≡ xs ++ write_u16 ys i v
write_u16-append xs ys n i v h =
    ap (λ t. set t (n + 1) (v / 256 % 256)) (set-append xs ys n i (v % 256) h)
    ∙ set-append xs (set ys i (v % 256)) (n + 1) (i + 1) (v / 256 % 256) (omega arith)

write_u32-append :
    (xs ys : List ℕ) (n i v : ℕ)
    → n ≡ length xs + i
    → write_u32 (xs ++ ys) n v ≡ xs ++ write_u32 ys i v
write_u32-append xs ys n i v h =
    ap (λ t. write_u16 t (n + 2) (v / 65536)) (write_u16-append xs ys n i v h)
    ∙ write_u16-append xs (write_u16 ys i v) (n + 2) (i + 2) (v / 65536) (omega arith)

-- A page is written behind `xs` as it is written at the start.
sm_config-append :
    (sm : Sm) (xs ys : List ℕ) (n : ℕ)
    → n ≡ length xs
    → sm_config sm (xs ++ ys) n ≡ xs ++ sm_config sm ys 0
unfolding sm_config
sm_config-append sm xs ys n h = rw (
  write_u16-append xs ys n 0 sm.physical_start_address (omega arith),
  write_u16-append xs _ (n + 2) 2 sm.length (omega arith),
  set-append xs _ (n + 4) 4 (sm.control % 256) (omega arith),
  set-append xs _ (n + 5) 5 0 (omega arith),
  write_u16-append xs _ (n + 6) 6 sm.enable (omega arith),
)

fmmu_config-append :
    (sm : Sm) (xs ys : List ℕ) (n : ℕ)
    → n ≡ length xs
    → fmmu_config sm (xs ++ ys) n ≡ xs ++ fmmu_config sm ys 0
unfolding fmmu_config
fmmu_config-append sm xs ys n h = rw (
  write_u32-append xs ys n 0 sm.logical_start_address (omega arith),
  write_u16-append xs _ (n + 4) 4 sm.data_size (omega arith),
  set-append xs _ (n + 6) 6 0 (omega arith),
  set-append xs _ (n + 7) 7 7 (omega arith),
  write_u16-append xs _ (n + 8) 8 sm.physical_start_address (omega arith),
  set-append xs _ (n + 10) 10 0 (omega arith),
  set-append xs _ (n + 11) 11 (dir_byte sm.dir % 256) (omega arith),
  write_u16-append xs _ (n + 12) 12 1 (omega arith),
  write_u16-append xs _ (n + 14) 14 0 (omega arith),
)

-- A function writes the page `page`, of `size` bytes, over what stands there, and nothing else.
abbrev Writes : ℕ → (Sm → List ℕ) → (Sm → List ℕ → ℕ → List ℕ) → Type 0
Writes size page f =
    (sm : Sm) (xs old ys : List ℕ) (n : ℕ)
    → n ≡ length xs
    → length old ≡ size
    → (f sm (xs ++ (old ++ ys)) n ≡ xs ++ (page sm ++ ys)) × (length (page sm) ≡ size)

-- A list is the list of its elements.
abbrev tabulate : ℕ → (ℕ → ℕ) → List ℕ
tabulate zero f = []
tabulate (suc n) f = f 0 ∷ tabulate n (λ k. f (suc k))

tabulate-get_or : (n : ℕ) (xs : List ℕ) → length xs ≡ n → xs ≡ tabulate n (λ k. get_or xs k 0)
tabulate-get_or zero [] h = refl
tabulate-get_or zero (x ∷ xs) h = absurd (omega arith)
tabulate-get_or (suc n) [] h = absurd (omega arith)
tabulate-get_or (suc n) (x ∷ xs) h = ap (λ t. x ∷ t) (tabulate-get_or n xs (omega arith))

sm_config_start :
    (sm : Sm) (f : ℕ → ℕ) (ys : List ℕ) → sm_config sm (tabulate 8 f ++ ys) 0 ≡ sm_page sm ++ ys
unfolding sm_config
sm_config_start sm f ys = refl

sm_config-Writes : Writes 8 sm_page sm_config
sm_config-Writes sm xs old ys n h e = (
  sm_config-append sm xs (old ++ ys) n h
      ∙ ap (λ t. xs ++ sm_config sm (t ++ ys) 0) (tabulate-get_or 8 old e)
      ∙ ap (λ t. xs ++ t) (sm_config_start sm (λ k. get_or old k 0) ys),
  refl,
)

dir_byte-lt : (d : Direction) → dir_byte d % 256 ≡ dir_byte d
dir_byte-lt Direction.input = refl
dir_byte-lt Direction.output = refl

fmmu_config_start :
    (sm : Sm) (f : ℕ → ℕ) (ys : List ℕ)
    → fmmu_config sm (tabulate 16 f ++ ys) 0 ≡ fmmu_page sm ++ ys
unfolding fmmu_config
fmmu_config_start sm f ys =
    let a = sm.logical_start_address in
    let e : a / 65536 / 256 ≡ a / 16777216 = omega arith in rw (dir_byte-lt sm.dir, e)

fmmu_config-Writes : Writes 16 fmmu_page fmmu_config
fmmu_config-Writes sm xs old ys n h e = (
  fmmu_config-append sm xs (old ++ ys) n h
      ∙ ap (λ t. xs ++ fmmu_config sm (t ++ ys) 0) (tabulate-get_or 16 old e)
      ∙ ap (λ t. xs ++ t) (fmmu_config_start sm (λ k. get_or old k 0) ys),
  refl,
)

mul-zero : (a : ℕ) → a * 0 ≡ 0
mul-zero a = grind arith

mul_suc : (a n : ℕ) → a * suc n ≡ a * n + a
mul_suc a n = grind arith

parts :
    (xs old : List ℕ) (n : ℕ) (ys : List ℕ)
    → xs ++ (old ++ ys) ≡ xs ++ (take n old ++ (drop n old ++ ys))
parts xs old n ys =
    ap (λ t. xs ++ (t ++ ys)) (sym (take-append-drop n old))
    ∙ ap (λ t. xs ++ t) (append_assoc (take n old) (drop n old) ys)

put_pages-append :
    (size : ℕ) (page : Sm → List ℕ) (f : Sm → List ℕ → ℕ → List ℕ) (sms : ℕ → Sm) (first n i : ℕ)
    (xs old ys : List ℕ)
    → Writes size page f
    → length xs ≡ size * i
    → length old ≡ size * n
    → put_pages f size sms first n i (xs ++ (old ++ ys))
      ≡ xs ++ (pages page sms (first + i) n ++ ys)
unfolding put_pages
put_pages-append size page f sms first zero i xs [] ys ok hx ho = refl
put_pages-append size page f sms first zero i xs (o ∷ old) ys ok hx ho =
    absurd (omega (arith, ho, mul-zero size))
put_pages-append size page f sms first (suc n) i xs old ys ok hx ho =
    let sm = sms (first + i) in
    let o1 = take size old in
    let o2 = drop size old in
    let fits : size ≤ length old = omega (arith, ho, mul_suc size n) in
    let written =
      ok sm xs o1 (o2 ++ ys) (size * i) (sym hx) (omega (arith, length-take size old)) in
    let again =
      put_pages-append size page f sms first n (i + 1) (xs ++ page sm) o2 ys ok
        (omega (arith, length-append xs (page sm), written.1, mul_suc size i))
        (omega (arith, length-drop size old, mul_suc size n)) in
    ap (λ t. put_pages f size sms first n (i + 1) (f sm t (size * i))) (parts xs old size ys)
    ∙ ap (λ t. put_pages f size sms first n (i + 1) t)
        (written.0 ∙ sym (append_assoc xs (page sm) (o2 ++ ys)))
    ∙ again
    ∙ ap (λ (k : ℕ). xs ++ page sm ++ (pages page sms k n ++ ys)) (omega arith)
    ∙ append_assoc xs (page sm) (pages page sms (first + i + 1) n ++ ys)
    ∙ ap (λ t. xs ++ t) (sym (append_assoc (page sm) (pages page sms (first + i + 1) n) ys))

put_pages-pages :
    (size : ℕ) (page : Sm → List ℕ) (f : Sm → List ℕ → ℕ → List ℕ) (sms : ℕ → Sm) (first n : ℕ)
    (buf : List ℕ)
    → Writes size page f
    → size * n ≤ length buf
    → put_pages f size sms first n 0 buf ≡ pages page sms first n ++ drop (size * n) buf
put_pages-pages size page f sms first n buf ok fits =
    ap (λ t. put_pages f size sms first n 0 t) (sym (take-append-drop (size * n) buf))
    ∙ put_pages-append size page f sms first n 0 [] (take (size * n) buf) (drop (size * n) buf) ok
        (sym (mul-zero size)) (omega (arith, length-take (size * n) buf))
    ∙ ap (λ (k : ℕ). pages page sms k n ++ drop (size * n) buf) (omega arith)

-- In a buffer that has room for them, the loops of ec_slave_config over `n` sync managers from number
-- `first` on leave one page after the other, and behind the pages what was there: for the sync
-- managers start address, length, control, a status of 0 and the activation, for the FMMUs logical
-- address and length, bits 0 to 7, the physical address and bit 0, the direction and the activation,
-- each number low byte first and cut to its field.
pub put_pages_lem :
    (sms : ℕ → Sm) (first n : ℕ) (buf : List ℕ)
    → 16 * n ≤ length buf
    → (put_pages sm_config 8 sms first n 0 buf ≡ pages sm_page sms first n ++ drop (8 * n) buf)
      × (put_pages fmmu_config 16 sms first n 0 buf
          ≡ pages fmmu_page sms first n ++ drop (16 * n) buf)
put_pages_lem sms first n buf fits = (
  put_pages-pages 8 sm_page sm_config sms first n buf sm_config-Writes (omega arith),
  put_pages-pages 16 fmmu_page fmmu_config sms first n buf fmmu_config-Writes fits,
)
