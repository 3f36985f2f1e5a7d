-- ===== src/Master/Wire/Frames.antt =====
-- The frames that ec_master_send_datagrams of src/ec_master.c hands to a network device: their header,
-- datagrams and padding, and their size.
use cherry_ecat.Prelude.{
  ℕ, zero, suc, ◌+◌, ◌-◌, ◌%◌, ◌≤◌, ◌≡◌, ◌≢◌, refl, sym, ap, List, [], ◌∷◌, ◌++◌, Bool-cases, arith,
  inl, inr, length, length-append, length-replicate, replicate, bytes_u16, Ends, subst, some, false,
}
use cherry_ecat.Datagram.{Datagram}
use cherry_ecat.Master.{Master}
use cherry_ecat.Master.Frame.{Fill, fill_frame}
use cherry_ecat.Master.Send.{
  finish_frame, start_fill, send_frame, send_rounds, send_datagrams, is_empty,
}
use cherry_ecat.Master.Progress.{send_datagrams_total}
use cherry_ecat.Master.Wire.{length-encode, length-fill_frame}
use cherry_ecat.Master.Wire.Layout.{Item, word, item_bytes, wire, number, body-eq-wire}

-- The bytes of datagrams, each with its header of 10 bytes and its working counter of 2.
unfoldable pub total : List Item → ℕ
total [] = 0
total (x ∷ items) = 12 + x.0.data_size + total items

length-wire : (items : List Item) → length (wire items) ≡ total items
unfolding total
length-wire [] = refl
length-wire (x ∷ []) = omega (arith, length-encode x.0 x.1 (word x))
length-wire (x ∷ y ∷ r) = omega (
  arith,
  length-append (item_bytes x (word x + 32768)) (wire (y ∷ r)),
  length-encode x.0 x.1 (word x + 32768),
  length-wire (y ∷ r),
)

-- A frame of 46 to 1500 bytes: the header with the command type 1 and the bytes of the datagrams,
-- the datagrams, at least one, and zeros up to 46 bytes.
pub record IsFrame (frame : List ℕ) : Type 0 where
  pub items : List Item
  pub filled : items ≢ []
  pub fits : total items ≤ 1498
  pub bytes :
      frame ≡ bytes_u16 (total items + 4096) ++ (wire items ++ replicate (44 - total items) 0)
  pub size : (46 ≤ length frame) × (length frame ≤ 1500)

finish_frame-bytes :
    (items : List Item)
    → total items ≤ 1498
    → finish_frame (wire items)
      ≡ bytes_u16 (total items + 4096) ++ (wire items ++ replicate (44 - total items) 0)
unfolding finish_frame
finish_frame-bytes items h =
    let e : length (wire items) % 2048 ≡ total items = omega (arith, length-wire items) in
    let p : 46 - (2 + length (wire items)) ≡ 44 - total items = omega (arith, length-wire items) in
    rw (e, p) refl

frame_size :
    (items : List Item)
    → total items ≤ 1498
    → let frame =
        bytes_u16 (total items + 4096) ++ (wire items ++ replicate (44 - total items) 0) in
      (46 ≤ length frame) × (length frame ≤ 1500)
frame_size items h =
    let a = length-append (wire items) (replicate (44 - total items) 0) in
    let b = length-replicate {A = ℕ} (44 - total items) 0 in
    (omega (arith, a, b, length-wire items), omega (arith, a, b, length-wire items))

finish_frame-IsFrame :
    (items : List Item) → items ≢ [] → total items ≤ 1498 → IsFrame (finish_frame (wire items))
finish_frame-IsFrame items n h =
    subst IsFrame (sym (finish_frame-bytes items h))
      (record { items = items; filled = n; fits = h; bytes = refl; size = frame_size items h })

abbrev pub All {ℓ κ} : {A : Type ℓ} → (A → Type κ) → List A → Type κ
All P [] = Unit
All P (x ∷ xs) = P x × All P xs

All-append {ℓ κ} :
    {A : Type ℓ} (P : A → Type κ) (xs : List A) (y : A) → All P xs → P y → All P (xs ++ y ∷ [])
All-append P [] y h k = (k, tt)
All-append P (x ∷ xs) y h k = (h.0, All-append P xs y h.1 k)

abbrev pub FramesOk : Master → Type 0
FramesOk m = All (λ e. IsFrame e.1) m.frames

numbered :
    (cells : ℕ → Datagram) (i : ℕ) (ps : List ℕ) → is_empty ps ≡ false → number cells i ps ≢ []
numbered cells i [] e = absurd (ground arith)
numbered cells i (p ∷ ps) e = λ h. absurd (cc h)

-- A frame that is filled with a datagram at least.
fill-IsFrame :
    (n : ℕ) (m : Master)
    → is_empty (fill_frame n m.queue (start_fill m)).sent ≡ false
    → IsFrame (finish_frame (fill_frame n m.queue (start_fill m)).body)
fill-IsFrame n m e =
    let f = fill_frame n m.queue (start_fill m) in
    let items = number m.cells m.datagram_index f.sent in
    let b : f.body ≡ wire items = body-eq-wire n m in
    subst (λ body. IsFrame (finish_frame body)) (sym b)
      (finish_frame-IsFrame items (numbered m.cells m.datagram_index f.sent e) (
        omega (
          arith,
          ap length b,
          length-wire items,
          length-fill_frame n m.queue (start_fill m) (omega arith),
        )))

send_frame-FramesOk :
    (n : ℕ) (m : Master)
    → is_empty (fill_frame n m.queue (start_fill m)).sent ≡ false
    → FramesOk m
    → FramesOk (send_frame n m (fill_frame n m.queue (start_fill m)))
unfolding send_frame
send_frame-FramesOk n m e h =
    All-append (λ x. IsFrame x.1) m.frames
      (n, finish_frame (fill_frame n m.queue (start_fill m)).body) h (fill-IsFrame n m e)

send_rounds-FramesOk : (fuel n : ℕ) (m : Master) → FramesOk m → Ends FramesOk (send_rounds fuel n m)
unfolding send_rounds
send_rounds-FramesOk zero n m h = tt
send_rounds-FramesOk (suc fuel) n m h = elim (Bool-cases (is_empty f.sent)) [
  | inl e ↦ rw e h
  | inr e ↦ rw e (elim (Bool-cases f.more) [
    | inl g ↦ simp g (send_rounds-FramesOk fuel n (send_frame n m f) (send_frame-FramesOk n m e h))
    | inr g ↦ simp g (send_frame-FramesOk n m e h)
  ])
]
  where
    f : Fill
    f = fill_frame n m.queue (start_fill m)

-- If all frames that were handed to the network devices before are such, ec_master_send_datagrams
-- returns, and so are all that were handed to them after it: a frame has 46 to 1500 bytes. It is the
-- command type 1 with the number of bytes of its datagrams, each 12 bytes more than its data, then
-- its datagrams, one at least, each written once with its flag "datagram following", and zeros up to
-- 46 bytes, which are not counted.
pub send_datagrams-FramesOk :
    (n : ℕ) (m : Master) → FramesOk m → (m' : Master) × (send_datagrams n m ≡ some m') × FramesOk m'
send_datagrams-FramesOk n m h =
    let (m', e) = send_datagrams_total n m in
    (
      m',
      e,
      subst (Ends FramesOk) e
          (unfold send_datagrams in send_rounds-FramesOk (suc (length m.queue)) n m h),
    )
