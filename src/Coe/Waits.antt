-- ===== src/Coe/Waits.antt =====
-- The waits of src/ec_coe.c: a transfer of an object has an end where finitely many sleeps end.
use cherry_ecat.Prelude.{
  ℕ, zero, suc, ◌+◌, ◌-◌, ◌/◌, ◌%◌, ◌<◌, ◌≤◌, List, ◌++◌, Bool, false, not, arith, length,
  if◌then◌else◌, ltb, leb, ◌==◌, ◌&&◌, ◌||◌, sub_mod, u16_mod, u32_mod, read_u8, read_u16, read_u32,
  test_bit, take, drop, min, length-drop,
}
use cherry_ecat.Exchange.{Io, M, Errno, pure, ◌>>◌, fail_if}
use cherry_ecat.Exchange.Facts.{Post, Post-next, Post-then, Post-if, Post-if_with, Post-fail_if}
use cherry_ecat.Mailbox.Waits.{Post-fill_send, Post-send, receive-Post}
use cherry_ecat.Coe.{sent_subindex, coe_timeout_ns, bit}
use cherry_ecat.Coe.Reply.{service, command, exchange, check_download}
use cherry_ecat.Coe.Download.{
  download_expedited, download_common, download_segment, download_segments, reply_toggle, download,
}
use cherry_ecat.Coe.Upload.{
  request_segment, segment_size, upload_expedited, upload_segments, upload_normal, upload, bytes_at,
}

Post-exchange : (i n : ℕ) (w : Io) → Post 1 (length w.events) (exchange i n w)
unfolding exchange
Post-exchange i n w = Post-next 1 0 (length w.events) _ _ (Post-send i w) λ _ a h.
    Post-then 1 (length a.events) _ _ (receive-Post i coe_timeout_ns a) λ r b k.
      Post-then 0 (length b.events) _ _ (Post-fail_if (not (r.0 == 3)) Errno.coe_type b) λ _ c p.
        Post-then 0 (length c.events) _ _ (Post-fail_if (ltb r.1 n) Errno.coe_size c) λ _ d q.
          Post-then 0 (length d.events) _ _
            (Post-fail_if (service d.datagram.buf == 2 && command d.datagram.buf == 4)
              Errno.coe_abort d)
            λ _ e t. omega arith

Post-check_download :
    (index subindex : ℕ) (buf : List ℕ) (w : Io)
    → Post 0 (length w.events) (check_download index subindex buf w)
unfolding check_download
Post-check_download index subindex buf w = Post-fail_if _ Errno.coe_request w

Post-download_expedited :
    (i index subindex : ℕ) (buf : List ℕ) (c : Bool) (w : Io)
    → Post 0 (length w.events) (download_expedited i index subindex buf c w)
unfolding download_expedited
Post-download_expedited i index subindex buf c w =
    Post-then 0 (length w.events) _ _ (Post-fill_send i 3 10 w) λ _ a h.
      Post-then 1 (length a.events) _ _ (Post-exchange i 6 _)
        λ r b k. Post-check_download index subindex r.1 b

Post-download_common :
    (i index subindex : ℕ) (buf : List ℕ) (c : Bool) (w : Io)
    → Post 0 (length w.events) (download_common i index subindex buf c w)
unfolding download_common
Post-download_common i index subindex buf c w =
    Post-then 0 (length w.events) _ _ (Post-fill_send i 3 ((length buf + 10) % u16_mod) w) λ _ a h.
      Post-then 1 (length a.events) _ _ (Post-exchange i 6 _)
        λ r b k. Post-check_download index subindex r.1 b

Post-download_segment :
    (i : ℕ) (seg : List ℕ) (toggle last : Bool) (w : Io)
    → Post 0 (length w.events) (download_segment i seg toggle last w)
unfolding download_segment
Post-download_segment i seg toggle last w =
    Post-then 0 (length w.events) _ _ (Post-fill_send i 3 _ w) λ _ a h.
      Post-then 1 (length a.events) _ _ (Post-exchange i 6 _) λ r b k.
        Post-then 0 (length b.events) _ _
          (Post-fail_if (not (service r.1 == 3)) Errno.coe_request b)
          λ _ c p.
            Post-then 0 (length c.events) _ _
              (Post-fail_if (not (command r.1 == 1)) Errno.coe_request c)
              λ _ d q. Post-fail_if (not (reply_toggle r.1 == bit toggle)) Errno.coe_toggle d

Post-download_segments :
    (fuel i max : ℕ) (buf : List ℕ) (toggle : Bool) (w : Io)
    → 0 < length buf
    → length buf ≤ fuel
    → 0 < max
    → Post 0 (length w.events) (download_segments fuel i max buf toggle w)
unfolding download_segments
Post-download_segments zero i max buf toggle w h k p = absurd (omega arith)
Post-download_segments (suc fuel) i max buf toggle w h k p =
    Post-then 0 (length w.events) _ _
      (Post-download_segment i (take (min (length buf) max) buf) toggle (leb (length buf) max) w)
      λ _ a q.
        Post-if_with (length buf - min (length buf) max == 0) 0 (length a.events) (pure tt)
          (download_segments fuel i max (drop (min (length buf) max) buf) (not toggle)) a
          (λ _. omega arith)
          (λ e.
            Post-download_segments fuel i max (drop (min (length buf) max) buf) (not toggle) a
              (ground (arith, length-drop (min (length buf) max) buf))
              (ground (arith, length-drop (min (length buf) max) buf)) p)

-- The bytes that the first request of a segmented download takes.
abbrev limit : ℕ → Io → ℕ
limit i w = sub_mod u32_mod (sub_mod u32_mod (w.slaves i).configured_rx_mailbox_size 6) 10

-- The third case of ec_coe_download.
abbrev segmented : ℕ → ℕ → ℕ → List ℕ → Bool → Io → M (Unit {0})
segmented i index subindex buf c w = do
  download_common i index subindex (take (limit i w) buf) c
  download_segments (length buf) i (limit i w + 7) (drop (limit i w) buf) false

-- A download has an end where finitely many sleeps end: it returns, or it sleeps on a datagram that no event comes for
-- any more.
pub download-Post :
    (i index subindex : ℕ) (buf : List ℕ) (c : Bool) (w : Io)
    → Post 0 (length w.events) (download i index subindex buf c w)
unfolding download
download-Post i index subindex buf c w =
    Post-then 0 (length w.events) _ _ (Post-fail_if (leb w.slave_count i) Errno.inval w) λ _ a h.
      Post-if (leb (length buf) 4) 0 (length a.events) (download_expedited i index subindex buf c)
        (if leb (length buf) (limit i w)
          then download_common i index subindex buf c
          else segmented i index subindex buf c w)
        a (Post-download_expedited i index subindex buf c a)
        (Post-if_with (leb (length buf) (limit i w)) 0 (length a.events)
          (download_common i index subindex buf c) (segmented i index subindex buf c w) a
          (λ _. Post-download_common i index subindex buf c a)
          (λ e.
            Post-then 0 (length a.events) _ _
              (Post-download_common i index subindex (take (limit i w) buf) c a)
              λ _ b k.
                Post-download_segments (length buf) i (limit i w + 7) (drop (limit i w) buf) false b
                  (ground (arith, length-drop (limit i w) buf))
                  (ground (arith, length-drop (limit i w) buf)) (omega arith)))

-- The number of bytes in an expedited answer.
abbrev expedited_size : List ℕ → ℕ
expedited_size buf = if test_bit (read_u8 buf 8) 0 then 4 - read_u8 buf 8 / 4 % 4 else 4

Post-upload_expedited :
    (max size : ℕ) (buf : List ℕ) (w : Io)
    → Post 0 (length w.events) (upload_expedited max size buf w)
unfolding upload_expedited
Post-upload_expedited max size buf w =
    Post-then 0 (length w.events) _ _
      (Post-fail_if (ltb size (expedited_size buf + 6)) Errno.coe_size w)
      λ _ a h.
        Post-then 0 (length a.events) _ _
          (Post-fail_if (ltb max (expedited_size buf)) Errno.coe_size
            (record a { written = a.written ++ bytes_at buf 12 (expedited_size buf) }))
          λ _ b k. omega arith

Post-request_segment :
    (i : ℕ) (t : Bool) (w : Io) → Post 0 (length w.events) (request_segment i t w)
unfolding request_segment
Post-request_segment i t w =
    Post-then 0 (length w.events) _ _ (Post-fill_send i 3 10 w) λ _ a h. omega arith

Post-upload_segments :
    (fuel i total offset : ℕ) (t : Bool) (w : Io)
    → length w.events < fuel
    → Post 0 (length w.events) (upload_segments fuel i total offset t w)
unfolding upload_segments
Post-upload_segments zero i total offset t w h = absurd (omega arith)
Post-upload_segments (suc fuel) i total offset t w h =
    Post-then 0 (length w.events) _ _ (Post-request_segment i t w) λ _ a p.
      Post-then 1 (length a.events) _ _ (Post-exchange i 10 a) λ r b q.
        Post-then 0 (length b.events) _ _
          (Post-fail_if (not (service r.1 == 3) || not (command r.1 == 0)) Errno.coe_request b)
          λ _ d k.
            Post-then 0 (length d.events) _ _
              (Post-fail_if (ltb total ((offset + segment_size r.0 r.1) % u32_mod)) Errno.coe_size
                d)
              λ _ e k'.
                Post-if (test_bit (read_u8 r.1 8) 0) 0 (length e.events)
                  (fail_if (not ((offset + segment_size r.0 r.1) % u32_mod == total)) Errno.coe_size
                    >> pure total)
                  (upload_segments fuel i total ((offset + segment_size r.0 r.1) % u32_mod) (not t))
                  (record e { written = e.written ++ bytes_at r.1 9 (segment_size r.0 r.1) })
                  (Post-then 0 (length e.events) _ _
                    (Post-fail_if (not ((offset + segment_size r.0 r.1) % u32_mod == total))
                      Errno.coe_size _)
                    λ _ f l. omega arith)
                  (Post-upload_segments fuel i total ((offset + segment_size r.0 r.1) % u32_mod)
                    (not t) _ (omega arith))

Post-upload_normal :
    (i max size : ℕ) (buf : List ℕ) (w : Io)
    → Post 0 (length w.events) (upload_normal i max size buf w)
unfolding upload_normal
Post-upload_normal i max size buf w =
    Post-then 0 (length w.events) _ _ (Post-fail_if (ltb size 10) Errno.coe_size w) λ _ a h.
      Post-then 0 (length a.events) _ _ (Post-fail_if (ltb max (read_u32 buf 12)) Errno.coe_size a)
        λ _ b k.
          Post-if (ltb (size - 10) (read_u32 buf 12)) 0 (length b.events)
            (upload_segments (suc (length b.events)) i (read_u32 buf 12) (size - 10) false)
            (pure (read_u32 buf 12))
            (record b { written = b.written ++ bytes_at buf 16 (size - 10) })
            (Post-upload_segments (suc (length b.events)) i (read_u32 buf 12) (size - 10) false _
              (omega arith))
            (omega arith)

-- An upload has an end where finitely many sleeps end, whatever sizes and toggles the slave answers with: it returns, or
-- it sleeps on a datagram that no event comes for any more.
pub upload-Post :
    (i index subindex max : ℕ) (c : Bool) (w : Io)
    → Post 0 (length w.events) (upload i index subindex max c w)
unfolding upload
upload-Post i index subindex max c w =
    Post-then 0 (length w.events) _ _ (Post-fill_send i 3 10 w) λ _ a h.
      Post-then 1 (length a.events) _ _ (Post-exchange i 6 _) λ r b k.
        Post-then 0 (length b.events) _ _
          (Post-fail_if (not (service r.1 == 3) || not (command r.1 == 2)) Errno.coe_request b)
          λ _ d p.
            Post-then 0 (length d.events) _ _
              (Post-fail_if
                (not (read_u16 r.1 9 == index) || not (read_u8 r.1 11 == sent_subindex c subindex))
                Errno.coe_request d)
              λ _ e q.
                Post-if (test_bit (read_u8 r.1 8) 1) 0 (length e.events)
                  (upload_expedited max r.0 r.1) (upload_normal i max r.0 r.1) e
                  (Post-upload_expedited max r.0 r.1 e) (Post-upload_normal i max r.0 r.1 e)
