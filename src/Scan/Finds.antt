-- ===== src/Scan/Finds.antt =====
-- src/ec_slave.c, ec_slaves_scanning: a scan anew has an end where finitely many sleeps
-- end, and its slaves have the addresses that were given out.
use cherry_ecat.Prelude.{
  ℕ, ◌+◌, ◌≡◌, ◌≢◌, refl, ap₂, List, [], ◌∷◌, map, Bool, true, false, not, Option, none, some, ◌==◌,
  leb, length, arith, if◌then◌else◌, Ends,
}
use cherry_ecat.Datagram.{Datagram}
use cherry_ecat.Datagram.Fill.{bwr, fprd}
use cherry_ecat.Exchange.{Io, M, Errno, pure, fail_if, ◌>>◌}
use cherry_ecat.Exchange.Facts.{
  Post, Post-then, Post-if, Post-drop, Post-fail_if, Post-assert, Post-queue_ext_datagram, Gives,
  Gives-any, Gives-next, Gives-fail_if, Gives-map,
}
use cherry_ecat.Slave.Config.Waits.{slave_config-Post}
use cherry_ecat.Slave.Content.{Content, parse_image}
use cherry_ecat.Slave.Config.Stages.{slave_config}
use cherry_ecat.Scan.{Station, stations, total, poll}
use cherry_ecat.Scan.Probe.{Info, clear_devices, read_clock, set_address, base_info, identify}
use cherry_ecat.Scan.Image.{Identity, identity, read_image}
use cherry_ecat.Scan.Sized.{Post-read_image}
use cherry_ecat.Scan.Rescan.{
  Found, setup_of, no_content, configure, scan_slave, and_rest, scan_slaves, put_slaves, rescan,
}

pub Post-poll : (n : ℕ) (f : Datagram → Datagram) (w : Io) → Post 0 (length w.events) (poll n f w)
unfolding poll
Post-poll n f w = Post-drop 1 (length w.events) _ (Post-queue_ext_datagram true _)

Post-clear_devices :
    (cs : List ℕ) (d : ℕ) (w : Io) → Post 0 (length w.events) (clear_devices cs d w)
unfolding clear_devices
Post-clear_devices [] d w = omega arith
Post-clear_devices (n ∷ cs) d w =
    Post-if (n == 0) 0 (length w.events) (clear_devices cs (d + 1))
      (poll d (λ x. bwr x 0x10 2) >> (poll d (λ x. bwr x 0x900 4) >> clear_devices cs (d + 1))) w
      (Post-clear_devices cs (d + 1) w)
      (Post-then 0 (length w.events) _ _ (Post-poll d (λ x. bwr x 0x10 2) w) λ _ a h.
        Post-then 0 (length a.events) _ _ (Post-poll d (λ x. bwr x 0x900 4) a)
          λ _ b k. Post-clear_devices cs (d + 1) b)

Post-read_clock :
    (stray : ℕ) (s : Station) (info : Info) (w : Io)
    → Post 0 (length w.events) (read_clock stray s info w)
unfolding read_clock
Post-read_clock stray s info w =
    Post-then 0 (length w.events) _ _
      (Post-poll s.netdev_idx
        (λ d. fprd d s.station_address 0x910 (if info.base_dc_64 then 8 else 4)) w)
      λ _ a h.
        Post-then 0 (length a.events) _ _
          (Post-poll s.netdev_idx (λ d. fprd d s.station_address 0x900 16) a)
          λ _ b k.
            Post-then 0 (length b.events) _ _
              (Post-poll s.netdev_idx (λ d. fprd d s.station_address 0x918 8) b)
              λ _ c p. omega arith

Post-set_address : (s : Station) (w : Io) → Post 0 (length w.events) (set_address s w)
unfolding set_address
Post-set_address s w =
    Post-then 1 (length w.events) _ _ (Post-queue_ext_datagram true _)
      λ _ a h. Post-poll s.netdev_idx (λ d. fprd d s.station_address 0x130 2) a

Post-identify : (stray : ℕ) (s : Station) (w : Io) → Post 0 (length w.events) (identify stray s w)
unfolding identify
Post-identify stray s w = Post-then 0 (length w.events) _ _ (Post-set_address s w) λ _ a h.
    Post-then 0 (length a.events) _ _
      (Post-poll s.netdev_idx (λ d. fprd d s.station_address 0x0 12) a)
      λ _ b k.
        let info = base_info b.datagram.buf in
        Post-then 0 (length b.events) _ _ (Post-assert (leb info.base_fmmu_count 16) b) λ _ c p.
          Post-then 0 (length c.events) _ _ (Post-assert (leb info.base_sync_count 16) c) λ _ d q.
            Post-then 0 (length d.events) _ _
              (Post-if info.base_dc_supported 0 (length d.events) (read_clock stray s info)
                (pure info) d (Post-read_clock stray s info d) (omega arith))
              λ timed e r.
                Post-then 0 (length e.events) _ _
                  (Post-poll s.netdev_idx (λ d. fprd d s.station_address 0x110 2) e)
                  λ _ f t. omega arith

Post-configure :
    (s : Station) (info : Info) (n : ℕ) (id : Identity) (o : Option (Bool × Content)) (w : Io)
    → Post 0 (length w.events) (configure s info n id o w)
unfolding configure
Post-configure s info n id none w = omega arith
Post-configure s info n id (some (false, c)) w = tt
Post-configure s info n id (some (true, c)) w =
    Post-then 0 (length w.events) _ _ (slave_config-Post s.index (setup_of info id c) w)
      λ _ a h. omega arith

Post-scan_slave :
    (stray : ℕ) (alloc : ℕ → Bool) (s : Station) (w : Io)
    → Post 0 (length w.events) (scan_slave stray alloc s w)
unfolding scan_slave
Post-scan_slave stray alloc s w =
    Post-then 0 (length w.events) _ _ (Post-identify stray s w) λ info a h.
      Post-then 0 (length a.events) _ _ (Post-read_image (alloc 0) s.index a)
        λ r b k. Post-configure s info r.0 (identity r.1) (parse_image alloc r.1 no_content) b

Post-and_rest :
    (m : M (Option (List Found))) (o : Option Found) (w : Io)
    → ((v : Io) → Post 0 (length v.events) (m v))
    → Post 0 (length w.events) (and_rest m o w)
Post-and_rest m none w h = omega arith
Post-and_rest m (some f) w h = Post-then 0 (length w.events) (m w) _ (h w) λ _ a k. omega arith

Post-scan_slaves :
    (stray : ℕ) (alloc : ℕ → ℕ → Bool) (ss : List Station) (w : Io)
    → Post 0 (length w.events) (scan_slaves stray alloc ss w)
unfolding scan_slaves
Post-scan_slaves stray alloc [] w = omega arith
Post-scan_slaves stray alloc (s ∷ ss) w =
    Post-then 0 (length w.events) _ _ (Post-scan_slave stray (alloc s.index) s w)
      λ o a h. Post-and_rest (scan_slaves stray alloc ss) o a (Post-scan_slaves stray alloc ss)

pub Post-rescan :
    (stray : ℕ) (b : Bool) (alloc : ℕ → ℕ → Bool) (cs : List ℕ) (w : Io)
    → Post 0 (length w.events) (rescan stray b alloc cs w)
unfolding rescan put_slaves
Post-rescan stray b alloc cs w =
    Post-then 0 (length w.events) _ _ (Post-fail_if (total cs == 0) Errno.unknown w) λ _ a h.
      Post-then 0 (length a.events) _ _ (Post-fail_if (not b) Errno.nomem a) λ _ c k.
        Post-then 0 (length c.events) _ _ (Post-clear_devices cs 0 _)
          λ _ d p. Post-scan_slaves stray alloc (stations cs 0 0) d

-- The slaves that are found are those with an address, in their order.
unfoldable pub Lists : List Station → Option (List Found) → Io → Type 0
Lists ss o w = Ends (λ fs. map (λ f. f.station) fs ≡ ss) o

Finds : Station → Option Found → Io → Type 0
Finds s o w = Ends (λ f. f.station ≡ s) o

configure-Finds :
    (s : Station) (info : Info) (n : ℕ) (id : Identity) (o : Option (Bool × Content)) (w : Io)
    → Gives (Finds s) (configure s info n id o w)
unfolding configure Finds
configure-Finds s info n id none w = tt
configure-Finds s info n id (some (false, c)) w = tt
configure-Finds s info n id (some (true, c)) w =
    Gives-next (λ _ _. Unit) (Finds s) (slave_config s.index (setup_of info id c) w) _
      (Gives-any (slave_config s.index (setup_of info id c) w)) λ _ a _. refl

scan_slave-Finds :
    (stray : ℕ) (alloc : ℕ → Bool) (s : Station) (w : Io)
    → Gives (Finds s) (scan_slave stray alloc s w)
unfolding scan_slave
scan_slave-Finds stray alloc s w =
    Gives-next (λ _ _. Unit) (Finds s) (identify stray s w) _ (Gives-any (identify stray s w))
      λ info a _.
        Gives-next (λ _ _. Unit) (Finds s) (read_image (alloc 0) s.index a) _
          (Gives-any (read_image (alloc 0) s.index a))
          λ r b _. configure-Finds s info r.0 (identity r.1) (parse_image alloc r.1 no_content) b

cons-Lists :
    (s : Station) (ss : List Station) (f : Found) (o : Option (List Found))
    → f.station ≡ s
    → Ends (λ fs. map (λ f. f.station) fs ≡ ss) o
    → Ends
        (λ fs. map (λ f. f.station) fs ≡ s ∷ ss)
        (elim o [ none ↦ none | some fs ↦ some (f ∷ fs) ])
cons-Lists s ss f none e h = tt
cons-Lists s ss f (some fs) e h = ap₂ (λ x xs. x ∷ xs) e h

and_rest-Lists :
    (m : M (Option (List Found))) (s : Station) (ss : List Station) (o : Option Found) (w : Io)
    → Finds s o w
    → ((v : Io) → Gives (Lists ss) (m v))
    → Gives (Lists (s ∷ ss)) (and_rest m o w)
unfolding Finds Lists
and_rest-Lists m s ss none w e h = tt
and_rest-Lists m s ss (some f) w e h =
    Gives-next (Lists ss) (Lists (s ∷ ss)) (m w) _ (h w) λ o a k. cons-Lists s ss f o e k

scan_slaves-Lists :
    (stray : ℕ) (alloc : ℕ → ℕ → Bool) (ss : List Station) (w : Io)
    → Gives (Lists ss) (scan_slaves stray alloc ss w)
unfolding scan_slaves Lists
scan_slaves-Lists stray alloc [] w = refl
scan_slaves-Lists stray alloc (s ∷ ss) w =
    Gives-next (Finds s) (Lists (s ∷ ss)) (scan_slave stray (alloc s.index) s w) _
      (scan_slave-Finds stray (alloc s.index) s w)
      λ o a e.
        and_rest-Lists (scan_slaves stray alloc ss) s ss o a e (scan_slaves-Lists stray alloc ss)

-- What a scan anew finds: every station, and at least one.
unfoldable pub FindsAll : List ℕ → Option (List Found) → Io → Type 0
unfolding Lists
FindsAll cs o w = Lists (stations cs 0 0) o w × (total cs ≢ 0)

-- A scan anew that succeeds, without reading behind an image, has found the slaves that its working
-- counters promise, in the order of their addresses, and at least one.
pub rescan-Lists :
    (stray : ℕ) (b : Bool) (alloc : ℕ → ℕ → Bool) (cs : List ℕ) (w : Io)
    → Gives (FindsAll cs) (rescan stray b alloc cs w)
unfolding rescan put_slaves FindsAll
rescan-Lists stray b alloc cs w =
    Gives-next (λ _ w'. ((total cs == 0) ≡ false) × (w' ≡ w)) (FindsAll cs)
      (fail_if (total cs == 0) Errno.unknown w) _ (Gives-fail_if (total cs == 0) Errno.unknown w)
      λ _ a z.
        Gives-next (λ _ _. Unit) (FindsAll cs) (fail_if (not b) Errno.nomem a) _
          (Gives-any (fail_if (not b) Errno.nomem a))
          λ _ c _.
            Gives-next (λ _ _. Unit) (FindsAll cs) (clear_devices cs 0 _) _
              (Gives-any (clear_devices cs 0 _))
              λ _ d _.
                Gives-map (Lists (stations cs 0 0)) (FindsAll cs)
                  (scan_slaves stray alloc (stations cs 0 0) d)
                  (scan_slaves-Lists stray alloc (stations cs 0 0) d)
                  λ o e l. (l, λ q. ground arith)
