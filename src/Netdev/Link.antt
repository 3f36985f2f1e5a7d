-- ===== src/Netdev/Link.antt =====
-- src/ec_netdev.c, ec_netdev_poll_link_state, and src/ec_master.c, the timer that calls it for every
-- device. What the PHY reports is an argument. The status that is kept for the comparison is one
-- variable for all devices.
pub mod Followed
use cherry_ecat.Prelude.{
  ℕ, zero, suc, List, [], ◌∷◌, Bool, true, false, not, Option, none, some, ◌&&◌, ◌==◌,
  if◌then◌else◌,
}

-- struct chry_phy_status
pub record PhyStatus : Type 0 where
  pub link : Bool
  pub duplex : Bool
  pub speed : ℕ

abbrev pub agree : Bool → Bool → Bool
agree true b = b
agree false b = not b

-- memcmp of two statuses.
unfoldable pub same : PhyStatus → PhyStatus → Bool
same a b = agree a.link b.link && (agree a.duplex b.duplex && a.speed == b.speed)

-- A call of the driver's ec_netdev_low_level_link_up.
pub record LinkUp : Type 0 where
  pub device : ℕ
  pub status : PhyStatus

-- The kept status, the link states of the devices polled, and the calls of the driver.
pub record Polled : Type 0 where
  pub current : PhyStatus
  pub link_states : List Bool
  pub calls : List LinkUp

-- ec_netdev_poll_link_state of the `i`-th device: the kept status, the link state, and the status that
-- the driver is given.
unfoldable pub poll_link_state :
    PhyStatus → PhyStatus → Bool → PhyStatus × (Bool × Option PhyStatus)
unfolding same
poll_link_state status current link_state =
    if same current status
    then (current, (link_state, none))
    else (status, (status.link, some status))

abbrev pub link_up : ℕ → Option PhyStatus → List LinkUp → List LinkUp
link_up i none calls = calls
link_up i (some s) calls = record { device = i; status = s } ∷ calls

-- The loop of ec_netdev_linkpoll_timer from the `i`-th device on, with what each PHY reports.
unfoldable pub linkpoll_timer : ℕ → List PhyStatus → PhyStatus → List Bool → Polled
unfolding poll_link_state
linkpoll_timer i [] current links = record { current = current; link_states = links; calls = [] }
linkpoll_timer i (s ∷ statuses) current [] = record {
  current = current;
  link_states = [];
  calls = [];
}
linkpoll_timer i (s ∷ statuses) current (l ∷ links) =
    let r = poll_link_state s current l in
    let rest = linkpoll_timer (suc i) statuses r.0 links in
    record {
      current = rest.current;
      link_states = r.1.0 ∷ rest.link_states;
      calls = link_up i r.1.1 rest.calls;
    }

-- The turns of the timer one after the other.
unfoldable pub turns : List (List PhyStatus) → PhyStatus → List Bool → PhyStatus × List Bool
unfolding linkpoll_timer
turns [] current links = (current, links)
turns (statuses ∷ later) current links =
    let r = linkpoll_timer 0 statuses current links in turns later r.current r.link_states
