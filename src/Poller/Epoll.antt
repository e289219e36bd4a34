-- ===== src/Poller/Epoll.antt =====
-- The backend of src/SEDNL/Poller_epoll.cpp. A descriptor is `none` if it is negative. The system's
-- `epoll_create`, `epoll_ctl` and `epoll_wait` are parameters.
use sednl.Base.{
  ℕ, zero, suc, ◌+◌, leb, Bool, false, ◌||◌, Option, none, some, List, [], length, get_elem?,
  if◌then◌else◌,
}
use sednl.Exceptions.{EventExceptionT, poller_create_failed, M, ok, thrown}
use sednl.Poller.Select.{Event, follow}

-- `struct epoll_event` as `epoll_wait` fills it: the descriptor, and the flags that the source reads.
pub record EpollEvent : Type 0 where
  pub fd : ℕ
  pub epollin : Bool
  pub epollerr : Bool
  pub epollhup : Bool
  pub epollrdhup : Bool

-- `m_events` is what the last `epoll_wait` has filled.
pub record Poller : Type 0 where
  pub m_epoll : Option ℕ
  pub m_events : List EpollEvent
  pub m_nb_events : ℕ
  pub m_idx : ℕ

-- The constructor, by what `epoll_create` gives.
unfoldable pub create : Option ℕ → M EventExceptionT (Unit {0}) Poller
create none s = thrown poller_create_failed s
create (some epoll) s =
    ok (record { m_epoll = some epoll; m_events = []; m_nb_events = 0; m_idx = 0 }) s

-- `add_fd`, by whether `epoll_ctl` adds the descriptor to that instance.
unfoldable pub add_fd : (ℕ → ℕ → Bool) → ℕ → Poller → Bool
add_fd epoll_ctl fd p = elim p.m_epoll [ none ↦ false | some epoll ↦ epoll_ctl epoll fd ]

-- `epoll_wait` gives the events that are ready, or an error. The source then has the count -1, with
-- which `next_event` does the same as with 0.
unfoldable pub wait_for_events : (Option ℕ → Option (List EpollEvent)) → Poller → Poller
wait_for_events epoll_wait p = elim (epoll_wait p.m_epoll) [
  | none ↦ record p { m_nb_events = 0; m_idx = 0 }
  | some list ↦ record p { m_events = list; m_nb_events = length list; m_idx = 0 }
]

-- What `next_event` makes of an entry.
unfoldable pub event_of : EpollEvent → Event
event_of e = record {
  fd = e.fd;
  is_close = e.epollerr || e.epollhup || e.epollrdhup;
  is_read = e.epollin;
}

-- Whether there is an event, and which.
unfoldable pub next_event : Poller → Option Event × Poller
unfolding event_of
next_event p =
    if leb p.m_nb_events p.m_idx then (none, p) else (elim (get_elem? p.m_events p.m_idx) [
      | none ↦ (none, p)
      | some e ↦ (some (event_of e), record p { m_idx = p.m_idx + 1 })
    ])

-- `while (m_poller->next_event(e))`: the events that the listener gets, in at most so many rounds.
unfoldable pub all_events : ℕ → Poller → Option (List Event)
unfolding next_event follow
all_events zero p = none
all_events (suc n) p = follow (next_event p).0 (all_events n (next_event p).1)
