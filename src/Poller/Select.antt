-- ===== src/Poller/Select.antt =====
-- The backend of src/SEDNL/Poller_select.cpp. A descriptor is `none` if it is negative, and a set of
-- descriptors is a function.
use sednl.Base.{
  ℕ, zero, suc, ◌+◌, ◌-◌, leb, ltb, Bool, true, false, Option, none, some, List, [], ◌∷◌,
  if◌then◌else◌,
}
use sednl.Listener.Attach.{update}

-- `Poller::Event`.
pub record Event : Type 0 where
  pub fd : ℕ
  pub is_close : Bool
  pub is_read : Bool

-- `m_nfds` is `none` for -1. `next` is `m_idx + 1`, since `m_idx` is -1 behind a wait.
pub record Poller : Type 0 where
  pub m_readfds : ℕ → Bool
  pub m_tmp_readfds : ℕ → Bool
  pub m_nfds : Option ℕ
  pub next : ℕ

abbrev pub fd_setsize : ℕ
fd_setsize = 1024

unfoldable pub make : Poller
make = record { m_readfds = λ _. false; m_tmp_readfds = λ _. false; m_nfds = none; next = 1 }

-- `m_nfds` after `if (m_nfds <= fd) m_nfds = fd + 1;`.
unfoldable pub grow : Option ℕ → ℕ → Option ℕ
grow none fd = some (fd + 1)
grow (some n) fd = if leb n fd then some (fd + 1) else some n

unfoldable pub add_fd : Option ℕ → Poller → Poller × Bool
unfolding grow
add_fd none p = (p, false)
add_fd (some fd) p =
    if leb fd_setsize fd
    then (p, false)
    else (record p { m_readfds = update p.m_readfds fd true; m_nfds = grow p.m_nfds fd }, true)

unfoldable pub remove_fd : Option ℕ → Poller → Poller
remove_fd none p = p
remove_fd (some fd) p =
    if leb fd_setsize fd then p else record p { m_readfds = update p.m_readfds fd false }

-- The bound of the loop of `next_event`: no index from 0 on is below -1.
unfoldable pub bound : Option ℕ → ℕ
bound none = 0
bound (some n) = n

-- `select` is the system's: it gets `m_nfds` and the set, and leaves the set of those that are ready.
unfoldable pub wait_for_events : (Option ℕ → (ℕ → Bool) → ℕ → Bool) → Poller → Poller
wait_for_events select p = record p { m_tmp_readfds = select p.m_nfds p.m_readfds; next = 0 }

-- `while (++m_idx < m_nfds)`, with so many indices left.
unfoldable pub scan : (ℕ → Bool) → ℕ → ℕ → Option ℕ
scan set zero i = none
scan set (suc n) i = let rest = scan set n (i + 1) in if set i then some i else rest

-- Whether there is an event, and which.
unfoldable pub next_event : Poller → Option Event × Poller
unfolding scan bound
next_event p =
    let nfds = bound p.m_nfds in
    if ltb fd_setsize p.next
    then (none, p)
    else (elim (scan p.m_tmp_readfds (nfds - p.next) p.next) [
      | some i ↦ (
        some (record { fd = i; is_close = false; is_read = p.m_tmp_readfds i }),
        record p { next = i + 1 },
      )
      | none ↦ (none, record p { next = if leb p.next nfds then nfds + 1 else p.next + 1 })
    ])

unfoldable pub follow : Option Event → Option (List Event) → Option (List Event)
follow none events = some []
follow (some e) none = none
follow (some e) (some events) = some (e ∷ events)

-- `while (m_poller->next_event(e))`: the events that the listener gets, in at most so many rounds.
unfoldable pub all_events : ℕ → Poller → Option (List Event)
unfolding next_event follow
all_events zero p = none
all_events (suc n) p = follow (next_event p).0 (all_events n (next_event p).1)

-- What the calls of `add_fd` and `remove_fd` leave.
pub data Call : Type 0 where
  add remove : Option ℕ → Call

unfoldable pub call_all : List Call → Poller → Poller
unfolding add_fd remove_fd
call_all [] p = p
call_all (add fd ∷ calls) p = call_all calls (add_fd fd p).0
call_all (remove fd ∷ calls) p = call_all calls (remove_fd fd p)
