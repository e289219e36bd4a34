-- ===== src/Examples/OfPoller.antt =====
-- The `select` backend, and the acceptance of connections.
use sednl.Base.{ℕ, ◌≡◌, refl, true, Bool, Option, some, List, [], ◌∷◌, suc, All}
use sednl.Poller.Select.{
  make, bound, wait_for_events, all_events, Call, add, remove, call_all, fd_setsize,
}
use sednl.Poller.SelectScan.{members, read_events}
use sednl.Poller.SelectEvents.{all_events-wait}
use sednl.Listener.Connections.{get_connection, disconnect, find_external, find_internal}
use sednl.Listener.Attach.{contains}
use sednl.Listener.Accept.{
  Accepting, Accepted, accepts, aborted, accept_connections, create_connection,
}
use sednl.Listener.Accepted.{accept_connections-get_connection, accept_connections-disconnect}
use sednl.Examples.OfReading.{listening, accepted}

-- Of the descriptors 5, 7 and 9, the last is removed; `select` reports all that it is given.
abbrev calls : List Call
calls = add (some 7) ∷ add (some 5) ∷ add (some 9) ∷ remove (some 9) ∷ []

abbrev all_ready : Option ℕ → (ℕ → Bool) → ℕ → Bool
all_ready nfds set = set

all_events-wait_example :
    all_events
      (suc (bound (call_all calls make).m_nfds))
      (wait_for_events all_ready (call_all calls make))
    ≡ some (read_events (members (call_all calls make).m_readfds fd_setsize 0))
all_events-wait_example = all_events-wait all_ready calls (λ nfds set fd h. h)

-- The listener has accepted connection 2, with descriptor 12.
abbrev accepting : Accepting
accepting = record {
  connections = accepted;
  m_buffer = listening.m_buffer;
  m_on_connect_slot = some 200;
  added = [];
  connected = [];
}

abbrev two : List Accepted
two =
    record { cfd = 13; non_blocking = true; polled = true; address = 3 }
    ∷ record { cfd = 14; non_blocking = true; polled = true; address = 4 }
    ∷ []

accept_connections-get_connection_example :
    (t : Accepting) × (accept_connections 4095 two accepting ≡ accepts t)
    × All (λ a. get_connection a.cfd t.connections ≡ some a.address) two
unfolding find_external find_internal contains create_connection
accept_connections-get_connection_example =
    accept_connections-get_connection 4095 two accepting
      (refl, refl, refl, refl, refl, (refl, refl, refl, refl, refl, tt))

-- Connection 1 is attached, too.
abbrev mixed : Accepting
mixed = record accepting { connections = record accepted { m_connections = 1 ∷ [] } }

accept_connections-disconnect_example :
    accept_connections 4095
      (record { cfd = 12; non_blocking = true; polled = true; address = 5 } ∷ [])
      (record mixed { connections = disconnect 2 mixed.connections })
    ≡ aborted
unfolding contains find_internal
accept_connections-disconnect_example =
    accept_connections-disconnect 4095
      (record { cfd = 12; non_blocking = true; polled = true; address = 5 }) [] mixed 2 1 [] refl
      refl refl refl refl
