-- ===== src/Examples/OfSockets.antt =====
-- A server and a client that try two addresses.
use sednl.Base.{ℕ, ◌≡◌, refl, true, false, some, none, List, [], ◌∷◌}
use sednl.Sockets.Connect.{Socket, Candidate, Attempt, in_progress, refused, ready}
use sednl.Listener.Accept.{Servers}
use sednl.Sockets.Locks.{Server, disconnect, safe_disconnect}
use sednl.Sockets.Relock.{Released, disconnect-relocks}

abbrev unused : Socket
unused = record { m_connected = false; m_fd = none; opened = []; closed = [] }

-- The second socket can be bound, but does not listen.
abbrev addresses : ℕ → List Candidate
addresses p = (some 3, false) ∷ (some 4, true) ∷ []

-- The second connection succeeds after a while.
abbrev attempts : ℕ → List Attempt
attempts p =
    record {
      socket = some 3;
      set_non_blocking = true;
      connect_result = refused;
      select_result = ready;
      so_error = none;
    }
    ∷ record {
      socket = some 4;
      set_non_blocking = true;
      connect_result = in_progress;
      select_result = ready;
      so_error = some 0;
    }
    ∷ []

-- Server 1 stands in a listener and is connected with descriptor 7.
abbrev listener : Servers
listener = record {
  m_servers = 1 ∷ [];
  m_fd = λ _. some 7;
  m_max_queue_size = 4;
  m_server_disconnected_queue = [];
  m_on_server_disconnect_link = true;
  wake_up = false;
  closed = [];
  m_poller = true;
  removed = [];
}

abbrev listened : Server
listened = record {
  this = 1;
  socket = record { m_connected = true; m_fd = some 7; opened = 7 ∷ []; closed = [] };
  m_listener = some listener;
  locked = false;
}

disconnect-relocks_example :
    ((l : Servers) → listened.m_listener ≡ some l → disconnect listened ≡ none)
    × (listened.m_listener ≡ none
        → (t : Server) × (disconnect listened ≡ some (tt, t)) × Released listened t)
    × ((t : Server) × (safe_disconnect listened ≡ some (tt, t)) × Released listened t)
disconnect-relocks_example = disconnect-relocks listened refl
