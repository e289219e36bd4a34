-- ===== src/Listener/Accept.antt =====
-- `accept_connections` and `close_server`: what a listener does for its servers.
use sednl.Base.{
  ℕ, ltb, Bool, true, false, Option, none, some, List, [], ◌∷◌, ◌++◌, if◌then◌else◌, not,
}
use sednl.RingBuf.Buffer.{RingBuf, make}
use sednl.Listener.Queue.{SafeQueue, push_event}
use sednl.Listener.Attach.{update, points_to}
use sednl.Listener.Connections.{Connections, find_internal}
use sednl.Consumer.Slots.{Slot}

-- What `accept_connections` changes. `added` are the descriptors that `Poller::add_fd` took, and
-- `connected` the calls of the callback in `m_on_connect_slot`, by the connections they got.
pub record Accepting : Type 0 where
  pub connections : Connections
  pub m_buffer : ℕ → RingBuf
  pub m_on_connect_slot : Slot
  pub added : List ℕ
  pub connected : List ℕ

-- A descriptor that `accept` gives, whether `set_non_blocking` and `add_fd` succeed for it, and where
-- `new Connection` puts its connection.
pub record Accepted : Type 0 where
  pub cfd : ℕ
  pub non_blocking : Bool
  pub polled : Bool
  pub address : ℕ

-- `m_internal_connections.emplace(cfd, cn)` for a key that is not there, in the order of the keys.
unfoldable pub emplace : List (ℕ × ℕ) → ℕ → ℕ → List (ℕ × ℕ)
emplace [] cfd cn = (cfd, cn) ∷ []
emplace ((k, c) ∷ list) cfd cn =
    let rest = emplace list cfd cn in if ltb cfd k then (cfd, cn) ∷ (k, c) ∷ list else (k, c) ∷ rest

-- `close(cfd)`.
unfoldable pub close_fd : ℕ → Accepting → Accepting
close_fd cfd s = record s {
  connections = record s.connections { closed = s.connections.closed ++ (some cfd ∷ []) };
}

unfoldable pub call_on_connect : ℕ → Accepting → Accepting
call_on_connect cn s = elim s.m_on_connect_slot [
  | none ↦ s
  | some f ↦ record s { connected = s.connected ++ (cn ∷ []) }
]

-- The new connection, which is in the listener's map from here on. `size` is the constant
-- `CONNECTION_BUFFER_SIZE - 1`.
unfoldable pub create_connection : ℕ → ℕ → ℕ → Accepting → Accepting
unfolding emplace make call_on_connect
create_connection size cfd cn s =
    let c = s.connections in
    call_on_connect cn (record s {
      connections = record c {
        m_internal_connections = emplace c.m_internal_connections cfd cn;
        m_fd = update c.m_fd cn (some cfd);
        m_connected = update c.m_connected cn true;
      };
      m_buffer = update s.m_buffer cn (make 0 size);
      added = s.added ++ (cfd ∷ []);
    })

-- `aborted` is the failed assertion that the descriptor is new.
pub data Accepts : Type 0 where
  accepts : Accepting → Accepts
  aborted : Accepts

-- The loop, over what the calls of `accept` give up to the one that fails.
unfoldable pub accept_connections : ℕ → List Accepted → Accepting → Accepts
unfolding close_fd create_connection find_internal
accept_connections size [] s = accepts s
accept_connections size (a ∷ list) s =
    let rest = accept_connections size list (create_connection size a.cfd a.address s) in
    if not a.non_blocking
    then accepts (close_fd a.cfd s)
    else if not a.polled
    then accepts (close_fd a.cfd s)
    else elim (find_internal s.connections.m_internal_connections a.cfd) [
      | some other ↦ aborted
      | none ↦ rest
    ]

-- The servers of a listener, and what happens to them.
pub record Servers : Type 0 where
  pub m_servers : List ℕ
  pub m_fd : ℕ → Option ℕ
  pub m_max_queue_size : ℕ
  pub m_server_disconnected_queue : SafeQueue ℕ
  pub m_on_server_disconnect_link : Bool
  pub wake_up : Bool
  pub closed : List ℕ
  pub m_poller : Bool
  pub removed : List ℕ

unfoldable pub find_server : (ℕ → Option ℕ) → List ℕ → ℕ → Option ℕ
find_server m_fd [] fd = none
find_server m_fd (s ∷ list) fd =
    let rest = find_server m_fd list fd in if points_to (m_fd s) fd then some s else rest

unfoldable pub get_server : ℕ → Servers → Option ℕ
unfolding find_server
get_server fd s = find_server s.m_fd s.m_servers fd

unfoldable pub is_server : ℕ → Servers → Bool
unfolding find_server
is_server fd s = elim (find_server s.m_fd s.m_servers fd) [ some _ ↦ true | none ↦ false ]

-- `tell_disconnected` of a server.
unfoldable pub tell_server : ℕ → Servers → Servers
unfolding push_event
tell_server server s = record s {
  m_server_disconnected_queue = push_event s.m_max_queue_size s.m_server_disconnected_queue server;
  wake_up = if s.m_on_server_disconnect_link then true else s.wake_up;
}

unfoldable pub close_server : ℕ → Servers → Servers
unfolding find_server tell_server
close_server fd s = elim (find_server s.m_fd s.m_servers fd) [
  | none ↦ s
  | some server ↦
      let t = tell_server server s in
      record t {
        closed = t.closed ++ (fd ∷ []);
        removed = if t.m_poller then t.removed ++ (fd ∷ []) else t.removed;
      }
]
