-- ===== src/Listener/Connections.antt =====
-- The connections of a listener: those attached to it, which it does not own, and those it accepted.
-- Connections are named by their addresses, and `none` is the descriptor -1.
use sednl.Base.{ℕ, ◌==◌, Bool, true, false, Option, none, some, List, [], ◌∷◌, ◌++◌, if◌then◌else◌}
use sednl.Listener.Queue.{SafeQueue, push_event}
use sednl.Listener.Attach.{update, contains, points_to}

-- `closed` are the descriptors given to `close`, `removed` those given to `Poller::remove_fd`, in
-- order. `wake_up` is that of the consumer that `m_on_disconnect_link` points to, if there is one.
pub record Connections : Type 0 where
  pub m_connections : List ℕ
  pub m_internal_connections : List (ℕ × ℕ)
  pub m_fd : ℕ → Option ℕ
  pub m_connected : ℕ → Bool
  pub closed : List (Option ℕ)
  pub m_poller : Bool
  pub removed : List (Option ℕ)
  pub m_max_queue_size : ℕ
  pub m_disconnected_queue : SafeQueue ℕ
  pub m_on_disconnect_link : Bool
  pub wake_up : Bool

-- The loop over the attached connections, by descriptor.
unfoldable pub find_external : (ℕ → Option ℕ) → List ℕ → ℕ → Option ℕ
find_external m_fd [] fd = none
find_external m_fd (cn ∷ list) fd =
    if points_to (m_fd cn) fd then some cn else find_external m_fd list fd

-- `m_internal_connections.find(fd)`.
unfoldable pub find_internal : List (ℕ × ℕ) → ℕ → Option ℕ
find_internal [] fd = none
find_internal ((k, cn) ∷ list) fd = if k == fd then some cn else find_internal list fd

unfoldable pub erase_fd : List (ℕ × ℕ) → ℕ → List (ℕ × ℕ)
erase_fd [] fd = []
erase_fd ((k, cn) ∷ list) fd =
    let rest = erase_fd list fd in if k == fd then list else (k, cn) ∷ rest

-- The loop of `tell_disconnected` over the accepted connections, by pointer.
unfoldable pub has_pointer : List (ℕ × ℕ) → ℕ → Bool
has_pointer [] cn = false
has_pointer ((k, c) ∷ list) cn = if c == cn then true else has_pointer list cn

unfoldable pub erase_pointer : List (ℕ × ℕ) → ℕ → List (ℕ × ℕ)
erase_pointer [] cn = []
erase_pointer ((k, c) ∷ list) cn =
    let rest = erase_pointer list cn in if c == cn then list else (k, c) ∷ rest

unfoldable pub get_connection : ℕ → Connections → Option ℕ
unfolding find_external find_internal
get_connection fd s = elim (find_external s.m_fd s.m_connections fd) [
  | some cn ↦ some cn
  | none ↦ find_internal s.m_internal_connections fd
]

-- `Connection::unsafe_disconnect`, and `safe_disconnect`, which takes the lock.
unfoldable pub unsafe_disconnect : ℕ → Connections → Connections
unsafe_disconnect cn s =
    if s.m_connected cn
    then record s {
      closed = s.closed ++ (s.m_fd cn ∷ []);
      m_fd = update s.m_fd cn none;
      m_connected = update s.m_connected cn false;
    }
    else s

-- `if (m_poller) m_poller->remove_fd(fd);`
abbrev pub remove_fd : Option ℕ → Connections → Connections
remove_fd fd s = if s.m_poller then record s { removed = s.removed ++ (fd ∷ []) } else s

-- `disconnected_event` on `m_disconnected_queue`.
unfoldable pub disconnected : ℕ → Connections → Connections
unfolding push_event
disconnected cn s = record s {
  m_disconnected_queue = push_event s.m_max_queue_size s.m_disconnected_queue cn;
}

-- `notify(m_on_disconnect_link)`.
unfoldable pub notify : Connections → Connections
notify s = if s.m_on_disconnect_link then record s { wake_up = true } else s

-- `close_connection` past the search.
unfoldable pub close_found : ℕ → ℕ → Connections → Connections
unfolding unsafe_disconnect disconnected notify
close_found fd cn s = notify (disconnected cn (remove_fd (some fd) (unsafe_disconnect cn s)))

unfoldable pub close_connection : ℕ → Connections → Connections
unfolding find_external find_internal erase_fd close_found
close_connection fd s = elim (find_external s.m_fd s.m_connections fd) [
  | some cn ↦ close_found fd cn s
  | none ↦ elim (find_internal s.m_internal_connections fd) [
    | some cn ↦
        close_found fd cn
          (record s { m_internal_connections = erase_fd s.m_internal_connections fd })
    | none ↦ s
  ]
]

-- `tell_disconnected` past the search.
abbrev pub tell : ℕ → Connections → Connections
tell cn s = disconnected cn (remove_fd (s.m_fd cn) s)

-- The accepted connections are searched only if none is attached.
unfoldable pub tell_search : List ℕ → ℕ → Connections → Connections
unfolding contains has_pointer erase_pointer disconnected
tell_search [] cn s =
    if has_pointer s.m_internal_connections cn
    then tell cn (record s { m_internal_connections = erase_pointer s.m_internal_connections cn })
    else s
tell_search (x ∷ list) cn s = if contains (x ∷ list) cn then tell cn s else s

unfoldable pub tell_disconnected : ℕ → Connections → Connections
unfolding tell_search
tell_disconnected cn s = tell_search s.m_connections cn s

-- `Connection::disconnect` of a connection whose `m_listener` is this listener.
unfoldable pub disconnect : ℕ → Connections → Connections
unfolding tell_disconnected unsafe_disconnect
disconnect cn s = unsafe_disconnect cn (tell_disconnected cn s)
