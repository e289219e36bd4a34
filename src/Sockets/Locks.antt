-- ===== src/Sockets/Locks.antt =====
-- `disconnect` and `safe_disconnect` of a server, in src/SEDNL/TCPServer.cpp, with the mutex that they
-- lock, `get_fd` of include/SEDNL/SocketInterface.ipp, and what the listener is told.
use sednl.Base.{ℕ, Bool, true, false, Option, none, some, if◌then◌else◌}
use sednl.Listener.Accept.{Servers, tell_server}
use sednl.Sockets.Connect.{Socket, server_disconnect}

-- A server by its address, with the part of its listener that deals with servers. `locked` tells that
-- the thread holds `m_mutex`.
pub record Server : Type 0 where
  pub this : ℕ
  pub socket : Socket
  pub m_listener : Option Servers
  pub locked : Bool

-- `none` is no C++ value: the thread locks a mutex that it holds.
abbrev pub Locking : Type 0 → Type 0
Locking A = Server → Option (A × Server)

infixl 5 ◌>>=◌ ◌>>◌
abbrev pub ◌>>=◌ : {A B : Type 0} → Locking A → (A → Locking B) → Locking B
◌>>=◌ m f s = elim (m s) [ none ↦ none | some (a, t) ↦ f a t ]

abbrev pub ◌>>◌ : {B : Type 0} → Locking (Unit {0}) → Locking B → Locking B
m >> k = m >>= λ _. k

abbrev pub pure : {A : Type 0} → A → Locking A
pure a s = some (a, s)

abbrev lock : Locking (Unit {0})
lock s = if s.locked then none else some (tt, record s { locked = true })

abbrev unlock : Locking (Unit {0})
unlock s = some (tt, record s { locked = false })

-- `std::lock_guard<std::mutex> lock(m_mutex);` and the rest of its block.
abbrev pub lock_guard : {A : Type 0} → Locking A → Locking A
lock_guard body = do lock; a ← body; unlock; pure a

unfoldable pub get_fd : Locking (Option ℕ)
get_fd = lock_guard (λ s. some (s.socket.m_fd, s))

-- `m_listener->tell_disconnected(this)`, if there is a listener. The descriptor is for a warning.
unfoldable pub tell_listener : Locking (Unit {0})
unfolding get_fd tell_server
tell_listener s = elim s.m_listener [
  | none ↦ some (tt, s)
  | some l ↦ (get_fd >>= λ fd t. some (tt, record t { m_listener = some (tell_server t.this l) })) s
]

unfoldable pub unsafe_disconnect : Locking (Unit {0})
unfolding server_disconnect
unsafe_disconnect s = some (tt, record s { socket = server_disconnect s.socket })

unfoldable pub disconnect : Locking (Unit {0})
unfolding tell_listener unsafe_disconnect
disconnect = lock_guard (tell_listener >> unsafe_disconnect)

unfoldable pub safe_disconnect : Locking (Unit {0})
unfolding unsafe_disconnect
safe_disconnect = lock_guard unsafe_disconnect
