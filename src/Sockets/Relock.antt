-- ===== src/Sockets/Relock.antt =====
-- When `disconnect` of a server locks its mutex twice.
use sednl.Base.{◌≡◌, refl, ℕ, Bool, true, false, Option, none, some, [], ◌∷◌, ◌++◌, if◌then◌else◌}
use sednl.Listener.Accept.{Servers}
use sednl.Sockets.Connect.{close_fd, server_disconnect}
use sednl.Sockets.Locks.{
  Server, disconnect, get_fd, safe_disconnect, tell_listener, unsafe_disconnect,
}

-- The server has closed its descriptor, if it was connected, and only that; its mutex is free.
abbrev pub Released : Server → Server → Type 0
Released s t =
    (t.locked ≡ false)
    × (t.this ≡ s.this)
    × (t.socket.opened ≡ s.socket.opened)
    × ((s.socket.m_connected ≡ false → t.socket ≡ s.socket)
        × ((fd : ℕ)
            → s.socket.m_connected ≡ true
            → s.socket.m_fd ≡ some fd
            → (t.socket.m_connected ≡ false)
              × (t.socket.m_fd ≡ none)
              × (t.socket.closed ≡ s.socket.closed ++ (fd ∷ []))))

server_disconnect-cases :
    (s : Server) → Released s (record s { socket = server_disconnect s.socket; locked = false })
unfolding server_disconnect
server_disconnect-cases s = (
  refl,
  refl,
  kept s.socket.m_connected s.socket.m_fd,
  (λ off. rw off refl, λ fd on held. rw (on, held) (refl, refl, refl)),
)
  where
    kept :
        (on : Bool) (held : Option ℕ)
        → (if on
            then (elim held [
              | none ↦ record s.socket { m_connected = false }
              | some fd ↦ record (close_fd fd s.socket) { m_fd = none; m_connected = false }
            ])
            else s.socket).opened
          ≡ s.socket.opened
    kept false held = refl
    kept true none = refl
    kept true (some fd) = refl

-- From a server whose mutex is free: with a listener, `disconnect` locks the mutex that its own thread
-- holds. Without one it ends with the mutex free, and has closed the descriptor of the server if that
-- was connected, and no other; and so does `safe_disconnect`, with a listener or without.
pub disconnect-relocks :
    (s : Server)
    → s.locked ≡ false
    → ((l : Servers) → s.m_listener ≡ some l → disconnect s ≡ none)
      × (s.m_listener ≡ none → (t : Server) × (disconnect s ≡ some (tt, t)) × Released s t)
      × ((t : Server) × (safe_disconnect s ≡ some (tt, t)) × Released s t)
unfolding disconnect safe_disconnect tell_listener get_fd unsafe_disconnect
disconnect-relocks s free =
    let t = record s { socket = server_disconnect s.socket; locked = false } in
    (
      λ l listened. rw (free, listened) refl,
      λ alone. (t, rw (free, alone) refl, server_disconnect-cases s),
      (t, rw free refl, server_disconnect-cases s),
    )
