-- ===== src/Listener/HangUp.antt =====
-- A peer that sends and then closes, with the epoll backend.
use sednl.Base.{◌≡◌, refl, ap, ◌∙◌, Bool, true, false, ◌||◌, some, List, ByteArray, ℕ}
use sednl.Bytes.Host.{Host}
use sednl.Poller.Epoll.{EpollEvent, event_of}
use sednl.Listener.Connections.{get_connection, close_connection}
use sednl.Listener.Disconnect.{close_connection-get_connection}
use sednl.Listener.Receive.{LastCall}
use sednl.Listener.Accept.{Accepted, is_server}
use sednl.Listener.Loop.{EventListener, looped, handle_event}

or_true : (a b : Bool) → (a || b || true) ≡ true
or_true true b = refl
or_true false true = refl
or_true false false = refl

is_close-hangup : (x : EpollEvent) → x.epollrdhup ≡ true → (event_of x).is_close ≡ true
unfolding event_of
is_close-hangup x e = ap (λ b. x.epollerr || x.epollhup || b) e ∙ or_true x.epollerr x.epollhup

module _ ⦃host : Host⦄ where
  -- If epoll reports that the peer of a connection has closed its side, the connection is closed, even
  -- if there are bytes to read as well: whatever `recv` would give, its buffer and the queues of events
  -- stay as they were.
  pub handle_event-hangup :
      (size : ℕ) (x : EpollEvent) (chunks : List ByteArray) (last : LastCall)
      (accepted : List Accepted) (s : EventListener) {cn : ℕ}
      → x.epollrdhup ≡ true
      → is_server x.fd s.servers ≡ false
      → get_connection x.fd s.inbox.connections ≡ some cn
      → (t : EventListener) × (handle_event size
            (record { event = event_of x; chunks = chunks; last = last; accepted = accepted })
            s
          ≡ looped t)
        × (t.inbox.connections.m_connected cn ≡ false)
        × (t.inbox.m_events ≡ s.inbox.m_events)
        × (t.inbox.m_buffer ≡ s.inbox.m_buffer)
  unfolding handle_event event_of
  handle_event-hangup size x chunks last accepted s {cn} hangup other found = (
    record s { inbox = record s.inbox { connections = close_connection x.fd s.inbox.connections } },
    rw (is_close-hangup x hangup, other) refl,
    ((close_connection-get_connection x.fd s.inbox.connections).0 cn found).0,
    refl,
    refl,
  )
