-- ===== src/Examples/OfReading.antt =====
-- A connection from which two events arrive, in three pieces.
use sednl.Base.{
  ◌≡◌, ◌≢◌, refl, arith, none, some, List, [], ◌∷◌, ByteArray, true, false, ◌+◌, ◌<◌, ℕ, zero, suc,
  All, IsByte, replicate,
}
use sednl.Bytes.Host.{Host}
use sednl.Bytes.Order.{push_16}
use sednl.Event.Pack.{Event, get_header, pack}
use sednl.Packet.Valid.{is_valid, accept}
use sednl.RingBuf.Buffer.{make}
use sednl.RingBuf.Put.{make-IsValid}
use sednl.Listener.Connections.{Connections, get_connection}
use sednl.Listener.Receive.{Inbox, unfinished, closed, read_connection}
use sednl.Listener.Picking.{stream, IsSent, joined}
use sednl.Listener.ReadingEnds.{read_connection-ends}
use sednl.Examples.Hosts.{little, big, abc}

instance abbrev host : Host
host = little

-- Connection 2 was accepted, with descriptor 12; the consumer at address 7 takes events named "abc".
abbrev pub accepted : Connections
accepted = record {
  m_connections = [];
  m_internal_connections = (12, 2) ∷ [];
  m_fd = λ cn. some (cn + 10);
  m_connected = λ _. true;
  closed = [];
  m_poller = true;
  removed = [];
  m_max_queue_size = 0;
  m_disconnected_queue = [];
  m_on_disconnect_link = true;
  wake_up = false;
}

abbrev pub listening : Inbox
listening = record {
  connections = accepted;
  m_buffer = λ cn. make 0 512;
  m_events = [];
  m_links = ((97 ∷ 98 ∷ 99 ∷ []), some 7) ∷ [];
  m_on_event_link = none;
  wake_up = λ _. false;
}

abbrev chunks : List ByteArray
chunks =
    (0 ∷ 8 ∷ 97 ∷ []) ∷ (98 ∷ 99 ∷ 0 ∷ 1 ∷ 5 ∷ 0 ∷ []) ∷ (8 ∷ 97 ∷ 98 ∷ 99 ∷ 0 ∷ 1 ∷ 5 ∷ []) ∷ []

abbrev sent : List Event
sent = abc ∷ abc ∷ []

chunks-stream : joined chunks ≡ stream big sent
unfolding pack get_header push_16
chunks-stream = refl

found : get_connection 12 accepted ≡ some 2
unfolding get_connection
found = refl

abc_accept : is_valid abc.m_packet ≡ accept tt
unfolding is_valid
abc_accept = refl

pub abc-IsSent : IsSent abc
abc-IsSent = (omega arith, ground arith, abc_accept)

All-replicate : (n b : ℕ) → b < 256 → All IsByte (replicate n b)
All-replicate zero b h = tt
All-replicate (suc n) b h = (h, All-replicate n b h)

six_bytes : All IsByte (98 ∷ 99 ∷ 0 ∷ 1 ∷ 5 ∷ 0 ∷ [])
six_bytes =
    (omega arith, (omega arith, (omega arith, (omega arith, (omega arith, (omega arith, tt))))))

seven_bytes : All IsByte (8 ∷ 97 ∷ 98 ∷ 99 ∷ 0 ∷ 1 ∷ 5 ∷ [])
seven_bytes = (
  omega arith,
  (omega arith, (omega arith, (omega arith, (omega arith, (omega arith, (omega arith, tt)))))),
)

read_connection-ends_example : read_connection chunks closed 12 listening ≢ unfinished
unfolding make
read_connection-ends_example =
    read_connection-ends 2 12 chunks closed listening found (make-IsValid 0 512 (omega arith)).0
      (All-replicate 513 0 (omega arith))
      (
        (omega arith, (omega arith, (omega arith, (omega arith, tt)))),
        ((omega arith, six_bytes), ((omega arith, seven_bytes), tt)),
      )
