-- ===== src/Listener/Loop.antt =====
-- `run_imp`: the event loop of a listener, up to `join`, and what it does behind the loop.
use sednl.Base.{ℕ, Bool, false, not, Option, none, some, List, [], ◌∷◌, ByteArray, if◌then◌else◌}
use sednl.Bytes.Host.{Host}
use sednl.Poller.Select.{Event}
use sednl.Consumer.Slots.{Slot, EventConsumer}
use sednl.Consumer.Consume.{Call, Producer, consume_events}
use sednl.Listener.Connections.{Connections, find_internal, close_connection, disconnect}
use sednl.Listener.Receive.{Inbox, Ended, ended, LastCall, read_connection}
use sednl.Listener.Accept.{
  Accepting, Accepted, Accepts, accepts, accept_connections, Servers, is_server, close_server,
}

-- A consumer with its thread, which runs or does not.
pub record Joinable : Type 0 where
  pub consumer : EventConsumer
  pub m_running : Bool

-- The listener's fields, in the parts that its operations use. `calls` are those of callbacks that its
-- consumers have made.
pub record EventListener : Type 0 where
  pub inbox : Inbox
  pub m_on_connect_slot : Slot
  pub added : List ℕ
  pub connected : List ℕ
  pub servers : Servers
  pub m_consumers : List Joinable
  pub calls : List Call

-- An event of the poller with what the system gives while it is handled: the calls of `recv` on the
-- descriptor, or those of `accept`.
pub record Arrival : Type 0 where
  pub event : Event
  pub chunks : List ByteArray
  pub last : LastCall
  pub accepted : List Accepted

-- How the loop goes on. `undefined` and `aborted` end the program, and `unfinished` stands for the
-- bound on the rounds of `read_connection`.
pub data Outcome : Type 0 where
  looped : EventListener → Outcome
  undefined aborted unfinished : Outcome

abbrev pub accepting : EventListener → Accepting
accepting s = record {
  connections = s.inbox.connections;
  m_buffer = s.inbox.m_buffer;
  m_on_connect_slot = s.m_on_connect_slot;
  added = s.added;
  connected = s.connected;
}

abbrev pub after_accept : Accepts → EventListener → Outcome
after_accept (accepts a) s = looped (record s {
  inbox = record s.inbox { connections = a.connections; m_buffer = a.m_buffer };
  m_on_connect_slot = a.m_on_connect_slot;
  added = a.added;
  connected = a.connected;
})
after_accept Accepts.aborted s = aborted

abbrev pub after_read : Ended → EventListener → Outcome
after_read (ended i) s = looped (record s { inbox = i })
after_read Ended.undefined s = undefined
after_read Ended.unfinished s = unfinished

module _ ⦃host : Host⦄ (size : ℕ) where
  -- The body of `while (m_poller->next_event(e))`. `size` is `CONNECTION_BUFFER_SIZE - 1`.
  unfoldable pub handle_event : Arrival → EventListener → Outcome
  unfolding is_server close_server close_connection accept_connections read_connection
  handle_event a s =
      let fd = a.event.fd in
      if a.event.is_close
      then (if is_server fd s.servers
          then looped (record s { servers = close_server fd s.servers })
          else looped (record s {
            inbox = record s.inbox { connections = close_connection fd s.inbox.connections };
          }))
      else if not a.event.is_read
      then looped s
      else if is_server fd s.servers
      then after_accept (accept_connections size a.accepted (accepting s)) s
      else after_read (read_connection a.chunks a.last fd s.inbox) s

  -- The event loop, over all the events that the poller gives before `join`.
  unfoldable pub event_loop : List Arrival → EventListener → Outcome
  unfolding handle_event
  event_loop [] s = looped s
  event_loop (a ∷ arrivals) s = elim (handle_event a s) [
    | looped t ↦ event_loop arrivals t
    | undefined ↦ undefined
    | aborted ↦ aborted
    | unfinished ↦ unfinished
  ]

-- `for (auto cn : m_internal_connections) cn.second->disconnect();` from the iterator on. It is
-- undefined (`none`) to move the iterator on when its element has been erased.
unfoldable pub disconnect_all : List (ℕ × ℕ) → Connections → Option Connections
unfolding disconnect find_internal
disconnect_all [] c = some c
disconnect_all ((fd, cn) ∷ rest) c =
    let later = disconnect_all rest (disconnect cn c) in
    elim (find_internal (disconnect cn c).m_internal_connections fd) [
      | some other ↦ later
      | none ↦ none
    ]

-- The queues and links that consumers read.
abbrev pub queues_of : EventListener → Producer
queues_of s = record {
  m_events = s.inbox.m_events;
  m_links = s.inbox.m_links;
  m_server_disconnected_queue = s.servers.m_server_disconnected_queue;
  m_disconnected_queue = s.inbox.connections.m_disconnected_queue;
  calls = s.calls;
}

abbrev pub with_queues : Producer → EventListener → EventListener
with_queues p s = record s {
  inbox = record s.inbox {
    m_events = p.m_events;
    connections = record s.inbox.connections { m_disconnected_queue = p.m_disconnected_queue };
  };
  servers = record s.servers { m_server_disconnected_queue = p.m_server_disconnected_queue };
  calls = p.calls;
}

-- `consumer->join()`: the thread of a consumer that runs ends with a last call of `consume_events`, and
-- the listener waits for that. What the threads did before is part of the state.
unfoldable pub join_consumer : Joinable → EventListener → EventListener
unfolding consume_events
join_consumer c s =
    if c.m_running then with_queues (consume_events c.consumer (queues_of s)) s else s

-- `for (auto consumer : m_consumers)`.
unfoldable pub join_consumers : List Joinable → EventListener → EventListener
unfolding join_consumer
join_consumers [] s = s
join_consumers (c ∷ consumers) s = join_consumers consumers (join_consumer c s)

-- `m_poller.release()`, `m_internal_connections.clear()` and `clear_consumer_links()`.
abbrev pub release_resources : EventListener → EventListener
release_resources s = record s {
  inbox = record s.inbox {
    connections = record s.inbox.connections {
      m_poller = false;
      m_internal_connections = [];
      m_on_disconnect_link = false;
    };
    m_links = [];
    m_on_event_link = none;
  };
  servers = record s.servers { m_poller = false; m_on_server_disconnect_link = false };
}

-- What `run_imp` does behind its loop.
unfoldable pub finish_run : EventListener → Outcome
unfolding disconnect_all join_consumers
finish_run s =
    elim (disconnect_all s.inbox.connections.m_internal_connections s.inbox.connections) [
      | none ↦ undefined
      | some c ↦ looped (
          release_resources (
            join_consumers s.m_consumers (record s { inbox = record s.inbox { connections = c } })))
    ]

module _ ⦃host : Host⦄ where
  unfoldable pub run_imp : ℕ → List Arrival → EventListener → Outcome
  unfolding event_loop finish_run
  run_imp size arrivals s = elim (event_loop size arrivals s) [
    | looped t ↦ finish_run t
    | undefined ↦ undefined
    | aborted ↦ aborted
    | unfinished ↦ unfinished
  ]
