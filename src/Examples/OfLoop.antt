-- ===== src/Examples/OfLoop.antt =====
-- The event loop with two connections that a server has accepted.
use mathlib.Core.List.{map}
use sednl.Base.{
  ◌≡◌, refl, arith, subst, ℕ, ◌==◌, ==_iff, Bool-cases, inl, inr, true, false, none, some, List, [],
  ◌∷◌, All, Name, length, suc,
}
use sednl.Bytes.Host.{Host}
use sednl.Bytes.Order.{push_16}
use sednl.Event.Pack.{Event, get_header, pack}
use sednl.RingBuf.Buffer.{make}
use sednl.RingBuf.Put.{make-IsValid}
use sednl.Listener.Attach.{contains}
use sednl.Listener.Connections.{Connections, find_internal, get_connection}
use sednl.Listener.Receive.{CnEvent, would_block}
use sednl.Listener.Delivery.{named}
use sednl.Listener.Accept.{is_server}
use sednl.Listener.Loop.{
  queues_of, join_consumers, EventListener, looped, handle_event, undefined, event_loop, run_imp,
}
use sednl.Listener.Come.{Read, arrival, arrived, from, Come}
use sednl.Listener.Flow.{Sends, IsRead}
use sednl.Listener.HangUp.{handle_event-hangup}
use sednl.Poller.Epoll.{EpollEvent, event_of, wait_for_events, all_events}
use sednl.Poller.EpollEvents.{told, all_events-epoll}
use sednl.Listener.Finish.{run_imp-no_attached, run_imp-attached}
use sednl.Consumer.Slots.{EventConsumer}
use sednl.Consumer.Consume.{on_event, consume_events}
use sednl.Consumer.Calls.{each, calls_of, handler}
use sednl.Consumer.FromNetwork.{seen_by, event_loop-consume_events}
use sednl.Examples.Hosts.{little, big, abc}
use sednl.Examples.OfReading.{accepted, listening, abc-IsSent}

instance abbrev host : Host
host = little

abbrev two_accepted : Connections
two_accepted = record accepted { m_internal_connections = (12, 2) ∷ (13, 3) ∷ [] }

-- Callback 100 takes the events named "abc".
abbrev taker : EventConsumer
taker = record {
  m_slots = ((97 ∷ 98 ∷ 99 ∷ []), some 100) ∷ [];
  m_on_event_slot = none;
  m_on_disconnect_slot = none;
  m_on_server_disconnect_slot = none;
}

-- The server has descriptor 5.
abbrev looping : EventListener
looping = record {
  inbox = record listening { connections = two_accepted };
  m_on_connect_slot = none;
  added = [];
  connected = [];
  servers = record {
    m_servers = 1 ∷ [];
    m_fd = λ _. some 5;
    m_max_queue_size = 0;
    m_server_disconnected_queue = [];
    m_on_server_disconnect_link = false;
    wake_up = false;
    closed = [];
    m_poller = true;
    removed = [];
  };
  m_consumers = record { consumer = taker; m_running = true } ∷ [];
  calls = [];
}

-- Connection 3 sends its event while that of connection 2 is on the way.
abbrev reads : List Read
reads =
    record { fd = 12; cn = 2; chunks = (0 ∷ 8 ∷ 97 ∷ []) ∷ [] }
    ∷ record { fd = 13; cn = 3; chunks = (0 ∷ 8 ∷ 97 ∷ 98 ∷ 99 ∷ []) ∷ (0 ∷ 1 ∷ 5 ∷ []) ∷ [] }
    ∷ record { fd = 12; cn = 2; chunks = (98 ∷ 99 ∷ 0 ∷ 1 ∷ 5 ∷ []) ∷ [] }
    ∷ []

abbrev one_event : ℕ → List Event
one_event cn = abc ∷ []

two_or_three : (P : ℕ → Type 0) → P 2 → P 3 → (cn : ℕ) → contains (2 ∷ 3 ∷ []) cn ≡ true → P cn
unfolding contains
two_or_three P two three cn m = elim (Bool-cases (2 == cn)) [
  | inl e ↦ subst P ((==_iff 2 cn).0 e) two
  | inr e ↦ subst P ((==_iff 3 cn).0 (ground arith)) three
]

sends :
    (cn : ℕ)
    → contains (2 ∷ 3 ∷ []) cn ≡ true
    → Sends big (one_event cn) (arrived cn reads) (looping.inbox.m_buffer cn)
unfolding make pack get_header push_16
sends =
    two_or_three (λ cn. Sends big (one_event cn) (arrived cn reads) (looping.inbox.m_buffer cn))
      (record {
        valid = (make-IsValid 0 512 (omega arith)).0;
        emptied = (make-IsValid 0 512 (omega arith)).1;
        whole = refl;
        fits = omega arith;
        space = omega arith;
        sent = (abc-IsSent, tt);
      })
      (record {
        valid = (make-IsValid 0 512 (omega arith)).0;
        emptied = (make-IsValid 0 512 (omega arith)).1;
        whole = refl;
        fits = omega arith;
        space = omega arith;
        sent = (abc-IsSent, tt);
      })

all_known : All (IsRead (2 ∷ 3 ∷ []) looping) reads
unfolding contains get_connection is_server
all_known = ((refl, refl, refl), ((refl, refl, refl), ((refl, refl, refl), tt)))

event_loop-consume_events_example :
    (end : EventListener) × (event_loop 4095 (map arrival reads) looping ≡ looped end)
    × ((k : Name) (f : ℕ)
        → handler taker looping.inbox.m_links k ≡ some f
        → (given : List CnEvent) × (calls_of k (consume_events taker (seen_by end)).calls
            ≡ each (on_event f) given)
          × ((cn : ℕ) → contains (2 ∷ 3 ∷ []) cn ≡ true → from cn given ≡ named cn k (one_event cn))
          × ((cn : ℕ) → contains (2 ∷ 3 ∷ []) cn ≡ false → from cn given ≡ []))
event_loop-consume_events_example =
    event_loop-consume_events (λ _. big) (2 ∷ 3 ∷ []) 4095 reads one_event looping taker sends
      all_known refl refl

-- The peer of connection 2 has sent an event and closed.
abbrev sent_and_closed : EpollEvent
sent_and_closed = record {
  fd = 12;
  epollin = true;
  epollerr = false;
  epollhup = false;
  epollrdhup = true;
}

all_events-epoll_example :
    ((list : List EpollEvent)
      → some (sent_and_closed ∷ []) ≡ some list
      → all_events (suc (length list)) (
          wait_for_events
            (λ _. some (sent_and_closed ∷ []))
            (record { m_epoll = some 4; m_events = []; m_nb_events = 0; m_idx = 0 }))
        ≡ some (map told list))
    × (some (sent_and_closed ∷ []) ≡ none
        → all_events 1 (
            wait_for_events
              (λ _. some (sent_and_closed ∷ []))
              (record { m_epoll = some 4; m_events = []; m_nb_events = 0; m_idx = 0 }))
          ≡ some [])
all_events-epoll_example =
    all_events-epoll (λ _. some (sent_and_closed ∷ []))
      (record { m_epoll = some 4; m_events = []; m_nb_events = 0; m_idx = 0 })

handle_event-hangup_example :
    (t : EventListener) × (handle_event 4095
        (record {
          event = event_of sent_and_closed;
          chunks = (0 ∷ 8 ∷ 97 ∷ 98 ∷ 99 ∷ 0 ∷ 1 ∷ 5 ∷ []) ∷ [];
          last = would_block;
          accepted = [];
        })
        looping
      ≡ looped t)
    × (t.inbox.connections.m_connected 2 ≡ false)
    × (t.inbox.m_events ≡ [])
    × (t.inbox.m_buffer ≡ looping.inbox.m_buffer)
unfolding is_server get_connection
handle_event-hangup_example =
    handle_event-hangup 4095 sent_and_closed ((0 ∷ 8 ∷ 97 ∷ 98 ∷ 99 ∷ 0 ∷ 1 ∷ 5 ∷ []) ∷ [])
      would_block [] looping refl refl refl

run_imp-no_attached_example : run_imp 4095 [] looping ≡ undefined
unfolding event_loop find_internal
run_imp-no_attached_example =
    run_imp-no_attached 4095 12 2 ((13, 3) ∷ []) [] looping looping refl refl refl refl

abbrev attached_too : EventListener
attached_too = record looping {
  inbox = record looping.inbox {
    connections = record looping.inbox.connections { m_connections = 4 ∷ [] };
  };
}

run_imp-attached_example :
    (end : EventListener) × (run_imp 4095 [] attached_too ≡ looped end)
    × All (λ (k : ℕ × ℕ). end.inbox.connections.m_connected k.1 ≡ false) ((12, 2) ∷ (13, 3) ∷ [])
    × (end.inbox.connections.m_internal_connections ≡ [])
    × (queues_of (join_consumers attached_too.m_consumers attached_too)
        ≡ record (queues_of end) { m_links = attached_too.inbox.m_links })
unfolding event_loop find_internal contains
run_imp-attached_example =
    run_imp-attached 4095 4 [] [] attached_too attached_too refl refl
      ((refl, refl), ((refl, refl), tt))
