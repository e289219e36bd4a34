-- ===== src/Examples/OfConsumer.antt =====
-- Two consumers of a listener: the one at address 7 takes the events named "a" and has an empty slot
-- for "b", the one at address 8 takes all others.
use sednl.Base.{
  ◌⊎◌, ◌≡◌, refl, ℕ, none, some, List, [], ◌∷◌, ◌++◌, ◌==◌, if◌then◌else◌, true, false, Name, find,
  at_or, same_name,
}
use sednl.Event.Pack.{Event}
use sednl.Exceptions.{ok, thrown, event_collision}
use sednl.Listener.Queue.{is_full}
use sednl.Listener.Receive.{Inbox, receive_event}
use sednl.Listener.Links.{Links, Link, link_in, link_consumers}
use sednl.Listener.Claims.{claims, claimant, is_bound, is_some}
use sednl.Listener.LinkState.{no_links}
use sednl.Listener.Running.{Running, Setup, Turn, starts, stops, make_listener, turn_all}
use sednl.Listener.Restart.{turn_all-restarts}
use sednl.Listener.Linked.{link_consumers-collision, link_consumers-links}
use sednl.Consumer.Slots.{EventConsumer, slot_for}
use sednl.Consumer.Consume.{Producer, consume_events}
use sednl.Consumer.Calls.{Proper, Proper-cons, calls_of, handed}
use sednl.Consumer.Events.{consume_events_lem}
use sednl.Consumer.Unclaimed.{consume_events-empty_slot}
use sednl.Consumer.Thread.{Thread, Step, arrives, rounds, joins, steps}
use sednl.Consumer.AllHanded.{steps-all_handed}
use sednl.Listener.Parents.{number_in}
use sednl.Consumer.Producers.{Parties}
use sednl.Consumer.ProducerCalls.{Call, setting, call_all, no_parties, call_all-one_producer}
use sednl.Examples.OfReading.{listening}

abbrev a : Name
a = 97 ∷ []

abbrev b : Name
b = 98 ∷ []

abbrev of_a : EventConsumer
of_a = record {
  m_slots = (a, some 100) ∷ (b, none) ∷ [];
  m_on_disconnect_slot = none;
  m_on_server_disconnect_slot = none;
  m_on_event_slot = none;
}

abbrev of_all : EventConsumer
of_all = record {
  m_slots = [];
  m_on_disconnect_slot = some 101;
  m_on_server_disconnect_slot = none;
  m_on_event_slot = some 102;
}

abbrev both : List (ℕ × EventConsumer)
both = (7, of_a) ∷ (8, of_all) ∷ []

abbrev clash : List (ℕ × EventConsumer)
clash = (7, of_a) ∷ (8, of_a) ∷ []

abbrev linked : Links
linked = record {
  m_on_disconnect_link = some 8;
  m_on_server_disconnect_link = none;
  m_on_event_link = some 8;
  m_links = (a, some 7) ∷ (b, none) ∷ [];
}

both-linked : link_consumers both no_links ≡ ok tt linked
unfolding link_consumers
both-linked = refl

abbrev event_a : Event
event_a = record { m_name = a; m_packet = [] }

abbrev event_b : Event
event_b = record { m_name = b; m_packet = [] }

abbrev queues : Producer
queues = record {
  m_events = (a, (2, event_a) ∷ []) ∷ (b, (2, event_b) ∷ []) ∷ [];
  m_links = linked.m_links;
  m_server_disconnected_queue = [];
  m_disconnected_queue = [];
  calls = [];
}

queues-Proper : Proper queues.m_events
unfolding find
queues-Proper =
    Proper-cons a ((2, event_a) ∷ []) ((b, (2, event_b) ∷ []) ∷ []) (refl, tt)
      (Proper-cons b ((2, event_b) ∷ []) [] (refl, tt) (λ k. tt))

link_consumers-collision_example : link_consumers clash no_links ≡ thrown event_collision no_links
unfolding link_consumers
link_consumers-collision_example = link_consumers-collision clash refl

link_consumers-links_example :
    (t : Links) × (link_consumers both no_links ≡ ok tt t)
    × ((l : Link) → link_in l t ≡ claimant (claims both) l)
    × ((k : Name) → is_some (find t.m_links k) ≡ is_bound (claims both) k)
unfolding same_name
link_consumers-links_example = link_consumers-links both refl

consume_events_lem_example :
    (at_or [] (consume_events of_a queues).m_events a ≡ [])
    × (calls_of a (consume_events of_a queues).calls ≡ handed (some 100) ((2, event_a) ∷ []))
unfolding find slot_for
consume_events_lem_example = consume_events_lem of_a queues a (refl, (refl, tt)) queues-Proper

abbrev linked_listener : Inbox
linked_listener = record listening {
  m_links = linked.m_links;
  m_on_event_link = linked.m_on_event_link;
}

consume_events-empty_slot_example :
    ((receive_event 2 event_b linked_listener).wake_up 8 ≡ true)
    × (at_or [] (consume_events of_all queues).m_events b ≡ (2, event_b) ∷ [])
unfolding find slot_for is_full
consume_events-empty_slot_example =
    consume_events-empty_slot both linked b linked_listener of_all queues 2 8 [] both-linked refl
      refl refl refl refl refl refl refl (refl, (refl, tt)) queues-Proper

-- The consumer's thread, with the listener's queues empty.
abbrev thread : Thread
thread = record {
  consumer = of_a;
  m_descriptor = 7;
  m_running = true;
  over = false;
  inbox = record listening { m_links = linked.m_links };
  m_server_disconnected_queue = [];
  calls = [];
}

abbrev schedule : List Step
schedule = arrives 2 event_a ∷ rounds ∷ arrives 2 event_b ∷ arrives 3 event_a ∷ []

steps-all_handed_example :
    (let end = steps (schedule ++ (joins ∷ rounds ∷ [])) thread in
      (end.over ≡ true)
      × (calls_of a end.calls ≡ handed (some 100) ((2, event_a) ∷ (3, event_a) ∷ [])))
unfolding find slot_for
steps-all_handed_example = steps-all_handed schedule thread a refl refl refl refl refl refl

-- Consumer 20 leaves listener 1 for listener 2.
abbrev calls : List Call
calls = setting 20 1 ∷ setting 20 2 ∷ []

abbrev moved : Parties
moved = record {
  world = record {
    managed =
        λ n. if n == 2 then 20 ∷ [] else if n == 1 then [] else if n == 1 then 20 ∷ [] else [];
    m_running = λ _. false;
    m_listener =
        λ n. if n == 20 then some 2 else if n == 20 then none else if n == 20 then some 1 else none;
    accepted = λ _. false;
  };
  consumes = λ _. false;
}

calls-moved : call_all calls no_parties ≡ ok tt moved
unfolding call_all no_parties
calls-moved = refl

call_all-one_producer_example : number_in (moved.world.managed 2) 20 ≡ 1
call_all-one_producer_example = call_all-one_producer calls moved 2 20 calls-moved

abbrev busy : Parties
busy = record moved { world = record moved.world { m_running = λ n. n == 2 } }

-- A run that fails, one that works, the end of that, and another.
abbrev setup : List (ℕ × EventConsumer) → Setup
setup consumers = record {
  created = true;
  add_fd = λ _. true;
  servers = (true, 3) ∷ [];
  connections = (false, 0) ∷ [];
  consumers = consumers;
}

abbrev restarts : List Turn
restarts = starts (setup clash) ∷ starts (setup both) ∷ stops ∷ starts (setup both) ∷ []

turn_all-restarts_example :
    (s : Running) × (turn_all restarts (make_listener linked) ≡ some s)
    × ((s ≡ make_listener linked) ⊎ ((s.m_running ≡ true) × (s.m_thread ≡ true)))
turn_all-restarts_example = turn_all-restarts restarts linked
