-- ===== src/Listener/Running.antt =====
-- `run` and `join` of a listener, in src/SEDNL/EventListener.cpp: the flag, the thread and the links.
use sednl.Base.{ℕ, Bool, true, false, Option, none, some, List, [], ◌∷◌, if◌then◌else◌}
use sednl.Exceptions.{EventExceptionT, event_listener_running, M, ok, thrown, fault, aborted, ◌>>◌}
use sednl.Consumer.Slots.{EventConsumer}
use sednl.Listener.Links.{Links, clear_consumer_links, run_init}

-- `m_thread` tells whether the thread is joinable.
pub record Running : Type 0 where
  pub m_running : Bool
  pub m_thread : Bool
  pub links : Links

-- What `run_init` finds: whether a poller can be made, its `add_fd`, the servers, the connections and the consumers.
pub record Setup : Type 0 where
  pub created : Bool
  pub add_fd : ℕ → Bool
  pub servers : List (Bool × ℕ)
  pub connections : List (Bool × ℕ)
  pub consumers : List (ℕ × EventConsumer)

-- `EventListener(max_queue_size)`.
unfoldable pub make_listener : Links → Running
unfolding clear_consumer_links
make_listener l = record { m_running = false; m_thread = false; links = clear_consumer_links l }

-- `run_init()` on the listener's links.
unfoldable pub init : Setup → M EventExceptionT Running (Unit {0})
unfolding run_init
init a s = elim (run_init a.created a.add_fd a.servers a.connections a.consumers s.links) [
  | ok u l ↦ ok u (record s { links = l })
  | thrown e l ↦ thrown e (record s { links = l })
  | fault x ↦ fault x
]

-- `m_running = true; m_thread = std::thread(...);`. A thread that replaces a joinable one ends the
-- program.
unfoldable pub launch : M EventExceptionT Running (Unit {0})
launch s =
    if s.m_thread then fault aborted else ok tt (record s { m_running = true; m_thread = true })

unfoldable pub run : Setup → M EventExceptionT Running (Unit {0})
unfolding init launch
run a s = if s.m_running then thrown event_listener_running s else (init a >> launch) s

-- `m_thread.join()`: the thread leaves its loop, and its last statement clears the links.
unfoldable pub wait_for_thread : Running → Running
unfolding clear_consumer_links
wait_for_thread s = record s { m_thread = false; links = clear_consumer_links s.links }

unfoldable pub join : Running → Running
unfolding wait_for_thread
join s =
    let t : Running = record s { m_running = false } in
    if s.m_running then (if s.m_thread then wait_for_thread t else t) else s

pub data Turn : Type 0 where
  starts : Setup → Turn
  stops : Turn

-- An exception does not end the program; `none` is a program that has ended.
unfoldable pub turn : Turn → Running → Option Running
unfolding run join
turn (starts a) s = elim (run a s) [ ok u t ↦ some t | thrown e t ↦ some t | fault x ↦ none ]
turn stops s = some (join s)

unfoldable pub turn_all : List Turn → Running → Option Running
unfolding turn
turn_all [] s = some s
turn_all (c ∷ cs) s = elim (turn c s) [ none ↦ none | some t ↦ turn_all cs t ]
