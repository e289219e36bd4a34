-- ===== src/Consumer/Thread.antt =====
-- The thread of a consumer, `run_imp`, beside the listener that pushes events: each step is one round
-- of its loop, an event that the listener receives, or the call of `join`.
use sednl.Base.{ℕ, Bool, true, false, List, [], ◌∷◌, if◌then◌else◌}
use sednl.Event.Pack.{Event}
use sednl.Exceptions.{EventExceptionT, event_consumer_running, M, ok, thrown}
use sednl.Listener.Queue.{SafeQueue}
use sednl.Listener.Attach.{update}
use sednl.Listener.Receive.{Inbox, receive_event}
use sednl.Consumer.Slots.{EventConsumer, clean_slots}
use sednl.Consumer.Consume.{Call, Producer, consume_events}

-- The consumer with its descriptor's address, and its listener. `over` tells that the thread has
-- ended.
pub record Thread : Type 0 where
  pub consumer : EventConsumer
  pub m_descriptor : ℕ
  pub m_running : Bool
  pub over : Bool
  pub inbox : Inbox
  pub m_server_disconnected_queue : SafeQueue ℕ
  pub calls : List Call

abbrev pub producer_of : Thread → Producer
producer_of t = record {
  m_events = t.inbox.m_events;
  m_links = t.inbox.m_links;
  m_server_disconnected_queue = t.m_server_disconnected_queue;
  m_disconnected_queue = t.inbox.connections.m_disconnected_queue;
  calls = t.calls;
}

-- The listener's queues are the producer's.
abbrev pub with_producer : Producer → Thread → Thread
with_producer p t = record t {
  inbox = record t.inbox {
    m_events = p.m_events;
    connections = record t.inbox.connections { m_disconnected_queue = p.m_disconnected_queue };
  };
  m_server_disconnected_queue = p.m_server_disconnected_queue;
  calls = p.calls;
}

unfoldable pub consume : Thread → Thread
unfolding consume_events
consume t = with_producer (consume_events t.consumer (producer_of t)) t

-- The wait ends with `wake_up`, which is then cleared, or after 200 ms, and the loop goes on.
unfoldable pub round : Thread → Thread
unfolding consume
round t =
    if t.over
    then t
    else if t.m_running
    then (if t.inbox.wake_up t.m_descriptor
        then consume (record t {
          inbox = record t.inbox { wake_up = update t.inbox.wake_up t.m_descriptor false };
        })
        else t)
    else consume (record t { over = true })

-- `run`, which starts the thread.
unfoldable pub run : M EventExceptionT Thread (Unit {0})
unfolding clean_slots
run t =
    if t.m_running
    then thrown event_consumer_running t
    else ok tt (record t { consumer = clean_slots t.consumer; m_running = true; over = false })

-- What `join` does before it waits for the thread's end.
unfoldable pub join : Thread → Thread
join t = record t { m_running = false }

pub data Step : Type 0 where
  arrives : ℕ → Event → Step
  rounds joins : Step

unfoldable pub step : Step → Thread → Thread
unfolding receive_event round join
step (arrives cn e) t = record t { inbox = receive_event cn e t.inbox }
step rounds t = round t
step joins t = join t

unfoldable pub steps : List Step → Thread → Thread
unfolding step
steps [] t = t
steps (s ∷ list) t = steps list (step s t)
