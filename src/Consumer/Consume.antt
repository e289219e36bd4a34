-- ===== src/Consumer/Consume.antt =====
-- `consume_events` and the loops it runs over the queues of the listener. A callback that throws is
-- caught, and what a callback does to the listener's queues is not modelled.
use sednl.Base.{
  ℕ, Option, none, some, List, [], ◌∷◌, ◌++◌, Map, find, assign, at_or, zero, suc, length,
}
use sednl.Listener.Queue.{SafeQueue, pop}
use sednl.Listener.Receive.{CnEvent}
use sednl.Consumer.Slots.{Slot, EventConsumer}

-- A call of a callback, with what it gets.
pub data Call : Type 0 where
  on_event : ℕ → CnEvent → Call
  on_disconnect : ℕ → ℕ → Call
  on_server_disconnect : ℕ → ℕ → Call

-- The fields of the listener that `consume_events` uses, and the calls made so far.
pub record Producer : Type 0 where
  pub m_events : Map (SafeQueue CnEvent)
  pub m_links : Map (Option ℕ)
  pub m_server_disconnected_queue : SafeQueue ℕ
  pub m_disconnected_queue : SafeQueue ℕ
  pub calls : List Call

module _ {A : Type 0} where
  -- `process`: the queue is popped until it is empty, in at most so many rounds.
  unfoldable pub process_loop : ℕ → (A → Call) → SafeQueue A → List Call × SafeQueue A
  unfolding pop
  process_loop zero slot_call queue = ([], queue)
  process_loop (suc n) slot_call queue = elim (pop queue) [
    | none ↦ ([], queue)
    | some (e, rest) ↦
        let (calls, end) = process_loop n slot_call rest in (slot_call e ∷ calls, end)
  ]

  unfoldable pub process : (A → Call) → SafeQueue A → List Call × SafeQueue A
  unfolding process_loop
  process slot_call queue = process_loop (suc (length queue)) slot_call queue

-- `PROCESS_MESSAGES(pair.second, m_producer->m_events[pair.first])`, for each slot.
unfoldable pub consume_slots : Map Slot → Producer → Producer
unfolding process assign find
consume_slots [] p = p
consume_slots ((name, none) ∷ slots) p = consume_slots slots p
consume_slots ((name, some f) ∷ slots) p =
    let (calls, queue) = process (on_event f) (at_or [] p.m_events name) in
    consume_slots slots
      (record p { m_events = assign p.m_events name queue; calls = p.calls ++ calls })

-- The loop over the listener's queues, for those that no consumer is linked to.
unfoldable pub consume_unlinked :
    ℕ → Map (Option ℕ) → Map (SafeQueue CnEvent) → List Call × Map (SafeQueue CnEvent)
unfolding process find
consume_unlinked f links [] = ([], [])
consume_unlinked f links ((name, queue) ∷ events) =
    let (calls, rest) = consume_unlinked f links events in
    elim (find links name) [
      | some link ↦ (calls, (name, queue) ∷ rest)
      | none ↦ let (done, end) = process (on_event f) queue in (done ++ calls, (name, end) ∷ rest)
    ]

unfoldable pub consume_others : Slot → Producer → Producer
unfolding consume_unlinked
consume_others none p = p
consume_others (some f) p =
    let (calls, events) = consume_unlinked f p.m_links p.m_events in
    record p { m_events = events; calls = p.calls ++ calls }

unfoldable pub consume_servers : Slot → Producer → Producer
unfolding process
consume_servers none p = p
consume_servers (some f) p =
    let (calls, queue) = process (on_server_disconnect f) p.m_server_disconnected_queue in
    record p { m_server_disconnected_queue = queue; calls = p.calls ++ calls }

unfoldable pub consume_disconnected : Slot → Producer → Producer
unfolding process
consume_disconnected none p = p
consume_disconnected (some f) p =
    let (calls, queue) = process (on_disconnect f) p.m_disconnected_queue in
    record p { m_disconnected_queue = queue; calls = p.calls ++ calls }

-- `consume_events` with a producer.
unfoldable pub consume_events : EventConsumer → Producer → Producer
unfolding consume_slots consume_others consume_servers consume_disconnected
consume_events c p = consume_disconnected c.m_on_disconnect_slot (
    consume_servers c.m_on_server_disconnect_slot
      (consume_others c.m_on_event_slot (consume_slots c.m_slots p)))
