-- ===== src/Consumer/Events.antt =====
-- `consume_events`, on all the queues of the listener.
use sednl.Base.{
  ◌≡◌, refl, sym, ap, subst, ◌∙◌, ℕ, Option, none, some, [], ◌∷◌, ◌++◌, if◌then◌else◌, Name, find,
  at_or, Distinct,
}
use sednl.Listener.Queue.{SafeQueue}
use sednl.Listener.Receive.{CnEvent}
use sednl.Consumer.Slots.{Slot, is_set, EventConsumer, slot_for}
use sednl.Consumer.Calls.{
  handed, calls_of, Proper, process_lem, unlinked, handler, first_set, each, calls_of-append,
}
use sednl.Consumer.Handover.{
  rest_of, Handed, none-Handed, Handed-trans, Handed-Proper, consume_slots_lem,
  consume_slots-m_links, consume_slots-Distinct,
}
use sednl.Consumer.Unlinked.{consume_unlinked_lem}
use sednl.Consumer.Consume.{
  on_disconnect, on_server_disconnect, Producer, process, consume_slots, consume_unlinked,
  consume_others, consume_servers, consume_disconnected, consume_events,
}

consume_others_lem :
    (slot : Slot) (p : Producer) (k : Name)
    → Distinct p.m_events
    → Proper p.m_events
    → Handed p (consume_others slot p) k (unlinked (find p.m_links k) slot)
unfolding consume_others
consume_others_lem none p k d proper =
    subst (Handed p p k) (sym (unlinked_none (find p.m_links k))) (none-Handed p k)
  where
    unlinked_none : (o : Option (Option ℕ)) → unlinked o none ≡ none
    unlinked_none none = refl
    unlinked_none (some l) = refl
consume_others_lem (some f) p k d proper =
    let served = consume_unlinked_lem f p.m_links p.m_events k d proper in
    record {
      queue = served.left;
      made =
          calls_of-append k p.calls (consume_unlinked f p.m_links p.m_events).0
          ∙ ap (λ l. calls_of k p.calls ++ l) served.called;
    }

calls_of-servers :
    (k : Name) (f : ℕ) (q : SafeQueue ℕ) → calls_of k (each (on_server_disconnect f) q) ≡ []
calls_of-servers k f [] = refl
calls_of-servers k f (x ∷ q) = calls_of-servers k f q

calls_of-disconnected :
    (k : Name) (f : ℕ) (q : SafeQueue ℕ) → calls_of k (each (on_disconnect f) q) ≡ []
calls_of-disconnected k f [] = refl
calls_of-disconnected k f (x ∷ q) = calls_of-disconnected k f q

consume_servers_lem :
    (slot : Slot) (p : Producer) (k : Name) → Handed p (consume_servers slot p) k none
unfolding consume_servers
consume_servers_lem none p k = none-Handed p k
consume_servers_lem (some f) p k = record {
  queue = refl;
  made =
      calls_of-append k p.calls (process (on_server_disconnect f) p.m_server_disconnected_queue).0
      ∙ ap (λ x. calls_of k p.calls ++ calls_of k x.0)
          (process_lem (on_server_disconnect f) p.m_server_disconnected_queue)
      ∙ ap (λ l. calls_of k p.calls ++ l) (calls_of-servers k f p.m_server_disconnected_queue);
}

consume_disconnected_lem :
    (slot : Slot) (p : Producer) (k : Name) → Handed p (consume_disconnected slot p) k none
unfolding consume_disconnected
consume_disconnected_lem none p k = none-Handed p k
consume_disconnected_lem (some f) p k = record {
  queue = refl;
  made =
      calls_of-append k p.calls (process (on_disconnect f) p.m_disconnected_queue).0
      ∙ ap (λ x. calls_of k p.calls ++ calls_of k x.0)
          (process_lem (on_disconnect f) p.m_disconnected_queue)
      ∙ ap (λ l. calls_of k p.calls ++ l) (calls_of-disconnected k f p.m_disconnected_queue);
}

first_set-none : (slot : Slot) → first_set slot none ≡ slot
first_set-none none = refl
first_set-none (some f) = refl

rest_if : (slot : Slot) (q : SafeQueue CnEvent) → rest_of slot q ≡ (if is_set slot then [] else q)
rest_if none q = refl
rest_if (some f) q = refl

-- `consume_events` empties the queue of each name that has a slot of its own, or none and no link in
-- the listener while there is a slot for all events. The events go to that slot, each once and in
-- order; the other queues stay as they are. The listener has one queue for each name, and in it
-- events of that name.
pub consume_events_lem :
    (c : EventConsumer) (p : Producer) (k : Name)
    → Distinct p.m_events
    → Proper p.m_events
    → (let slot = handler c p.m_links k in
        let queue = at_or [] p.m_events k in
        (at_or [] (consume_events c p).m_events k ≡ (if is_set slot then [] else queue))
        × (calls_of k (consume_events c p).calls ≡ calls_of k p.calls ++ handed slot queue))
unfolding consume_events
consume_events_lem c p k d proper =
    let q = consume_slots c.m_slots p in
    let r = consume_others c.m_on_event_slot q in
    let t = consume_servers c.m_on_server_disconnect_slot r in
    let links = consume_slots-m_links c.m_slots p in
    let first : (j : Name) → Handed p q j (slot_for c.m_slots j) =
      λ j. consume_slots_lem c.m_slots p j proper in
    let second =
      subst (λ l. Handed q r k (unlinked (find l k) c.m_on_event_slot)) links
        (consume_others_lem c.m_on_event_slot q k (consume_slots-Distinct c.m_slots p d)
          (Handed-Proper p q (slot_for c.m_slots) first proper)) in
    let slot = handler c p.m_links k in
    let all =
      Handed-trans p t (consume_disconnected c.m_on_disconnect_slot t) k (first_set slot none) none
        (Handed-trans p r t k slot none
          (Handed-trans p q r k (slot_for c.m_slots k)
            (unlinked (find p.m_links k) c.m_on_event_slot) (first k) second)
          (consume_servers_lem c.m_on_server_disconnect_slot r k))
        (consume_disconnected_lem c.m_on_disconnect_slot t k) in
    let result =
      subst (Handed p (consume_disconnected c.m_on_disconnect_slot t) k)
        (first_set-none (first_set slot none) ∙ first_set-none slot) all in
    (result.queue ∙ rest_if slot (at_or [] p.m_events k), result.made)
