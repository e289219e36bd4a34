-- ===== src/Consumer/FromNetwork.antt =====
-- From the network to the callbacks: the event loop of a listener, and then a consumer.
use mathlib.Core.List.{map}
use sednl.Base.{
  ◌≡◌, refl, sym, ap, subst, ◌∙◌, ℕ, true, false, Option, some, List, [], ◌++◌, All, Map, Name,
  at_or, find, Distinct,
}
use sednl.Bytes.Host.{Host}
use sednl.Event.Pack.{Event}
use sednl.Listener.Attach.{contains}
use sednl.Listener.Receive.{CnEvent, Inbox}
use sednl.Listener.Delivery.{queue_of, named}
use sednl.Listener.Loop.{EventListener, looped, event_loop}
use sednl.Listener.Come.{Read, arrival, arrived, from}
use sednl.Listener.Flow.{Sends, IsRead}
use sednl.Listener.Interleaved.{all_come, Flow-start}
use sednl.Consumer.Slots.{EventConsumer}
use sednl.Consumer.Consume.{on_event, Producer, consume_events}
use sednl.Consumer.Calls.{each, calls_of, handed, handler, HasName, Proper}
use sednl.Consumer.Events.{consume_events_lem}
use sednl.Consumer.HandsOver.{receive_event-m_links, receive_event-Distinct, receive_event-Proper}

-- What a consumer sees of a listener, before its first call.
abbrev pub seen_by : EventListener → Producer
seen_by s = record {
  m_events = s.inbox.m_events;
  m_links = s.inbox.m_links;
  m_server_disconnected_queue = s.servers.m_server_disconnected_queue;
  m_disconnected_queue = s.inbox.connections.m_disconnected_queue;
  calls = [];
}

-- One queue for each name, with events of that name, and the links of a run.
abbrev Orderly : Map (Option ℕ) → Inbox → Type 0
Orderly links t = (t.m_links ≡ links) × Distinct t.m_events × Proper t.m_events

module _ ⦃host : Host⦄ where
  -- While several connections send, as for `event_loop`, to a listener whose queues are empty: when the
  -- loop has read all, a consumer calls the slot that handles a name with events of which those of
  -- each connection are the ones of that name that it sent, each once and in the order of sending. No
  -- event comes from elsewhere.
  pub event_loop-consume_events :
      (sender : ℕ → Host) (cns : List ℕ) (size : ℕ) (reads : List Read) (es : ℕ → List Event)
      (s : EventListener) (c : EventConsumer)
      → ((cn : ℕ)
          → contains cns cn ≡ true
          → Sends (sender cn) (es cn) (arrived cn reads) (s.inbox.m_buffer cn))
      → All (IsRead cns s) reads
      → s.inbox.connections.m_max_queue_size ≡ 0
      → s.inbox.m_events ≡ []
      → (end : EventListener) × (event_loop size (map arrival reads) s ≡ looped end)
        × ((k : Name) (f : ℕ)
            → handler c s.inbox.m_links k ≡ some f
            → (given : List CnEvent) × (calls_of k (consume_events c (seen_by end)).calls
                ≡ each (on_event f) given)
              × ((cn : ℕ) → contains cns cn ≡ true → from cn given ≡ named cn k (es cn))
              × ((cn : ℕ) → contains cns cn ≡ false → from cn given ≡ []))
  unfolding find
  event_loop-consume_events sender cns size reads es s c sends known room no_events =
      let P = Orderly s.inbox.m_links in
      let all =
        all_come sender cns P (λ cn t r h. h)
          (λ cn e t room' (l, d, p). (
            receive_event-m_links cn e t ∙ l,
            receive_event-Distinct cn e t d,
            receive_event-Proper cn e t room' p,
          ))
          size reads es s (Flow-start sender cns reads es s sends known room) in
      let none_queued : (j : Name) → queue_of s.inbox j ≡ [] =
        λ j. ap (λ m. at_or [] m j) no_events in
      let (links, distinct, proper) : P all.end.inbox = all.keeps (
        refl,
        subst Distinct (sym no_events) tt,
        λ j. subst (HasName j) (sym (none_queued j)) tt,
      ) in
      (
        all.end,
        all.ends,
        λ k f handles. (
          queue_of all.end.inbox k,
          (consume_events_lem c (seen_by all.end) k distinct proper).1
              ∙ ap (λ m. handed (handler c m k) (queue_of all.end.inbox k)) links
              ∙ ap (λ slot. handed slot (queue_of all.end.inbox k)) handles,
          λ cn m.
              (all.come cn m).queues k ∙ ap (λ q. from cn q ++ named cn k (es cn)) (none_queued k),
          λ cn m. all.others cn m k ∙ ap (from cn) (none_queued k),
        ),
      )
