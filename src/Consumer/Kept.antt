-- ===== src/Consumer/Kept.antt =====
-- `consume_events` keeps the links and the keys of the queues.
use sednl.Base.{
  ◌≡◌, refl, sym, ap, subst, ◌∙◌, ℕ, Option, none, some, [], ◌∷◌, if◌then◌else◌, Map, Name, find,
  same_name, Distinct, Bool-cases, inl, inr,
}
use mathlib.Core.Option.{none-ne-some}
use sednl.Listener.Queue.{SafeQueue}
use sednl.Listener.Receive.{CnEvent}
use sednl.Consumer.Slots.{Slot, EventConsumer}
use sednl.Consumer.Calls.{unlinked}
use sednl.Consumer.Handover.{rest_of, consume_slots-m_links, consume_slots-Distinct}
use sednl.Consumer.Unlinked.{consume_unlinked-round}
use sednl.Consumer.Consume.{
  Producer, consume_slots, consume_unlinked, consume_others, consume_servers, consume_disconnected,
  consume_events,
}

-- The loop over the queues keeps their names.
find-consume_unlinked :
    (f : ℕ) (links : Map (Option ℕ)) (m : Map (SafeQueue CnEvent)) (k : Name)
    → find m k ≡ none
    → find (consume_unlinked f links m).1 k ≡ none
unfolding find
find-consume_unlinked f links [] k h = unfold consume_unlinked in refl
find-consume_unlinked f links ((n, q) ∷ m) k h = elim (Bool-cases (same_name n k)) [
  | inl same ↦ absurd (none-ne-some q (sym h ∙ ap (λ b. if b then some q else find m k) same))
  | inr other ↦
      let rest : find m k ≡ none = ap (λ b. if b then some q else find m k) (sym other) ∙ h in
      let slot = unlinked (find links n) (some f) in
      ap (λ r. find r.1 k) (consume_unlinked-round f links m n q)
      ∙ ap (λ b. if b then some (rest_of slot q) else find (consume_unlinked f links m).1 k) other
      ∙ find-consume_unlinked f links m k rest
]

Distinct-consume_unlinked :
    (f : ℕ) (links : Map (Option ℕ)) (m : Map (SafeQueue CnEvent))
    → Distinct m
    → Distinct (consume_unlinked f links m).1
Distinct-consume_unlinked f links [] d = unfold consume_unlinked in tt
Distinct-consume_unlinked f links ((n, q) ∷ m) d =
    subst (λ r. Distinct r.1) (sym (consume_unlinked-round f links m n q))
      (find-consume_unlinked f links m n d.0, Distinct-consume_unlinked f links m d.1)

-- What the loops keep.
abbrev Kept : Producer → Producer → Type 0
Kept p p' = (p'.m_links ≡ p.m_links) × (Distinct p.m_events → Distinct p'.m_events)

others-Kept : (slot : Slot) (p : Producer) → Kept p (consume_others slot p)
unfolding consume_others
others-Kept none p = (refl, λ d. d)
others-Kept (some f) p = (refl, λ d. Distinct-consume_unlinked f p.m_links p.m_events d)

servers-Kept : (slot : Slot) (p : Producer) → Kept p (consume_servers slot p)
unfolding consume_servers
servers-Kept none p = (refl, λ d. d)
servers-Kept (some f) p = (refl, λ d. d)

disconnected-Kept : (slot : Slot) (p : Producer) → Kept p (consume_disconnected slot p)
unfolding consume_disconnected
disconnected-Kept none p = (refl, λ d. d)
disconnected-Kept (some f) p = (refl, λ d. d)

pub consume_events-Kept :
    (c : EventConsumer) (p : Producer)
    → ((consume_events c p).m_links ≡ p.m_links)
      × (Distinct p.m_events → Distinct (consume_events c p).m_events)
unfolding consume_events
consume_events-Kept c p =
    let q = consume_slots c.m_slots p in
    let r = consume_others c.m_on_event_slot q in
    let t = consume_servers c.m_on_server_disconnect_slot r in
    let (lr, dr) = others-Kept c.m_on_event_slot q in
    let (lt, dt) = servers-Kept c.m_on_server_disconnect_slot r in
    let (lu, du) = disconnected-Kept c.m_on_disconnect_slot t in
    (
      lu ∙ lt ∙ lr ∙ consume_slots-m_links c.m_slots p,
      λ d. du (dt (dr (consume_slots-Distinct c.m_slots p d))),
    )
