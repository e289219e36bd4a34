-- ===== src/Consumer/Unclaimed.antt =====
-- A name that consumers bind with empty slots only.
use sednl.Base.{
  ◌≡◌, refl, sym, ap, subst, ◌∙◌, ℕ, true, false, ByteArray, Option, none, some, List, [], arith,
  Name, find, Bool-cases, inl, inr, at_or, or_default, Distinct, if◌then◌else◌,
}
use mathlib.Core.Option.{none-ne-some}
use sednl.Exceptions.{EventExceptionT, Result, ok}
use sednl.Consumer.Slots.{EventConsumer, slot_for, is_set}
use sednl.Consumer.Consume.{Producer, consume_events}
use sednl.Consumer.Calls.{Proper, handler, first_set, unlinked}
use sednl.Consumer.Events.{consume_events_lem}
use sednl.Listener.Links.{Links, named, on_event, Link, link_in, link_consumers}
use sednl.Listener.Claims.{claims, claimant, is_bound, is_some, collides}
use sednl.Listener.LinkState.{no_links}
use sednl.Listener.Linked.{link_consumers-collision, link_consumers-links}
use sednl.Listener.Queue.{is_full}
use sednl.Listener.Receive.{Inbox, notify_consumer, link_of, receive_event}

abbrev links_of : Result EventExceptionT Links (Unit {0}) → Option Links
links_of (ok a t) = some t
links_of _ = none

null_link : (o : Option (Option ℕ)) → is_some o ≡ true → or_default none o ≡ none → o ≡ some none
null_link none h e = absurd (ground arith)
null_link (some o) h e = ap some e

-- The listener has an entry for the name, with a null pointer.
find-empty_slot :
    (consumers : List (ℕ × EventConsumer)) (t : Links) (name : Name)
    → link_consumers consumers no_links ≡ ok tt t
    → is_bound (claims consumers) name ≡ true
    → claimant (claims consumers) (named name) ≡ none
    → find t.m_links name ≡ some none
unfolding link_in
find-empty_slot consumers t name p bound unclaimed =
    elim (Bool-cases (collides (claims consumers))) [
      | inl clash ↦
          absurd (none-ne-some t (ap links_of (sym (link_consumers-collision consumers clash) ∙ p)))
      | inr clear ↦
          let (t', p', links, keys) = link_consumers-links consumers clear in
          let same : some t' ≡ some t = ap links_of (sym p' ∙ p) in
          subst (λ o. or_default (find t'.m_links name) (found o) ≡ some none) same
            (null_link (find t'.m_links name) (keys name ∙ bound) (links (named name) ∙ unclaimed))
    ]
  where
    found : Option Links → Option (Option (Option ℕ))
    found none = none
    found (some u) = some (find u.m_links name)

link_in-claimant :
    (consumers : List (ℕ × EventConsumer)) (t : Links) (l : Link)
    → link_consumers consumers no_links ≡ ok tt t
    → link_in l t ≡ claimant (claims consumers) l
link_in-claimant consumers t l p = elim (Bool-cases (collides (claims consumers))) [
  | inl clash ↦
      absurd (none-ne-some t (ap links_of (sym (link_consumers-collision consumers clash) ∙ p)))
  | inr clear ↦
      let (t', p', links, _) = link_consumers-links consumers clear in
      subst (λ o. link_in l (or_default no_links o) ≡ claimant (claims consumers) l)
        (ap links_of (sym p' ∙ p)) (links l)
]

link_of-null :
    (s : Inbox) (name : Name) → find s.m_links name ≡ some none → link_of s name ≡ s.m_on_event_link
unfolding link_of
link_of-null s name h = rw (link_of, h) refl

woken_by :
    (cn : ℕ) (s : Inbox) (name : Name) (packet : ByteArray) {woken : ℕ}
    → is_full s.connections.m_max_queue_size (at_or [] s.m_events name) ≡ false
    → link_of s name ≡ some woken
    → (receive_event cn (record { m_name = name; m_packet = packet }) s).wake_up woken ≡ true
unfolding receive_event
woken_by cn s name packet {woken} room here =
    rw (room, here, receive_event, notify_consumer) (ground arith)

-- If every slot bound to a name was empty when the listener linked its consumers, and one consumer had
-- a slot for all events, the listener wakes that one for an event of that name that its queue has room
-- for. But no consumer without a slot for the name takes the events from that queue, not even that one.
pub consume_events-empty_slot :
    (consumers : List (ℕ × EventConsumer)) (t : Links) (name : Name) (s : Inbox) (c : EventConsumer)
    (p : Producer) (cn woken : ℕ) (packet : ByteArray)
    → link_consumers consumers no_links ≡ ok tt t
    → is_bound (claims consumers) name ≡ true
    → claimant (claims consumers) (named name) ≡ none
    → claimant (claims consumers) on_event ≡ some woken
    → is_full s.connections.m_max_queue_size (at_or [] s.m_events name) ≡ false
    → s.m_links ≡ t.m_links
    → s.m_on_event_link ≡ t.m_on_event_link
    → p.m_links ≡ t.m_links
    → slot_for c.m_slots name ≡ none
    → Distinct p.m_events
    → Proper p.m_events
    → ((receive_event cn (record { m_name = name; m_packet = packet }) s).wake_up woken ≡ true)
      × (at_or [] (consume_events c p).m_events name ≡ at_or [] p.m_events name)
unfolding link_in
consume_events-empty_slot consumers t name s c p cn woken packet linked bound unclaimed takes room
      hs he hp empty d proper =
    let null = find-empty_slot consumers t name linked bound unclaimed in
    let nobody : handler c p.m_links name ≡ none =
      ap (λ x. first_set x (unlinked (find p.m_links name) c.m_on_event_slot)) empty
      ∙ ap (λ o. unlinked o c.m_on_event_slot) (ap (λ m. find m name) hp ∙ null) in
    (
      woken_by cn s name packet room (
          link_of-null s name (ap (λ m. find m name) hs ∙ null)
          ∙ he
          ∙ link_in-claimant consumers t on_event linked
          ∙ takes),
      (consume_events_lem c p name d proper).0
          ∙ ap (λ x. if is_set x then [] else at_or [] p.m_events name) nobody,
    )
