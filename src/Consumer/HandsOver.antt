-- ===== src/Consumer/HandsOver.antt =====
-- What the thread of a consumer has called, after any steps.
use sednl.Base.{
  ◌≡◌, refl, sym, ap, subst, ◌∙◌, ℕ, Bool, true, false, none, some, List, [], ◌∷◌, ◌++◌,
  if◌then◌else◌, Name, Distinct, Distinct-assign, All-append, append_assoc, append-nil, same_name,
  same_name_sound, Bool-cases, inl, inr,
}
use sednl.Event.Pack.{Event}
use sednl.Listener.Queue.{SafeQueue}
use sednl.Listener.Attach.{update}
use sednl.Listener.Receive.{CnEvent, Inbox, receive_event}
use sednl.Listener.Delivery.{queue_of, named, deliver_one, receive_event_shape}
use sednl.Consumer.Slots.{Slot, is_set}
use sednl.Consumer.Consume.{on_event, consume_events}
use sednl.Consumer.Calls.{calls_of, handed, handler, HasName, Proper}
use sednl.Consumer.Events.{consume_events_lem}
use sednl.Consumer.Kept.{consume_events-Kept}
use sednl.Consumer.Thread.{
  Thread, producer_of, consume, round, join, Step, arrives, rounds, joins, step, steps,
}

-- The events of the name that have arrived, in order.
abbrev pub arrived : Name → List Step → SafeQueue CnEvent
arrived k [] = []
arrived k (arrives cn e ∷ list) = named cn k (e ∷ []) ++ arrived k list
arrived k (rounds ∷ list) = arrived k list
arrived k (joins ∷ list) = arrived k list

-- What has been called for a name and what its queue will have called are the events so far.
pub record Holds (slot : Slot) (k : Name) (so_far : SafeQueue CnEvent) (t : Thread) : Type 0 where
  pub unbounded : t.inbox.connections.m_max_queue_size ≡ 0
  pub distinct : Distinct t.inbox.m_events
  pub proper : Proper t.inbox.m_events
  pub slot_of : handler t.consumer t.inbox.m_links k ≡ slot
  pub sum : calls_of k t.calls ++ handed slot (queue_of t.inbox k) ≡ handed slot so_far

handed-append :
    (slot : Slot) (xs ys : SafeQueue CnEvent)
    → handed slot (xs ++ ys) ≡ handed slot xs ++ handed slot ys
handed-append none xs ys = refl
handed-append (some f) [] ys = refl
handed-append (some f) (x ∷ xs) ys = ap (λ l. on_event f x ∷ l) (handed-append (some f) xs ys)

pub receive_event-m_links :
    (cn : ℕ) (e : Event) (s : Inbox) → (receive_event cn e s).m_links ≡ s.m_links
receive_event-m_links cn e s = ap (λ t. t.m_links) (receive_event_shape cn s e).2

pub receive_event-Distinct :
    (cn : ℕ) (e : Event) (s : Inbox)
    → Distinct s.m_events
    → Distinct (receive_event cn e s).m_events
receive_event-Distinct cn e s d =
    let (q, w, p) = receive_event_shape cn s e in
    subst (λ t. Distinct t.m_events) (sym p) (Distinct-assign s.m_events e.m_name q d)

named-HasName : (cn : ℕ) (k : Name) (e : Event) → HasName k (named cn k (e ∷ []))
named-HasName cn k e = elim (Bool-cases (same_name e.m_name k)) [
  | inl same ↦
      let here : (cn, e) ∷ [] ≡ named cn k (e ∷ []) = rw same refl in
      subst (HasName k) here (same_name_sound e.m_name k same, tt)
  | inr other ↦ let here : [] ≡ named cn k (e ∷ []) = rw other refl in subst (HasName k) here tt
]

pub receive_event-Proper :
    (cn : ℕ) (e : Event) (s : Inbox)
    → s.connections.m_max_queue_size ≡ 0
    → Proper s.m_events
    → Proper (receive_event cn e s).m_events
receive_event-Proper cn e s room proper j =
    subst (HasName j) (sym ((deliver_one cn {s = s} e room).queues j)) (
      All-append (λ x. x.1.m_name ≡ j) (queue_of s j) (named cn j (e ∷ [])) (proper j)
        (named-HasName cn j e))

arrives-Holds :
    {slot : Slot} {k : Name} {so_far : SafeQueue CnEvent} {t : Thread} (cn : ℕ) (e : Event)
    → Holds slot k so_far t
    → Holds slot k (so_far ++ named cn k (e ∷ [])) (step (arrives cn e) t)
unfolding step
arrives-Holds {slot} {k} {so_far} {t} cn e h =
    let d = deliver_one cn {s = t.inbox} e h.unbounded in
    record {
      unbounded = d.unbounded ∙ h.unbounded;
      distinct = receive_event-Distinct cn e t.inbox h.distinct;
      proper = receive_event-Proper cn e t.inbox h.unbounded h.proper;
      slot_of = ap (λ m. handler t.consumer m k) (receive_event-m_links cn e t.inbox) ∙ h.slot_of;
      sum =
          ap (λ q. calls_of k t.calls ++ handed slot q) (d.queues k)
          ∙ ap (λ l. calls_of k t.calls ++ l)
              (handed-append slot (queue_of t.inbox k) (named cn k (e ∷ [])))
          ∙ sym (
              append_assoc (calls_of k t.calls) (handed slot (queue_of t.inbox k))
                (handed slot (named cn k (e ∷ []))))
          ∙ ap (λ l. l ++ handed slot (named cn k (e ∷ []))) h.sum
          ∙ sym (handed-append slot so_far (named cn k (e ∷ [])));
    }

handed_if : (slot : Slot) (q : SafeQueue CnEvent) → handed slot (if is_set slot then [] else q) ≡ []
handed_if none q = refl
handed_if (some f) q = refl

named_if :
    (k : Name) (slot : Slot) (q : SafeQueue CnEvent)
    → HasName k q
    → HasName k (if is_set slot then [] else q)
named_if k none q h = h
named_if k (some f) q h = tt

pub consume-Holds :
    {slot : Slot} {k : Name} {so_far : SafeQueue CnEvent} {t : Thread}
    → Holds slot k so_far t
    → Holds slot k so_far (consume t) × (calls_of k (consume t).calls ≡ handed slot so_far)
unfolding consume
consume-Holds {slot} {k} {so_far} {t} h =
    let p = producer_of t in
    let q = queue_of t.inbox k in
    let (left, made) = consume_events_lem t.consumer p k h.distinct h.proper in
    let all : calls_of k (consume_events t.consumer p).calls ≡ handed slot so_far =
      made ∙ ap (λ s. calls_of k t.calls ++ handed s q) h.slot_of ∙ h.sum in
    (
      record {
        unbounded = h.unbounded;
        distinct = (consume_events-Kept t.consumer p).1 h.distinct;
        proper = λ j.
            subst (HasName j) (sym (consume_events_lem t.consumer p j h.distinct h.proper).0)
              (named_if j (handler t.consumer p.m_links j) (queue_of t.inbox j) (h.proper j));
        slot_of = h.slot_of;
        sum =
            ap (λ l. calls_of k (consume_events t.consumer p).calls ++ handed slot l) left
            ∙ ap (λ l. calls_of k (consume_events t.consumer p).calls ++ l)
                (ap (λ s. handed slot (if is_set s then [] else q)) h.slot_of ∙ handed_if slot q)
            ∙ append-nil (calls_of k (consume_events t.consumer p).calls)
            ∙ all;
      },
      all,
    )

pub over-Holds :
    {slot : Slot} {k : Name} {so_far : SafeQueue CnEvent} {t : Thread}
    → Holds slot k so_far t
    → Holds slot k so_far (record t { over = true })
over-Holds h = record {
  unbounded = h.unbounded;
  distinct = h.distinct;
  proper = h.proper;
  slot_of = h.slot_of;
  sum = h.sum;
}

pub join-Holds :
    {slot : Slot} {k : Name} {so_far : SafeQueue CnEvent} {t : Thread}
    → Holds slot k so_far t
    → Holds slot k so_far (record t { m_running = false })
join-Holds h = record {
  unbounded = h.unbounded;
  distinct = h.distinct;
  proper = h.proper;
  slot_of = h.slot_of;
  sum = h.sum;
}

arrived-cons :
    (k : Name) (s : Step) (list : List Step)
    → arrived k (s ∷ list) ≡ arrived k (s ∷ []) ++ arrived k list
arrived-cons k (arrives cn e) list =
    ap (λ l. l ++ arrived k list) (sym (append-nil (named cn k (e ∷ []))))
arrived-cons k rounds list = refl
arrived-cons k joins list = refl

if_holds : (P : Thread → Type 0) (b : Bool) (x y : Thread) → P x → P y → P (if b then x else y)
if_holds P true x y h g = h
if_holds P false x y h g = g

-- A round, whatever the thread finds.
round-Holds :
    {slot : Slot} {k : Name} {so_far : SafeQueue CnEvent} {t : Thread}
    → Holds slot k so_far t
    → Holds slot k so_far (round t)
unfolding round
round-Holds {slot} {k} {so_far} {t} h =
    let awake : Holds slot k so_far (record t {
      inbox = record t.inbox { wake_up = update t.inbox.wake_up t.m_descriptor false };
    }) =
      record {
        unbounded = h.unbounded;
        distinct = h.distinct;
        proper = h.proper;
        slot_of = h.slot_of;
        sum = h.sum;
      } in
    if_holds (Holds slot k so_far) t.over _ _ h (
      if_holds (Holds slot k so_far) t.m_running _ _
        (if_holds (Holds slot k so_far) (t.inbox.wake_up t.m_descriptor) _ _ (consume-Holds awake).0
          h)
        (consume-Holds (over-Holds h)).0)

step-Holds :
    {slot : Slot} {k : Name} {so_far : SafeQueue CnEvent} {t : Thread} (s : Step)
    → Holds slot k so_far t
    → Holds slot k (so_far ++ arrived k (s ∷ [])) (step s t)
unfolding step join
step-Holds {slot} {k} {so_far} {t} (arrives cn e) h =
    subst (λ l. Holds slot k (so_far ++ l) (step (arrives cn e) t))
      (sym (append-nil (named cn k (e ∷ [])))) (arrives-Holds cn e h)
step-Holds {slot} {k} {so_far} {t} rounds h =
    subst (λ l. Holds slot k l (round t)) (sym (append-nil so_far)) (round-Holds h)
step-Holds {slot} {k} {so_far} {t} joins h =
    subst (λ l. Holds slot k l (join t)) (sym (append-nil so_far)) (join-Holds h)

pub steps-Holds :
    {slot : Slot} {k : Name} (list : List Step) (so_far : SafeQueue CnEvent) (t : Thread)
    → Holds slot k so_far t
    → Holds slot k (so_far ++ arrived k list) (steps list t)
unfolding steps
steps-Holds {slot} {k} [] so_far t h = subst (λ l. Holds slot k l t) (sym (append-nil so_far)) h
steps-Holds {slot} {k} (s ∷ list) so_far t h =
    subst (λ l. Holds slot k l (steps list (step s t)))
      (append_assoc so_far (arrived k (s ∷ [])) (arrived k list)
        ∙ ap (λ l. so_far ++ l) (sym (arrived-cons k s list)))
      (steps-Holds list (so_far ++ arrived k (s ∷ [])) (step s t) (step-Holds s h))
