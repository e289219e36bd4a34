-- ===== src/Consumer/Handover.antt =====
-- What `consume_events` hands to which slot, and what it leaves.
use sednl.Base.{
  ◌≡◌, ◌≢◌, refl, sym, ap, subst, ◌∙◌, ℕ, none, some, [], ◌∷◌, ◌++◌, append-nil, if◌then◌else◌, Map,
  Name, assign, at_or, at_or-assign_same, at_or-assign_other, same_name, same_name_sound,
  same_name_refl, Distinct, Distinct-assign, Bool-cases, inl, inr,
}
use mathlib.Core.Bool.{true≢false}
use sednl.Listener.Queue.{SafeQueue}
use sednl.Listener.Receive.{CnEvent}
use sednl.Consumer.Slots.{Slot, slot_for}
use sednl.Consumer.Consume.{on_event, Producer, process, consume_slots}
use sednl.Consumer.Calls.{
  each, calls_of, handed, first_set, HasName, Proper, process_lem, calls_of-append, calls_of-own,
  calls_of-foreign,
}

-- What a slot leaves of the queue that it is given.
abbrev pub rest_of : Slot → SafeQueue CnEvent → SafeQueue CnEvent
rest_of none queue = queue
rest_of (some f) queue = []

-- From `p` to `p'`, the queue of the name has gone to the slot.
pub record Handed (p p' : Producer) (k : Name) (slot : Slot) : Type 0 where
  pub queue : at_or [] p'.m_events k ≡ rest_of slot (at_or [] p.m_events k)
  pub made : calls_of k p'.calls ≡ calls_of k p.calls ++ handed slot (at_or [] p.m_events k)

pub none-Handed : (p : Producer) (k : Name) → Handed p p k none
none-Handed p k = record { queue = refl; made = sym (append-nil (calls_of k p.calls)) }

pub Handed-trans :
    (p q r : Producer) (k : Name) (s t : Slot)
    → Handed p q k s
    → Handed q r k t
    → Handed p r k (first_set s t)
Handed-trans p q r k none t h g = record {
  queue = g.queue ∙ ap (rest_of t) h.queue;
  made =
      g.made
      ∙ ap (λ l. l ++ handed t (at_or [] q.m_events k)) (h.made ∙ append-nil (calls_of k p.calls))
      ∙ ap (λ l. calls_of k p.calls ++ handed t l) h.queue;
}
Handed-trans p q r k (some f) t h g = record {
  queue = g.queue ∙ ap (rest_of t) h.queue ∙ rest_nil t;
  made =
      g.made
      ∙ ap (λ l. calls_of k q.calls ++ handed t l) h.queue
      ∙ ap (λ l. calls_of k q.calls ++ l) (handed_nil t)
      ∙ append-nil (calls_of k q.calls)
      ∙ h.made;
}
  where
    rest_nil : (t : Slot) → rest_of t [] ≡ []
    rest_nil none = refl
    rest_nil (some g) = refl

    handed_nil : (t : Slot) → handed t [] ≡ []
    handed_nil none = refl
    handed_nil (some g) = refl

stays_named :
    (k : Name) (slot : Slot) (q : SafeQueue CnEvent) → HasName k q → HasName k (rest_of slot q)
stays_named k none q h = h
stays_named k (some f) q h = tt

pub Handed-Proper :
    (p p' : Producer) (slot : Name → Slot)
    → ((k : Name) → Handed p p' k (slot k))
    → Proper p.m_events
    → Proper p'.m_events
Handed-Proper p p' slot h proper k =
    subst (HasName k) (sym ((h k).queue))
      (stays_named k (slot k) (at_or [] p.m_events k) (proper k))

-- The queue of one name, given to a callback.
abbrev one : Name → ℕ → Name → Slot
one n f k = if same_name n k then some f else none

hand_over : Name → ℕ → Producer → Producer
hand_over n f p = record p {
  m_events = assign p.m_events n [];
  calls = p.calls ++ each (on_event f) (at_or [] p.m_events n);
}

hand_over_lem :
    (n : Name) (f : ℕ) (p : Producer) (k : Name)
    → Proper p.m_events
    → Handed p (hand_over n f p) k (one n f k)
unfolding hand_over
hand_over_lem n f p k proper = elim (Bool-cases (same_name n k)) [
  | inl same ↦
      let e = same_name_sound n k same in
      let slot : some f ≡ one n f k = rw same refl in
      subst (Handed p (hand_over n f p) k) slot (record {
        queue =
            ap (at_or [] (assign p.m_events n [])) (sym e) ∙ at_or-assign_same [] p.m_events n [];
        made =
            calls_of-append k p.calls (each (on_event f) (at_or [] p.m_events n))
            ∙ ap (λ l. calls_of k p.calls ++ l)
                (ap (λ l. calls_of k (each (on_event f) (at_or [] p.m_events l))) e
                  ∙ calls_of-own k f (at_or [] p.m_events k) (proper k));
      })
  | inr other ↦
      let ne : n ≢ k =
        λ e. absurd (true≢false (sym (same_name_refl n) ∙ ap (same_name n) e ∙ other)) in
      let slot : none ≡ one n f k = rw other refl in
      subst (Handed p (hand_over n f p) k) slot (record {
        queue = at_or-assign_other [] p.m_events n k [] ne;
        made =
            calls_of-append k p.calls (each (on_event f) (at_or [] p.m_events n))
            ∙ ap (λ l. calls_of k p.calls ++ l)
                (calls_of-foreign k n f (at_or [] p.m_events n) ne (proper n));
      })
]

one_first :
    (n : Name) (f : ℕ) (slot : Slot) (k : Name)
    → first_set (one n f k) slot ≡ (if same_name n k then some f else slot)
one_first n f slot k = elim (Bool-cases (same_name n k)) [
  | inl same ↦ rw same refl
  | inr other ↦ rw other refl
]

consume_slots-hand_over :
    (n : Name) (f : ℕ) (slots : Map Slot) (p : Producer)
    → consume_slots ((n, some f) ∷ slots) p ≡ consume_slots slots (hand_over n f p)
unfolding consume_slots hand_over
consume_slots-hand_over n f slots p =
    ap
      (λ x.
        consume_slots slots
          (record p { m_events = assign p.m_events n x.1; calls = p.calls ++ x.0 }))
      (process_lem (on_event f) (at_or [] p.m_events n))

pub consume_slots_lem :
    (slots : Map Slot) (p : Producer) (k : Name)
    → Proper p.m_events
    → Handed p (consume_slots slots p) k (slot_for slots k)
unfolding consume_slots slot_for
consume_slots_lem [] p k proper = none-Handed p k
consume_slots_lem ((n, none) ∷ slots) p k proper = consume_slots_lem slots p k proper
consume_slots_lem ((n, some f) ∷ slots) p k proper =
    let q = hand_over n f p in
    let proper' = Handed-Proper p q (one n f) (λ j. hand_over_lem n f p j proper) proper in
    let both =
      Handed-trans p q (consume_slots slots q) k (one n f k) (slot_for slots k)
        (hand_over_lem n f p k proper) (consume_slots_lem slots q k proper') in
    subst (λ r. Handed p r k (if same_name n k then some f else slot_for slots k))
      (sym (consume_slots-hand_over n f slots p))
      (subst (Handed p (consume_slots slots q) k) (one_first n f (slot_for slots k) k) both)

pub consume_slots-m_links :
    (slots : Map Slot) (p : Producer) → (consume_slots slots p).m_links ≡ p.m_links
unfolding consume_slots
consume_slots-m_links [] p = refl
consume_slots-m_links ((n, none) ∷ slots) p = consume_slots-m_links slots p
consume_slots-m_links ((n, some f) ∷ slots) p = consume_slots-m_links slots (record p {
  m_events = assign p.m_events n (process (on_event f) (at_or [] p.m_events n)).1;
  calls = p.calls ++ (process (on_event f) (at_or [] p.m_events n)).0;
})

pub consume_slots-Distinct :
    (slots : Map Slot) (p : Producer)
    → Distinct p.m_events
    → Distinct (consume_slots slots p).m_events
unfolding consume_slots
consume_slots-Distinct [] p d = d
consume_slots-Distinct ((n, none) ∷ slots) p d = consume_slots-Distinct slots p d
consume_slots-Distinct ((n, some f) ∷ slots) p d =
    let (calls, queue) = process (on_event f) (at_or [] p.m_events n) in
    consume_slots-Distinct slots
      (record p { m_events = assign p.m_events n queue; calls = p.calls ++ calls })
      (Distinct-assign p.m_events n queue d)
