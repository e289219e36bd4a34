-- ===== src/Consumer/Calls.antt =====
-- The calls that the processing of a queue makes, by the name of their event.
use sednl.Base.{
  ◌≡◌, ◌≢◌, refl, sym, ap, subst, ◌∙◌, arith, ℕ, zero, suc, ◌≤◌, true, false, Option, none, some,
  List, [], ◌∷◌, ◌++◌, length, if◌then◌else◌, All, Map, Name, find, at_or, or_default, same_name,
  same_name_sound, same_name_refl, ne→same_name_false, Bool-cases, inl, inr,
}
use sednl.Listener.Queue.{SafeQueue, pop}
use sednl.Listener.Receive.{CnEvent}
use sednl.Consumer.Slots.{Slot, EventConsumer, slot_for}
use sednl.Consumer.Consume.{
  Call, on_event, on_disconnect, on_server_disconnect, process_loop, process,
}

abbrev pub each {ℓ} : {A B : Type ℓ} → (A → B) → List A → List B
each f [] = []
each f (x ∷ xs) = f x ∷ each f xs

-- The calls for events of a name.
abbrev pub calls_of : Name → List Call → List Call
calls_of k [] = []
calls_of k (on_event f (cn, e) ∷ calls) =
    let rest = calls_of k calls in if same_name e.m_name k then on_event f (cn, e) ∷ rest else rest
calls_of k (on_disconnect f cn ∷ calls) = calls_of k calls
calls_of k (on_server_disconnect f s ∷ calls) = calls_of k calls

-- The events of a queue, given to a slot.
abbrev pub handed : Slot → SafeQueue CnEvent → List Call
handed none queue = []
handed (some f) queue = each (on_event f) queue

-- The slot that the queue of a name goes to: the one bound to the name, else the one for all events
-- if the listener has no link for the name.
abbrev pub unlinked : Option (Option ℕ) → Slot → Slot
unlinked none slot = slot
unlinked (some link) slot = none

abbrev pub first_set : Slot → Slot → Slot
first_set (some f) slot = some f
first_set none slot = slot

abbrev pub handler : EventConsumer → Map (Option ℕ) → Name → Slot
handler c links name =
    first_set (slot_for c.m_slots name) (unlinked (find links name) c.m_on_event_slot)

-- The events in a queue have its name.
abbrev pub HasName : Name → SafeQueue CnEvent → Type 0
HasName k queue = All (λ x. x.1.m_name ≡ k) queue

abbrev pub Proper : Map (SafeQueue CnEvent) → Type 0
Proper events = (k : Name) → HasName k (at_or [] events k)

pub Proper-cons :
    (n : Name) (q : SafeQueue CnEvent) (m : Map (SafeQueue CnEvent))
    → HasName n q
    → Proper m
    → Proper ((n, q) ∷ m)
unfolding find
Proper-cons n q m h proper k = elim (Bool-cases (same_name n k)) [
  | inl same ↦
      subst (HasName k) (sym (ap (λ b. or_default [] (if b then some q else find m k)) same))
        (subst (λ l. HasName l q) (same_name_sound n k same) h)
  | inr other ↦
      subst (HasName k) (sym (ap (λ b. or_default [] (if b then some q else find m k)) other))
        (proper k)
]

process_loop_lem :
    {A : Type 0} (call : A → Call) (n : ℕ) (queue : SafeQueue A)
    → length queue ≤ n
    → process_loop (suc n) call queue ≡ (each call queue, [])
unfolding process_loop pop
process_loop_lem call n [] h = refl
process_loop_lem call zero (x ∷ queue) h = absurd (omega arith)
process_loop_lem call (suc n) (x ∷ queue) h =
    ap (λ p. (call x ∷ p.0, p.1)) (process_loop_lem call n queue (omega arith))

-- `process` gives a callback all that the queue holds, in order.
pub process_lem :
    {A : Type 0} (call : A → Call) (queue : SafeQueue A)
    → process call queue ≡ (each call queue, [])
unfolding process
process_lem call queue = process_loop_lem call (length queue) queue (omega arith)

pub calls_of-append :
    (k : Name) (xs ys : List Call) → calls_of k (xs ++ ys) ≡ calls_of k xs ++ calls_of k ys
calls_of-append k [] ys = refl
calls_of-append k (on_event f (cn, e) ∷ xs) ys = elim (Bool-cases (same_name e.m_name k)) [
  | inl same ↦ rw same (ap (λ l. on_event f (cn, e) ∷ l) (calls_of-append k xs ys))
  | inr other ↦ rw other (calls_of-append k xs ys)
]
calls_of-append k (on_disconnect f cn ∷ xs) ys = calls_of-append k xs ys
calls_of-append k (on_server_disconnect f s ∷ xs) ys = calls_of-append k xs ys

pub calls_of-own :
    (k : Name) (f : ℕ) (queue : SafeQueue CnEvent)
    → HasName k queue
    → calls_of k (each (on_event f) queue) ≡ each (on_event f) queue
calls_of-own k f [] h = refl
calls_of-own k f ((cn, e) ∷ queue) h =
    let same : same_name e.m_name k ≡ true = ap (λ l. same_name l k) h.0 ∙ same_name_refl k in
    rw same (ap (λ l. on_event f (cn, e) ∷ l) (calls_of-own k f queue h.1))

pub calls_of-foreign :
    (k n : Name) (f : ℕ) (queue : SafeQueue CnEvent)
    → n ≢ k
    → HasName n queue
    → calls_of k (each (on_event f) queue) ≡ []
calls_of-foreign k n f [] ne h = refl
calls_of-foreign k n f ((cn, e) ∷ queue) ne h =
    let other : same_name e.m_name k ≡ false =
      ap (λ l. same_name l k) h.0 ∙ ne→same_name_false n k ne in
    rw other (calls_of-foreign k n f queue ne h.1)
