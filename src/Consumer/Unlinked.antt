-- ===== src/Consumer/Unlinked.antt =====
-- The loop of `consume_events` over the queues of the names that no consumer is linked to.
use sednl.Base.{
  ◌≡◌, ◌≢◌, refl, sym, ap, subst, ◌∙◌, ℕ, false, Option, none, some, List, [], ◌∷◌, ◌++◌,
  append-nil, if◌then◌else◌, Map, Name, find, at_or, or_default, same_name, same_name_sound,
  same_name_refl, Distinct, Bool-cases, Option-cases, inl, inr,
}
use mathlib.Core.Bool.{true≢false}
use sednl.Listener.Queue.{SafeQueue}
use sednl.Listener.Receive.{CnEvent}
use sednl.Consumer.Slots.{Slot}
use sednl.Consumer.Calls.{
  handed, calls_of, HasName, Proper, process_lem, unlinked, calls_of-append, calls_of-own,
  calls_of-foreign,
}
use sednl.Consumer.Handover.{rest_of}
use sednl.Consumer.Consume.{Call, on_event, consume_unlinked}

-- The queues of the map, and what the loop over them leaves and calls.
pub record Served (links : Map (Option ℕ)) (f : ℕ) (m : Map (SafeQueue CnEvent))
    (r : List Call × Map (SafeQueue CnEvent)) (k : Name) : Type 0 where
  pub left : at_or [] r.1 k ≡ rest_of (unlinked (find links k) (some f)) (at_or [] m k)
  pub called : calls_of k r.0 ≡ handed (unlinked (find links k) (some f)) (at_or [] m k)

at_or-cons_same :
    (n : Name) (q : SafeQueue CnEvent) (m : Map (SafeQueue CnEvent)) → at_or [] ((n, q) ∷ m) n ≡ q
unfolding find
at_or-cons_same n q m = ap (λ b. or_default [] (if b then some q else find m n)) (same_name_refl n)

at_or-cons_other :
    (n : Name) (q : SafeQueue CnEvent) (m : Map (SafeQueue CnEvent)) (k : Name)
    → same_name n k ≡ false
    → at_or [] ((n, q) ∷ m) k ≡ at_or [] m k
unfolding find
at_or-cons_other n q m k other = ap (λ b. or_default [] (if b then some q else find m k)) other

Proper-tail :
    (n : Name) (q : SafeQueue CnEvent) (m : Map (SafeQueue CnEvent))
    → Distinct ((n, q) ∷ m)
    → Proper ((n, q) ∷ m)
    → Proper m
Proper-tail n q m d proper k = elim (Bool-cases (same_name n k)) [
  | inl same ↦
      let gone : [] ≡ at_or [] m k =
        sym (ap (or_default []) d.0) ∙ ap (at_or [] m) (same_name_sound n k same) in
      subst (HasName k) gone tt
  | inr other ↦ subst (HasName k) (at_or-cons_other n q m k other) (proper k)
]

handed_nil : (slot : Slot) → handed slot [] ≡ []
handed_nil none = refl
handed_nil (some f) = refl

handed-own :
    (n : Name) (slot : Slot) (q : SafeQueue CnEvent)
    → HasName n q
    → calls_of n (handed slot q) ≡ handed slot q
handed-own n none q h = refl
handed-own n (some f) q h = calls_of-own n f q h

handed-foreign :
    (k n : Name) (slot : Slot) (q : SafeQueue CnEvent)
    → n ≢ k
    → HasName n q
    → calls_of k (handed slot q) ≡ []
handed-foreign k n none q ne h = refl
handed-foreign k n (some f) q ne h = calls_of-foreign k n f q ne h

-- One round of the loop.
pub consume_unlinked-round :
    (f : ℕ) (links : Map (Option ℕ)) (m : Map (SafeQueue CnEvent)) (n : Name)
    (q : SafeQueue CnEvent)
    → (let c = consume_unlinked f links m in
        let slot = unlinked (find links n) (some f) in
        consume_unlinked f links ((n, q) ∷ m) ≡ (handed slot q ++ c.0, (n, rest_of slot q) ∷ c.1))
unfolding consume_unlinked
consume_unlinked-round f links m n q = elim (Option-cases (find links n)) [
  | inl e ↦
      let c = consume_unlinked f links m in
      rw (consume_unlinked, e) (ap (λ x. (x.0 ++ c.0, (n, x.1) ∷ c.1)) (process_lem (on_event f) q))
  | inr (l, e) ↦ rw (consume_unlinked, e) refl
]

pub consume_unlinked_lem :
    (f : ℕ) (links : Map (Option ℕ)) (m : Map (SafeQueue CnEvent)) (k : Name)
    → Distinct m
    → Proper m
    → Served links f m (consume_unlinked f links m) k
unfolding consume_unlinked find
consume_unlinked_lem f links [] k d proper = record {
  left = sym (rest_nil (unlinked (find links k) (some f)));
  called = sym (handed_nil (unlinked (find links k) (some f)));
}
  where
    rest_nil : (t : Slot) → rest_of t [] ≡ []
    rest_nil none = refl
    rest_nil (some g) = refl
consume_unlinked_lem f links ((n, q) ∷ m) k d proper =
    subst (λ r. Served links f ((n, q) ∷ m) r k) (sym (consume_unlinked-round f links m n q))
      (served n q m k d proper (unlinked (find links n) (some f)) refl (consume_unlinked f links m)
        (consume_unlinked_lem f links m k d.1 (Proper-tail n q m d proper)))
  where
    served :
        (n : Name) (q : SafeQueue CnEvent) (m : Map (SafeQueue CnEvent)) (k : Name)
        → Distinct ((n, q) ∷ m)
        → Proper ((n, q) ∷ m)
        → (slot : Slot) → slot ≡ unlinked (find links n) (some f)
        → (c : List Call × Map (SafeQueue CnEvent)) → Served links f m c k
        → Served links f ((n, q) ∷ m) (handed slot q ++ c.0, (n, rest_of slot q) ∷ c.1) k
    served n q m k d proper slot e c ih =
        let own : HasName n q = subst (HasName n) (at_or-cons_same n q m) (proper n) in
        elim (Bool-cases (same_name n k)) [
          | inl same ↦
              let here = same_name_sound n k same in
              let ihn = subst (Served links f m c) (sym here) ih in
              let sn = unlinked (find links n) (some f) in
              let front = at_or-cons_same n q m in
              subst (Served links f ((n, q) ∷ m) (handed slot q ++ c.0, (n, rest_of slot q) ∷ c.1))
                here
                (record {
                  left =
                      at_or-cons_same n (rest_of slot q) c.1
                      ∙ ap (λ t. rest_of t q) e
                      ∙ ap (rest_of sn) (sym front);
                  called =
                      calls_of-append n (handed slot q) c.0
                      ∙ ap (λ l. l ++ calls_of n c.0) (handed-own n slot q own)
                      ∙ ap (λ l. handed slot q ++ l)
                          (ihn.called ∙ ap (λ o. handed sn (or_default [] o)) d.0 ∙ handed_nil sn)
                      ∙ append-nil (handed slot q)
                      ∙ ap (λ t. handed t q) e
                      ∙ ap (handed sn) (sym front);
                })
          | inr other ↦ record {
            left =
                at_or-cons_other n (rest_of slot q) c.1 k other
                ∙ ih.left
                ∙ ap (rest_of (unlinked (find links k) (some f)))
                    (sym (at_or-cons_other n q m k other));
            called =
                calls_of-append k (handed slot q) c.0
                ∙ ap (λ l. l ++ calls_of k c.0)
                    (handed-foreign k n slot q
                      (λ e.
                        absurd (true≢false (sym (same_name_refl n) ∙ ap (same_name n) e ∙ other)))
                      own)
                ∙ ih.called
                ∙ ap (handed (unlinked (find links k) (some f)))
                    (sym (at_or-cons_other n q m k other));
          }
        ]
