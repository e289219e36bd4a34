-- ===== src/Listener/Claims.antt =====
-- `link_consumer` as claims: each slot that is set claims a link, and a link has one claimant.
use sednl.Base.{
  ◌≡◌, refl, sym, ap, ◌∙◌, ℕ, Bool, true, false, ◌||◌, Option, none, some, List, [], ◌∷◌, ◌++◌,
  if◌then◌else◌, Map, Name, same_name,
}
use sednl.Exceptions.{EventExceptionT, Result, ok, thrown, fault, ◌>>◌}
use sednl.Consumer.Slots.{Slot, EventConsumer}
use sednl.Listener.Links.{
  Links, Link, on_disconnect, on_server_disconnect, on_event, named, Linking, link_consumer,
  link_slots, link_consumers,
}

-- A slot of a consumer, and the link for it.
abbrev pub Claim : Type 0
Claim = ℕ × Slot × Link

abbrev pub slot_claims : ℕ → Map Slot → List Claim
slot_claims consumer [] = []
slot_claims consumer ((name, slot) ∷ slots) =
    (consumer, slot, named name) ∷ slot_claims consumer slots

abbrev pub claims : List (ℕ × EventConsumer) → List Claim
claims [] = []
claims ((consumer, c) ∷ consumers) =
    (consumer, c.m_on_disconnect_slot, on_disconnect)
    ∷ (consumer, c.m_on_server_disconnect_slot, on_server_disconnect)
    ∷ (consumer, c.m_on_event_slot, on_event)
    ∷ (slot_claims consumer c.m_slots ++ claims consumers)

abbrev pub same_link : Link → Link → Bool
same_link on_disconnect on_disconnect = true
same_link on_server_disconnect on_server_disconnect = true
same_link on_event on_event = true
same_link (named k) (named l) = same_name k l
same_link _ _ = false

-- The first consumer with a slot that is set for the link.
abbrev pub claimant : List Claim → Link → Option ℕ
claimant [] link = none
claimant ((consumer, none, l) ∷ list) link = claimant list link
claimant ((consumer, some f, l) ∷ list) link =
    let rest = claimant list link in if same_link l link then some consumer else rest

abbrev pub is_some {ℓ} : {A : Type ℓ} → Option A → Bool
is_some none = false
is_some (some x) = true

-- A slot, set or not, is bound to the name.
abbrev pub names : Link → Name → Bool
names (named k) name = same_name k name
names _ name = false

abbrev pub is_bound : List Claim → Name → Bool
is_bound [] name = false
is_bound ((consumer, slot, l) ∷ list) name = names l name || is_bound list name

-- Two slots that are set have the same link.
abbrev pub collides : List Claim → Bool
collides [] = false
collides ((consumer, none, l) ∷ list) = collides list
collides ((consumer, some f, l) ∷ list) = is_some (claimant list l) || collides list

-- The calls of `link_consumer`, one behind the other.
unfoldable pub link_all : List Claim → Linking
link_all [] = λ s. ok tt s
link_all ((consumer, slot, link) ∷ list) = link_consumer consumer slot link >> link_all list

-- A step, and what follows it.
abbrev pub and_then :
    Result EventExceptionT Links (Unit {0}) → Linking → Result EventExceptionT Links (Unit {0})
and_then o k = elim o [ ok a s ↦ k s | thrown e s ↦ thrown e s | fault x ↦ fault x ]

and_then_assoc :
    (o : Result EventExceptionT Links (Unit {0})) (f g h : Linking)
    → ((s : Links) → h s ≡ and_then (f s) g)
    → and_then o h ≡ and_then (and_then o f) g
and_then_assoc (ok a s) f g h e = e s
and_then_assoc (thrown x s) f g h e = refl
and_then_assoc (fault x) f g h e = refl

and_then-cong :
    (o : Result EventExceptionT Links (Unit {0})) (f g : Linking)
    → ((s : Links) → f s ≡ g s)
    → and_then o f ≡ and_then o g
and_then-cong (ok a s) f g e = e s
and_then-cong (thrown x s) f g e = refl
and_then-cong (fault x) f g e = refl

link_all-append :
    (xs ys : List Claim) (s : Links)
    → link_all (xs ++ ys) s ≡ and_then (link_all xs s) (link_all ys)
unfolding link_all
link_all-append [] ys s = refl
link_all-append ((consumer, slot, link) ∷ xs) ys s =
    and_then_assoc (link_consumer consumer slot link s) (link_all xs) (link_all ys)
      (link_all (xs ++ ys)) (λ t. link_all-append xs ys t)

link_slots_lem :
    (consumer : ℕ) (slots : Map Slot) (s : Links)
    → link_slots consumer slots s ≡ link_all (slot_claims consumer slots) s
unfolding link_slots link_all
link_slots_lem consumer [] s = refl
link_slots_lem consumer ((name, slot) ∷ slots) s =
    and_then-cong (link_consumer consumer slot (named name) s) (link_slots consumer slots)
      (link_all (slot_claims consumer slots)) (λ t. link_slots_lem consumer slots t)

-- The loops of `run_init` make the claims one behind the other.
pub link_consumers_lem :
    (consumers : List (ℕ × EventConsumer)) (s : Links)
    → link_consumers consumers s ≡ link_all (claims consumers) s
unfolding link_consumers link_all
link_consumers_lem [] s = refl
link_consumers_lem ((consumer, c) ∷ consumers) s =
    and_then-cong (link_consumer consumer c.m_on_disconnect_slot on_disconnect s) _ _ (λ t.
      and_then-cong (link_consumer consumer c.m_on_server_disconnect_slot on_server_disconnect t) _
        _
        (λ u. and_then-cong (link_consumer consumer c.m_on_event_slot on_event u) _ _ (λ v.
          and_then-cong (link_slots consumer c.m_slots v) _ _ (λ w. link_consumers_lem consumers w)
          ∙ ap (λ o. and_then o (link_all (claims consumers))) (link_slots_lem consumer c.m_slots v)
          ∙ sym (link_all-append (slot_claims consumer c.m_slots) (claims consumers) v))))
