-- ===== src/Listener/Collisions.antt =====
-- When `run_init` throws `EventCollision`, and whom the links name when it does not.
use sednl.Base.{
  ◌≡◌, refl, sym, ap, subst, ◌∙◌, ℕ, Bool, true, false, ◌||◌, Option, none, some, List, [], ◌∷◌,
  if◌then◌else◌, Name, same_name_refl, Bool-cases, inl, inr,
}
use mathlib.Core.Bool.{true≢false}
use sednl.Exceptions.{EventExceptionT, event_collision, Result, ok, thrown}
use sednl.Listener.Links.{
  Links, clear_consumer_links, Link, on_disconnect, on_server_disconnect, on_event, named, link_in,
  set_link, link_consumer,
}
use sednl.Listener.LinkState.{
  no_links, same_link_sound, link_in-set_link, has_key, has_key-set_link, or_false, or_assoc,
}
use sednl.Listener.Claims.{
  Claim, same_link, claimant, names, is_bound, is_some, collides, and_then, link_all,
}

-- A claim meets a link that is set already.
abbrev pub blocked : Links → List Claim → Bool
blocked s [] = false
blocked s ((consumer, none, l) ∷ list) = blocked s list
blocked s ((consumer, some f, l) ∷ list) = is_some (link_in l s) || blocked s list

abbrev pub or_else : Option ℕ → Option ℕ → Option ℕ
or_else (some a) o = some a
or_else none o = o

-- How the claims end.
abbrev pub Outcome : Bool → List Claim → Links → Result EventExceptionT Links (Unit {0}) → Type 0
Outcome true list s o = o ≡ thrown event_collision no_links
Outcome false list s o =
    (t : Links) × (o ≡ ok tt t)
    × ((l : Link) → link_in l t ≡ or_else (link_in l s) (claimant list l))
    × ((k : Name) → has_key t k ≡ (has_key s k || is_bound list k))

-- A link set to what it is.
touched : (l k : Link) (s : Links) → link_in k (set_link l (link_in l s) s) ≡ link_in k s
touched l k s = link_in-set_link l k (link_in l s) s ∙ by_same (same_link l k) refl
  where
    by_same :
        (b : Bool) → same_link l k ≡ b → (if b then link_in l s else link_in k s) ≡ link_in k s
    by_same true e = ap (λ x. link_in x s) (same_link_sound l k e)
    by_same false e = refl

blocked-cong :
    (list : List Claim) (s t : Links)
    → ((l : Link) → link_in l s ≡ link_in l t)
    → blocked s list ≡ blocked t list
blocked-cong [] s t e = refl
blocked-cong ((consumer, none, l) ∷ list) s t e = blocked-cong list s t e
blocked-cong ((consumer, some f, l) ∷ list) s t e = cc (ap is_some (e l), blocked-cong list s t e)

same_link_refl : (l : Link) → same_link l l ≡ true
same_link_refl on_disconnect = refl
same_link_refl on_server_disconnect = refl
same_link_refl on_event = refl
same_link_refl (named k) = same_name_refl k

same_link_ne : (l k : Link) → same_link k l ≡ false → same_link l k ≡ false
same_link_ne l k e = elim (Bool-cases (same_link l k)) [
  | inl same ↦
      absurd (
        true≢false (sym (same_link_refl k) ∙ ap (same_link k) (sym (same_link_sound l k same)) ∙ e))
  | inr other ↦ other
]

or_swap : (a b c : Bool) → (a || (b || c)) ≡ (b || (a || c))
or_swap true true c = refl
or_swap true false c = refl
or_swap false true c = refl
or_swap false false c = refl

or_true : (a b : Bool) → (a || (true || b)) ≡ true
or_true true b = refl
or_true false b = refl

or_move : (a b c : Bool) → (b || (a || c)) ≡ ((a || b) || (false || c))
or_move true true c = refl
or_move true false c = refl
or_move false true c = refl
or_move false false c = refl

blocked-set_link :
    (list : List Claim) (l : Link) (consumer : ℕ) (s : Links)
    → blocked (set_link l (some consumer) s) list ≡ (is_some (claimant list l) || blocked s list)
blocked-set_link [] l consumer s = refl
blocked-set_link ((c, none, k) ∷ list) l consumer s = blocked-set_link list l consumer s
blocked-set_link ((c, some f, k) ∷ list) l consumer s = elim (Bool-cases (same_link k l)) [
  | inl same ↦
      let e = sym (same_link_sound k l same) in
      let there : link_in k (set_link l (some consumer) s) ≡ some consumer =
        link_in-set_link l k (some consumer) s
        ∙ ap (λ b. if b then some consumer else link_in k s)
            (ap (same_link l) (sym e) ∙ same_link_refl l) in
      rw (there, same) refl
  | inr other ↦
      let kept : link_in k (set_link l (some consumer) s) ≡ link_in k s =
        link_in-set_link l k (some consumer) s
        ∙ ap (λ b. if b then some consumer else link_in k s) (same_link_ne l k other) in
      rw (kept, other, blocked-set_link list l consumer s)
        (or_swap (is_some (link_in k s)) (is_some (claimant list l)) (blocked s list))
]

Outcome-map :
    (b : Bool) (list list' : List Claim) (s s' : Links)
    (o : Result EventExceptionT Links (Unit {0}))
    → ((l : Link)
        → or_else (link_in l s') (claimant list l) ≡ or_else (link_in l s) (claimant list' l))
    → ((k : Name) → (has_key s' k || is_bound list k) ≡ (has_key s k || is_bound list' k))
    → Outcome b list s' o
    → Outcome b list' s o
Outcome-map true list list' s s' o e g h = h
Outcome-map false list list' s s' o e g (t, r, all, keys) =
    (t, r, λ l. all l ∙ e l, λ k. keys k ∙ g k)

-- What a claim that meets no link does to the links to come.
claim_first :
    (list : List Claim) (l k : Link) (consumer f : ℕ) (s : Links)
    → link_in l s ≡ none
    → or_else (link_in k (set_link l (some consumer) s)) (claimant list k)
      ≡ or_else (link_in k s) (claimant ((consumer, some f, l) ∷ list) k)
claim_first list l k consumer f s free =
    ap (λ x. or_else x (claimant list k)) (link_in-set_link l k (some consumer) s)
    ∙ by_same (same_link l k) refl
  where
    by_same :
        (b : Bool)
        → same_link l k ≡ b
        → or_else (if b then some consumer else link_in k s) (claimant list k)
          ≡ or_else (link_in k s) (if b then some consumer else claimant list k)
    by_same true e =
        ap (λ x. or_else x (some consumer))
          (sym free ∙ ap (λ x. link_in x s) (same_link_sound l k e))
    by_same false e = refl

bound_first :
    (list : List Claim) (l : Link) (v : Option ℕ) (s : Links) (k : Name)
    → (has_key (set_link l v s) k || is_bound list k)
      ≡ (has_key s k || (names l k || is_bound list k))
bound_first list l v s k =
    ap (λ b. b || is_bound list k) (has_key-set_link l v s k)
    ∙ or_assoc (has_key s k) (names l k) (is_bound list k)

pub link_all_lem :
    (list : List Claim) (s : Links)
    → Outcome (collides list || blocked s list) list s (link_all list s)
unfolding link_all link_consumer clear_consumer_links
link_all_lem [] s = (s, refl, λ l. or_none (link_in l s), λ k. sym (or_false (has_key s k)))
  where
    or_none : (o : Option ℕ) → o ≡ or_else o none
    or_none none = refl
    or_none (some a) = refl
link_all_lem ((consumer, none, l) ∷ list) s =
    let s' = set_link l (link_in l s) s in
    Outcome-map (collides list || blocked s list) list ((consumer, none, l) ∷ list) s s'
      (link_all list s') (λ k. ap (λ x. or_else x (claimant list k)) (touched l k s))
      (bound_first list l (link_in l s) s)
      (subst (λ b. Outcome (collides list || b) list s' (link_all list s'))
        (blocked-cong list s' s (λ k. touched l k s)) (link_all_lem list s'))
link_all_lem ((consumer, some f, l) ∷ list) s =
    by_link (link_in l s) refl (link_all_lem list (set_link l (some consumer) s))
  where
    by_link :
        (o : Option ℕ)
        → link_in l s ≡ o
        → (let s' = set_link l (some consumer) s in
            Outcome (collides list || blocked s' list) list s' (link_all list s'))
        → Outcome
            ((is_some (claimant list l) || collides list) || (is_some o || blocked s list))
            ((consumer, some f, l) ∷ list)
            s
            (and_then
              (elim o [
                | some other ↦ thrown event_collision no_links
                | none ↦ ok tt (set_link l (some consumer) s)
              ])
              (link_all list))
    by_link (some other) e ih =
        subst (λ b. Outcome b ((consumer, some f, l) ∷ list) s (thrown event_collision no_links))
          (sym (or_true (is_some (claimant list l) || collides list) (blocked s list))) refl
    by_link none e ih =
        let s' = set_link l (some consumer) s in
        let flag =
          ap (λ b. collides list || b) (blocked-set_link list l consumer s)
          ∙ or_move (is_some (claimant list l)) (collides list) (blocked s list) in
        Outcome-map ((is_some (claimant list l) || collides list) || (false || blocked s list)) list
          ((consumer, some f, l) ∷ list) s s' (link_all list s')
          (λ k. claim_first list l k consumer f s e) (bound_first list l (some consumer) s)
          (subst (λ b. Outcome b list s' (link_all list s')) flag ih)
