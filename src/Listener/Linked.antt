-- ===== src/Listener/Linked.antt =====
-- The links behind `run_init`, for the consumers of a listener that has none yet.
use sednl.Base.{
  ◌≡◌, refl, sym, ap, subst, ◌∙◌, ℕ, true, false, ◌||◌, none, some, List, [], ◌∷◌, Name, find,
}
use sednl.Exceptions.{event_collision, ok, thrown}
use sednl.Consumer.Slots.{EventConsumer}
use sednl.Listener.Links.{
  Links, Link, named, on_disconnect, on_server_disconnect, on_event, link_in, link_consumers,
}
use sednl.Listener.Claims.{Claim, claims, claimant, is_bound, is_some, collides, link_consumers_lem}
use sednl.Listener.LinkState.{no_links, or_false}
use sednl.Listener.Collisions.{blocked, or_else, Outcome, link_all_lem}

link_in-no_links : (l : Link) → link_in l no_links ≡ none
unfolding link_in
link_in-no_links on_disconnect = refl
link_in-no_links on_server_disconnect = refl
link_in-no_links on_event = refl
link_in-no_links (named k) = refl

blocked-no_links : (list : List Claim) → blocked no_links list ≡ false
blocked-no_links [] = refl
blocked-no_links ((consumer, none, l) ∷ list) = blocked-no_links list
blocked-no_links ((consumer, some f, l) ∷ list) =
    ap (λ x. is_some x || blocked no_links list) (link_in-no_links l) ∙ blocked-no_links list

outcome :
    (consumers : List (ℕ × EventConsumer))
    → Outcome
        (collides (claims consumers))
        (claims consumers)
        no_links
        (link_consumers consumers no_links)
outcome consumers =
    let list = claims consumers in
    subst (λ b. Outcome b list no_links (link_consumers consumers no_links))
      (ap (λ b. collides list || b) (blocked-no_links list) ∙ or_false (collides list))
      (subst (Outcome (collides list || blocked no_links list) list no_links)
        (sym (link_consumers_lem consumers no_links)) (link_all_lem list no_links))

-- If two slots that are set are for the same events, linking the consumers throws `EventCollision`,
-- with all links cleared.
pub link_consumers-collision :
    (consumers : List (ℕ × EventConsumer))
    → collides (claims consumers) ≡ true
    → link_consumers consumers no_links ≡ thrown event_collision no_links
link_consumers-collision consumers e =
    subst (λ b. Outcome b (claims consumers) no_links (link_consumers consumers no_links)) e
      (outcome consumers)

-- If no two slots that are set are for the same events, linking the consumers succeeds. Each link
-- then names the one consumer whose slot for it is set, or none, and a name has an entry among the
-- links exactly if some slot is bound to it, even an empty one.
pub link_consumers-links :
    (consumers : List (ℕ × EventConsumer))
    → collides (claims consumers) ≡ false
    → (t : Links) × (link_consumers consumers no_links ≡ ok tt t)
      × ((l : Link) → link_in l t ≡ claimant (claims consumers) l)
      × ((k : Name) → is_some (find t.m_links k) ≡ is_bound (claims consumers) k)
unfolding find
link_consumers-links consumers e =
    let (t, p, links, keys) =
      subst (λ b. Outcome b (claims consumers) no_links (link_consumers consumers no_links)) e
        (outcome consumers) in
    (
      t,
      p,
      λ l. links l ∙ ap (λ o. or_else o (claimant (claims consumers) l)) (link_in-no_links l),
      keys,
    )
