-- ===== src/Listener/LinkState.antt =====
-- The links of a listener, read behind a write.
use sednl.Base.{
  ◌≡◌, refl, sym, ap, ◌∙◌, ℕ, Bool, true, false, ◌||◌, Option, none, [], arith, if◌then◌else◌, Map,
  Name, find, assign, at_or, find-assign_same, find-assign_other, at_or-assign_same,
  at_or-assign_other, same_name, same_name_refl, same_name_sound, Bool-cases, inl, inr,
}
use mathlib.Core.Bool.{true≢false}
use sednl.Listener.Links.{
  Links, Link, on_disconnect, on_server_disconnect, on_event, named, link_in, set_link,
}
use sednl.Listener.Claims.{same_link, names, is_some}

-- What `clear_consumer_links` leaves.
abbrev pub no_links : Links
no_links = record {
  m_on_disconnect_link = none;
  m_on_server_disconnect_link = none;
  m_on_event_link = none;
  m_links = [];
}

pub same_link_sound : (l k : Link) → same_link l k ≡ true → l ≡ k
same_link_sound on_disconnect on_disconnect e = refl
same_link_sound on_disconnect on_server_disconnect e = ground arith
same_link_sound on_disconnect on_event e = ground arith
same_link_sound on_disconnect (named k) e = ground arith
same_link_sound on_server_disconnect on_disconnect e = ground arith
same_link_sound on_server_disconnect on_server_disconnect e = refl
same_link_sound on_server_disconnect on_event e = ground arith
same_link_sound on_server_disconnect (named k) e = ground arith
same_link_sound on_event on_disconnect e = ground arith
same_link_sound on_event on_server_disconnect e = ground arith
same_link_sound on_event on_event e = refl
same_link_sound on_event (named k) e = ground arith
same_link_sound (named j) on_disconnect e = ground arith
same_link_sound (named j) on_server_disconnect e = ground arith
same_link_sound (named j) on_event e = ground arith
same_link_sound (named j) (named k) e = ap named (same_name_sound j k e)

named_set :
    (j k : Name) (v : Option ℕ) (m : Map (Option ℕ))
    → at_or none (assign m j v) k ≡ (if same_name j k then v else at_or none m k)
named_set j k v m = elim (Bool-cases (same_name j k)) [
  | inl same ↦ rw same (
      ap (at_or none (assign m j v)) (sym (same_name_sound j k same))
      ∙ at_or-assign_same none m j v)
  | inr other ↦ rw other (
      at_or-assign_other none m j k v
        (λ e. absurd (true≢false (sym (same_name_refl j) ∙ ap (same_name j) e ∙ other))))
]

pub link_in-set_link :
    (l k : Link) (v : Option ℕ) (s : Links)
    → link_in k (set_link l v s) ≡ (if same_link l k then v else link_in k s)
unfolding link_in set_link
link_in-set_link on_disconnect on_disconnect v s = refl
link_in-set_link on_disconnect on_server_disconnect v s = refl
link_in-set_link on_disconnect on_event v s = refl
link_in-set_link on_disconnect (named k) v s = refl
link_in-set_link on_server_disconnect on_disconnect v s = refl
link_in-set_link on_server_disconnect on_server_disconnect v s = refl
link_in-set_link on_server_disconnect on_event v s = refl
link_in-set_link on_server_disconnect (named k) v s = refl
link_in-set_link on_event on_disconnect v s = refl
link_in-set_link on_event on_server_disconnect v s = refl
link_in-set_link on_event on_event v s = refl
link_in-set_link on_event (named k) v s = refl
link_in-set_link (named j) on_disconnect v s = refl
link_in-set_link (named j) on_server_disconnect v s = refl
link_in-set_link (named j) on_event v s = refl
link_in-set_link (named j) (named k) v s = named_set j k v s.m_links

pub or_false : (b : Bool) → (b || false) ≡ b
or_false true = refl
or_false false = refl

or_last : (b : Bool) → (b || true) ≡ true
or_last true = refl
or_last false = refl

pub or_assoc : (a b c : Bool) → ((a || b) || c) ≡ (a || (b || c))
or_assoc true b c = refl
or_assoc false b c = refl

-- Whether the listener has a link for the name, null or not.
abbrev pub has_key : Links → Name → Bool
has_key s k = is_some (find s.m_links k)

pub has_key-set_link :
    (l : Link) (v : Option ℕ) (s : Links) (k : Name)
    → has_key (set_link l v s) k ≡ (has_key s k || names l k)
unfolding set_link
has_key-set_link on_disconnect v s k = sym (or_false (has_key s k))
has_key-set_link on_server_disconnect v s k = sym (or_false (has_key s k))
has_key-set_link on_event v s k = sym (or_false (has_key s k))
has_key-set_link (named j) v s k = elim (Bool-cases (same_name j k)) [
  | inl same ↦
      let e = same_name_sound j k same in
      ap (λ i. is_some (find (assign s.m_links j v) i)) (sym e)
      ∙ ap is_some (find-assign_same s.m_links j v)
      ∙ sym (ap (λ b. has_key s k || b) same ∙ or_last (has_key s k))
  | inr other ↦
      ap is_some (
        find-assign_other s.m_links j k v
          (λ e. absurd (true≢false (sym (same_name_refl j) ∙ ap (same_name j) e ∙ other))))
      ∙ sym (ap (λ b. has_key s k || b) other ∙ or_false (has_key s k))
]
