-- ===== src/Listener/Attach.antt =====
-- `attach` and `detach`: several listeners and the objects that they manage. All the objects are
-- servers, or all are connections. Listeners and objects are named by their addresses.
use sednl.Base.{
  ℕ, ◌==◌, Bool, true, false, not, ◌&&◌, Option, none, some, List, [], ◌∷◌, ◌++◌, if◌then◌else◌,
}
use sednl.Exceptions.{
  EventExceptionT, event_listener_running, already_listened, wrong_parent_listener, M, ok, thrown,
}

-- `list` and `m_running` by the listener, `m_listener` by the object; `accepted` are the connections
-- that a listener has made itself.
pub record World : Type 0 where
  pub managed : ℕ → List ℕ
  pub m_running : ℕ → Bool
  pub m_listener : ℕ → Option ℕ
  pub accepted : ℕ → Bool

abbrev pub update {ℓ} : {A : Type ℓ} → (ℕ → A) → ℕ → A → ℕ → A
update f k x n = if n == k then x else f n

-- `std::find(...) != list.end()`.
unfoldable pub contains : List ℕ → ℕ → Bool
contains [] elm = false
contains (x ∷ list) elm = if x == elm then true else contains list elm

-- `list.erase` at the first place of the element.
unfoldable pub erase : List ℕ → ℕ → List ℕ
erase [] elm = []
erase (x ∷ list) elm = let rest = erase list elm in if x == elm then list else x ∷ rest

abbrev pub is_null : Option ℕ → Bool
is_null none = true
is_null (some l) = false

abbrev pub points_to : Option ℕ → ℕ → Bool
points_to none this = false
points_to (some l) this = l == this

abbrev pub Handling : Type 0
Handling = M EventExceptionT World (Unit {0})

-- `__attach`.
unfoldable pub attach : ℕ → ℕ → Handling
unfolding contains
attach this elm w =
    if w.m_running this
    then thrown event_listener_running w
    else if contains (w.managed this) elm
    then ok tt w
    else if not (is_null (w.m_listener elm)) && not (points_to (w.m_listener elm) this)
    then thrown already_listened w
    else ok tt (record w {
      m_listener = update w.m_listener elm (some this);
      managed = update w.managed this (w.managed this ++ (elm ∷ []));
    })

-- `new Connection` and `cn->m_listener = this` in `accept_connections`. No list gets the connection.
-- An object that exists is not new.
unfoldable pub accept_connection : ℕ → ℕ → World → World
accept_connection this cn w =
    if is_null (w.m_listener cn)
    then record w {
      m_listener = update w.m_listener cn (some this);
      accepted = update w.accepted cn true;
    }
    else w

-- `__detach`.
unfoldable pub detach : ℕ → ℕ → Handling
unfolding contains erase
detach this elm w =
    if w.m_running this
    then thrown event_listener_running w
    else if not (contains (w.managed this) elm)
    then ok tt w
    else if not (points_to (w.m_listener elm) this)
    then thrown wrong_parent_listener w
    else ok tt (record w {
      m_listener = update w.m_listener elm none;
      managed = update w.managed this (erase (w.managed this) elm);
    })
