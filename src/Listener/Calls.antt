-- ===== src/Listener/Calls.antt =====
-- The managed lists after any calls of `attach` and `detach`, with the connections that listeners accept_connection.
use sednl.Base.{
  ℕ, ◌≡◌, ◌≤◌, ◌≢◌, refl, Bool, true, false, Bool-cases, none, List, [], ◌∷◌, if◌then◌else◌, arith,
  inl, inr,
}
use sednl.Exceptions.{wrong_parent_listener, ok, thrown}
use sednl.Listener.Attach.{
  World, update, contains, erase, points_to, attach, accept_connection, detach,
}
use sednl.Listener.Parents.{
  number_in, IsCoherent, world_of, owner_of, attach-IsCoherent, accept_connection-IsCoherent,
  detach-IsCoherent,
}

-- Calls in any order, on any listeners and objects; `runs` is a listener that starts or stops. An
-- exception does not end the program.
pub data Call : Type 0 where
  attaching detaching accepting : ℕ → ℕ → Call
  runs : ℕ → Bool → Call

unfoldable pub call : Call → World → World
unfolding attach detach accept_connection
call (attaching this elm) w = world_of (attach this elm w) w
call (detaching this elm) w = world_of (detach this elm w) w
call (accepting this cn) w = accept_connection this cn w
call (runs this b) w = record w { m_running = update w.m_running this b }

unfoldable pub call_all : List Call → World → World
unfolding call
call_all [] w = w
call_all (c ∷ cs) w = call_all cs (call c w)

-- Nothing is attached, no listener runs.
unfoldable pub no_listeners : World
no_listeners = record {
  managed = λ _. [];
  m_running = λ _. false;
  m_listener = λ _. none;
  accepted = λ _. false;
}

call_all-IsCoherent : (cs : List Call) (w : World) → IsCoherent w → IsCoherent (call_all cs w)
unfolding call_all call
call_all-IsCoherent [] w h = h
call_all-IsCoherent (attaching this elm ∷ cs) w h =
    call_all-IsCoherent cs (world_of (attach this elm w) w) (attach-IsCoherent this elm w h)
call_all-IsCoherent (detaching this elm ∷ cs) w h =
    call_all-IsCoherent cs (world_of (detach this elm w) w) (detach-IsCoherent this elm w h)
call_all-IsCoherent (accepting this cn ∷ cs) w h =
    call_all-IsCoherent cs (accept_connection this cn w) (accept_connection-IsCoherent this cn w h)
call_all-IsCoherent (runs this b ∷ cs) w h =
    call_all-IsCoherent cs (record w { m_running = update w.m_running this b })
      (unfold IsCoherent in h)

no_listeners-IsCoherent : IsCoherent no_listeners
unfolding no_listeners IsCoherent
no_listeners-IsCoherent this elm = (omega arith, λ _. omega arith)

-- After any calls, a listener has an object in its list at most once, and only if the object's pointer
-- names that listener. It has every object whose pointer names it, but for connections that were
-- accepted.
pub call_all-one_listener :
    (cs : List Call) (this elm : ℕ)
    → (number_in ((call_all cs no_listeners).managed this) elm
        ≤ (if points_to ((call_all cs no_listeners).m_listener elm) this then 1 else 0))
      × ((call_all cs no_listeners).accepted elm ≡ false
          → (if points_to ((call_all cs no_listeners).m_listener elm) this then 1 else 0)
            ≤ number_in ((call_all cs no_listeners).managed this) elm)
unfolding IsCoherent
call_all-one_listener cs this elm =
    call_all-IsCoherent cs no_listeners no_listeners-IsCoherent this elm

-- After any calls, to detach an object from an idle listener that does not have it does nothing, even
-- if another listener has it. To detach it from the idle listener that has it succeeds.
detach-cases :
    (cs : List Call) (this elm : ℕ)
    → (call_all cs no_listeners).m_running this ≡ false
    → (contains ((call_all cs no_listeners).managed this) elm ≡ false
        → detach this elm (call_all cs no_listeners) ≡ ok tt (call_all cs no_listeners))
      × (contains ((call_all cs no_listeners).managed this) elm ≡ true
          → (w' : World) × (detach this elm (call_all cs no_listeners) ≡ ok tt w')
            × (w'.m_listener elm ≡ none))
unfolding detach
detach-cases cs this elm idle =
    let w = call_all cs no_listeners in
    (
      λ absent. rw (idle, absent) refl,
      λ present. (
        record w {
          m_listener = update w.m_listener elm none;
          managed = update w.managed this (erase (w.managed this) elm);
        },
        rw
            (
              idle,
              present,
              owner_of this elm w (call_all-IsCoherent cs no_listeners no_listeners-IsCoherent)
                  present,
            )
            refl,
        ground arith,
      ),
    )

-- After any calls, `WrongParentListener` is not thrown.
detach-never_wrong_parent :
    (cs : List Call) (this elm : ℕ) (w' : World)
    → detach this elm (call_all cs no_listeners) ≢ thrown wrong_parent_listener w'
unfolding detach
detach-never_wrong_parent cs this elm w' e =
    let w = call_all cs no_listeners in
    elim (Bool-cases (w.m_running this)) [
      | inl running ↦ cc (rw running at e)
      | inr idle ↦ elim (Bool-cases (contains (w.managed this) elm)) [
        | inr absent ↦ cc (rw (idle, absent) at e)
        | inl present ↦ cc (
            rw
              (
                idle,
                present,
                owner_of this elm w (call_all-IsCoherent cs no_listeners no_listeners-IsCoherent)
                    present,
              )
              at e)
      ]
    ]
