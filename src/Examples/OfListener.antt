-- ===== src/Examples/OfListener.antt =====
-- Listeners and queues.
use sednl.Base.{ℕ, ◌+◌, ◌≡◌, ◌≤◌, refl, true, false, some, List, [], ◌∷◌, if◌then◌else◌}
use sednl.Listener.Pushers.{PushStep, tests, pushes, pops}
use sednl.Listener.Connections.{Connections}
use sednl.Listener.Attach.{contains, points_to, attach}
use sednl.Listener.Parents.{number_in}
use sednl.Listener.Calls.{
  Call, attaching, accepting, runs, call, call_all, no_listeners, call_all-one_listener,
}

abbrev two : List ℕ
two = 7 ∷ 8 ∷ []

-- Listener 1 takes object 5, and listener 2 asks for it too.
abbrev two_listeners : List Call
two_listeners = attaching 1 5 ∷ attaching 2 5 ∷ attaching 2 6 ∷ runs 1 true ∷ accepting 1 7 ∷ []

two_idle : (call_all two_listeners no_listeners).m_running 2 ≡ false
unfolding call_all call no_listeners attach contains
two_idle = refl

-- Two threads find room for one event each before either pushes.
abbrev racing : List (PushStep ℕ)
racing = tests ∷ pushes 6 ∷ tests ∷ tests ∷ pushes 7 ∷ pushes 8 ∷ pops ∷ []

call_all-one_listener_example :
    (number_in ((call_all two_listeners no_listeners).managed 2) 5
      ≤ (if points_to ((call_all two_listeners no_listeners).m_listener 5) 2 then 1 else 0))
    × ((call_all two_listeners no_listeners).accepted 5 ≡ false
        → (if points_to ((call_all two_listeners no_listeners).m_listener 5) 2 then 1 else 0)
          ≤ number_in ((call_all two_listeners no_listeners).managed 2) 5)
call_all-one_listener_example = call_all-one_listener two_listeners 2 5

-- Connection 1 is attached, with descriptor 11; connection 2 was accepted, with descriptor 12.
abbrev serving : Connections
serving = record {
  m_connections = 1 ∷ [];
  m_internal_connections = (12, 2) ∷ [];
  m_fd = λ cn. some (cn + 10);
  m_connected = λ _. true;
  closed = [];
  m_poller = true;
  removed = [];
  m_max_queue_size = 5;
  m_disconnected_queue = [];
  m_on_disconnect_link = true;
  wake_up = false;
}
