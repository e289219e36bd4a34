-- ===== src/Listener/Disconnect.antt =====
-- What disconnecting does to the lists and to the queue of disconnections.
use sednl.Base.{
  ℕ, ◌==◌, ◌≡◌, refl, ap, subst, ◌∙◌, true, false, Bool-cases, Option-cases, Option, none, some,
  List, ◌∷◌, if◌then◌else◌, arith, inl, inr,
}
use sednl.Listener.Queue.{push_event}
use sednl.Listener.Attach.{contains}
use sednl.Listener.Connections.{
  Connections, find_external, find_internal, erase_fd, get_connection, unsafe_disconnect, remove_fd,
  disconnected, notify, close_found, close_connection, tell, tell_search, tell_disconnected,
  disconnect,
}

unsafe_disconnect_lem :
    (cn : ℕ) (s : Connections)
    → ((unsafe_disconnect cn s).m_connected cn ≡ false)
      × ((unsafe_disconnect cn s).m_disconnected_queue ≡ s.m_disconnected_queue)
      × ((unsafe_disconnect cn s).m_internal_connections ≡ s.m_internal_connections)
      × ((unsafe_disconnect cn s).m_max_queue_size ≡ s.m_max_queue_size)
      × ((unsafe_disconnect cn s).m_on_disconnect_link ≡ s.m_on_disconnect_link)
unfolding unsafe_disconnect
unsafe_disconnect_lem cn s = elim (Bool-cases (s.m_connected cn)) [
  | inl opened ↦
      let self : (cn == cn) ≡ true = ground arith in
      rw opened (rw self refl, refl, refl, refl, refl)
  | inr shut ↦ rw shut (shut, refl, refl, refl, refl)
]

remove_fd_lem :
    (fd : Option ℕ) (cn : ℕ) (s : Connections)
    → ((remove_fd fd s).m_connected cn ≡ s.m_connected cn)
      × ((remove_fd fd s).m_disconnected_queue ≡ s.m_disconnected_queue)
      × ((remove_fd fd s).m_max_queue_size ≡ s.m_max_queue_size)
      × ((remove_fd fd s).m_on_disconnect_link ≡ s.m_on_disconnect_link)
remove_fd_lem fd cn s = elim (Bool-cases s.m_poller) [
  | inl polled ↦ rw polled (refl, refl, refl, refl)
  | inr alone ↦ rw alone (refl, refl, refl, refl)
]

notify_lem :
    (cn : ℕ) (s : Connections)
    → ((notify s).m_connected cn ≡ s.m_connected cn)
      × ((notify s).m_disconnected_queue ≡ s.m_disconnected_queue)
      × (s.m_on_disconnect_link ≡ true → (notify s).wake_up ≡ true)
unfolding notify
notify_lem cn s = elim (Bool-cases s.m_on_disconnect_link) [
  | inl linked ↦ rw linked (refl, refl, λ _. refl)
  | inr unlinked ↦ rw unlinked (refl, refl, λ e. cc e)
]

close_found_lem :
    (fd cn : ℕ) (s : Connections)
    → ((close_found fd cn s).m_connected cn ≡ false)
      × ((close_found fd cn s).m_disconnected_queue
          ≡ push_event s.m_max_queue_size s.m_disconnected_queue cn)
      × (s.m_on_disconnect_link ≡ true → (close_found fd cn s).wake_up ≡ true)
unfolding close_found disconnected
close_found_lem fd cn s =
    let (shut, queue, _, max, link) = unsafe_disconnect_lem cn s in
    let (shut', queue', max', link') = remove_fd_lem (some fd) cn (unsafe_disconnect cn s) in
    let (shut'', queue'', wakes) =
      notify_lem cn (disconnected cn (remove_fd (some fd) (unsafe_disconnect cn s))) in
    (
      shut'' ∙ shut' ∙ shut,
      queue''
          ∙ ap
              (λ m.
                push_event m (remove_fd (some fd) (unsafe_disconnect cn s)).m_disconnected_queue cn)
              (max' ∙ max)
          ∙ ap (λ q. push_event s.m_max_queue_size q cn) (queue' ∙ queue),
      λ e. wakes (link' ∙ link ∙ e),
    )

abbrev Closed : ℕ → ℕ → Connections → Connections → Type 0
Closed fd cn s s' =
    (s'.m_connected cn ≡ false)
    × (s'.m_disconnected_queue ≡ push_event s.m_max_queue_size s.m_disconnected_queue cn)
    × (s.m_on_disconnect_link ≡ true → s'.wake_up ≡ true)

pub close_connection-get_connection :
    (fd : ℕ) (s : Connections)
    → ((cn : ℕ)
        → get_connection fd s ≡ some cn
        → ((close_connection fd s).m_connected cn ≡ false)
          × ((close_connection fd s).m_disconnected_queue
              ≡ push_event s.m_max_queue_size s.m_disconnected_queue cn)
          × (s.m_on_disconnect_link ≡ true → (close_connection fd s).wake_up ≡ true))
      × (get_connection fd s ≡ none → close_connection fd s ≡ s)
unfolding close_connection get_connection
close_connection-get_connection fd s =
    elim (Option-cases (find_external s.m_fd s.m_connections fd)) [
      | inr (c, external) ↦ (
        λ cn e.
            let same : c ≡ cn = cc (rw (external, get_connection) at e) in
            rw (external, close_connection)
              (subst (λ k. Closed fd k s (close_found fd c s)) same (close_found_lem fd c s)),
        λ e. cc (rw (external, get_connection) at e),
      )
      | inl foreign ↦ elim (Option-cases (find_internal s.m_internal_connections fd)) [
        | inr (c, internal) ↦ (
          λ cn e.
              let same : c ≡ cn = cc (rw (foreign, get_connection, internal) at e) in
              rw (foreign, close_connection, internal)
                (subst
                  (λ k. Closed fd k s (
                    close_found fd c
                      (record s { m_internal_connections = erase_fd s.m_internal_connections fd })))
                  same
                  (close_found_lem fd c
                    (record s { m_internal_connections = erase_fd s.m_internal_connections fd }))),
          λ e. cc (rw (foreign, get_connection, internal) at e),
        )
        | inl unknown ↦ (
          λ cn e. cc (rw (foreign, get_connection, unknown) at e),
          λ _. rw (foreign, close_connection, unknown) refl,
        )
      ]
    ]

-- If a connection is attached to the listener, disconnecting one that it accepted neither announces
-- it nor takes it off the list.
pub disconnect-accepted :
    (cn x : ℕ) (list : List ℕ) (s : Connections)
    → s.m_connections ≡ x ∷ list
    → contains (x ∷ list) cn ≡ false
    → ((disconnect cn s).m_disconnected_queue ≡ s.m_disconnected_queue)
      × ((disconnect cn s).m_internal_connections ≡ s.m_internal_connections)
unfolding disconnect tell_disconnected tell_search
disconnect-accepted cn x list s attached absent =
    let unchanged : tell_disconnected cn s ≡ s =
      ap (λ l. tell_search l cn s) attached ∙ ap (λ b. if b then tell cn s else s) absent in
    let (_, queue, accepted, _, _) = unsafe_disconnect_lem cn (tell_disconnected cn s) in
    (
      queue ∙ ap (λ t. t.m_disconnected_queue) unchanged,
      accepted ∙ ap (λ t. t.m_internal_connections) unchanged,
    )
