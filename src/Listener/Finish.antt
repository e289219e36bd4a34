-- ===== src/Listener/Finish.antt =====
-- What `run_imp` does behind its event loop with the connections that the listener accepted.
use sednl.Base.{
  ◌≡◌, refl, ap, sym, ◌∙◌, arith, ℕ, ◌==◌, Bool, true, false, none, some, List, [], ◌∷◌,
  if◌then◌else◌, All, All-map, Bool-cases, inl, inr,
}
use sednl.Bytes.Host.{Host}
use sednl.Listener.Attach.{contains}
use sednl.Listener.Connections.{
  Connections, find_internal, has_pointer, erase_pointer, unsafe_disconnect, tell, tell_search,
  tell_disconnected, disconnected, disconnect,
}
use sednl.Consumer.Consume.{consume_events}
use sednl.Listener.Loop.{
  Joinable, queues_of, join_consumer, join_consumers, EventListener, Arrival, looped, undefined,
  event_loop, disconnect_all, release_resources, finish_run, run_imp,
}

false_anyway : (b f : Bool) → f ≡ false → (if b then false else f) ≡ false
false_anyway true f h = refl
false_anyway false f h = h

unsafe_disconnect_shape :
    (cn : ℕ) (c : Connections)
    → ((unsafe_disconnect cn c).m_connections ≡ c.m_connections)
      × ((unsafe_disconnect cn c).m_internal_connections ≡ c.m_internal_connections)
      × ((unsafe_disconnect cn c).m_disconnected_queue ≡ c.m_disconnected_queue)
      × ((k : ℕ)
          → (unsafe_disconnect cn c).m_connected k ≡ (if k == cn then false else c.m_connected k))
unfolding unsafe_disconnect
unsafe_disconnect_shape cn c = elim (Bool-cases (c.m_connected cn)) [
  | inl opened ↦ rw opened (refl, refl, refl, λ k. refl)
  | inr shut ↦ rw shut (refl, refl, refl, λ k. ground arith)
]

disconnect-attached :
    (cn x : ℕ) (attached : List ℕ) (c : Connections)
    → c.m_connections ≡ x ∷ attached
    → contains (x ∷ attached) cn ≡ false
    → disconnect cn c ≡ unsafe_disconnect cn c
unfolding disconnect tell_disconnected tell_search
disconnect-attached cn x attached c e absent =
    ap (unsafe_disconnect cn)
      (ap (λ l. tell_search l cn c) e ∙ ap (λ b. if b then tell cn c else c) absent)

-- An accepted connection that is none of the attached ones, in a map that has its descriptor once.
abbrev pub IsInternal : List ℕ → Connections → ℕ × ℕ → Type 0
IsInternal attached c k =
    (find_internal c.m_internal_connections k.0 ≡ some k.1) × (contains attached k.1 ≡ false)

record Shut (list : List (ℕ × ℕ)) (c : Connections) : Type 0 where
  pub end : Connections
  pub ends : disconnect_all list c ≡ some end
  pub queue : end.m_disconnected_queue ≡ c.m_disconnected_queue
  pub shut : All (λ k. end.m_connected k.1 ≡ false) list
  pub stays : (cn : ℕ) → c.m_connected cn ≡ false → end.m_connected cn ≡ false

disconnect_all_lem :
    (x : ℕ) (attached : List ℕ) (list : List (ℕ × ℕ)) (c : Connections)
    → c.m_connections ≡ x ∷ attached
    → All (IsInternal (x ∷ attached) c) list
    → Shut list c
unfolding disconnect_all
disconnect_all_lem x attached [] c e internal = record {
  end = c;
  ends = refl;
  queue = refl;
  shut = tt;
  stays = λ cn h. h;
}
disconnect_all_lem x attached ((fd, cn) ∷ list) c e ((found, absent), internal) =
    let quiet = disconnect-attached cn x attached c e absent in
    let (external, kept, queue, flags) = unsafe_disconnect_shape cn c in
    let same : (disconnect cn c).m_internal_connections ≡ c.m_internal_connections =
      ap (λ (d : Connections). d.m_internal_connections) quiet ∙ kept in
    let rest =
      disconnect_all_lem x attached list (disconnect cn c)
        (ap (λ (d : Connections). d.m_connections) quiet ∙ external ∙ e)
        (All-map (IsInternal (x ∷ attached) c) (IsInternal (x ∷ attached) (disconnect cn c))
          (λ k h. (ap (λ l. find_internal l k.0) same ∙ h.0, h.1)) list internal) in
    let still : find_internal (disconnect cn c).m_internal_connections fd ≡ some cn =
      ap (λ l. find_internal l fd) same ∙ found in
    let flag = λ (k : ℕ). ap (λ (d : Connections). d.m_connected k) quiet ∙ flags k in
    let self : (cn == cn) ≡ true = ground arith in
    record {
      end = rest.end;
      ends = rw (disconnect_all, still) rest.ends;
      queue = rest.queue ∙ ap (λ (d : Connections). d.m_disconnected_queue) quiet ∙ queue;
      shut = (
        rest.stays cn (flag cn ∙ ap (λ b. if b then false else c.m_connected cn) self),
        rest.shut,
      );
      stays = λ k h. rest.stays k (flag k ∙ false_anyway (k == cn) (c.m_connected k) h);
    }

m_internal_connections-tell :
    (cn : ℕ) (c : Connections) → (tell cn c).m_internal_connections ≡ c.m_internal_connections
unfolding disconnected
m_internal_connections-tell cn c = elim (Bool-cases c.m_poller) [
  | inl polled ↦ rw polled refl
  | inr alone ↦ rw alone refl
]

-- With no connection attached, disconnecting the first accepted one erases it from the map.
disconnect-first :
    (fd cn : ℕ) (rest : List (ℕ × ℕ)) (c : Connections)
    → c.m_connections ≡ []
    → c.m_internal_connections ≡ (fd, cn) ∷ rest
    → (disconnect cn c).m_internal_connections ≡ rest
unfolding disconnect tell_disconnected tell_search has_pointer erase_pointer
disconnect-first fd cn rest c none_attached accepted =
    let self : (cn == cn) ≡ true = ground arith in
    let left = record c { m_internal_connections = rest } in
    let there : tell_disconnected cn c ≡ tell cn left =
      ap (λ l. tell_search l cn c) none_attached
      ∙ ap
          (λ l.
            if has_pointer l cn
            then tell cn (record c { m_internal_connections = erase_pointer l cn })
            else c)
          accepted
      ∙ ap
          (λ b.
            if (if b then true else has_pointer rest cn)
            then tell cn (record c {
              m_internal_connections = if b then rest else (fd, cn) ∷ erase_pointer rest cn;
            })
            else c)
          self in
    (unsafe_disconnect_shape cn (tell_disconnected cn c)).1
    ∙ ap (λ (d : Connections). d.m_internal_connections) there
    ∙ m_internal_connections-tell cn left

join_consumers-m_connected :
    (consumers : List Joinable) (s : EventListener)
    → (join_consumers consumers s).inbox.connections.m_connected ≡ s.inbox.connections.m_connected
unfolding join_consumers join_consumer
join_consumers-m_connected [] s = refl
join_consumers-m_connected (c ∷ consumers) s =
    join_consumers-m_connected consumers (join_consumer c s) ∙ one
  where
    one : (join_consumer c s).inbox.connections.m_connected ≡ s.inbox.connections.m_connected
    one = elim (Bool-cases c.m_running) [ inl runs ↦ rw runs refl | inr idle ↦ rw idle refl ]

join_consumers-m_links :
    (consumers : List Joinable) (s : EventListener)
    → (join_consumers consumers s).inbox.m_links ≡ s.inbox.m_links
unfolding join_consumers join_consumer
join_consumers-m_links [] s = refl
join_consumers-m_links (c ∷ consumers) s =
    join_consumers-m_links consumers (join_consumer c s) ∙ one
  where
    one : (join_consumer c s).inbox.m_links ≡ s.inbox.m_links
    one = elim (Bool-cases c.m_running) [ inl runs ↦ rw runs refl | inr idle ↦ rw idle refl ]

-- Consumers see no more of a listener than its queues and links.
join_consumers-queues :
    (consumers : List Joinable) (s t : EventListener)
    → queues_of s ≡ queues_of t
    → queues_of (join_consumers consumers s) ≡ queues_of (join_consumers consumers t)
unfolding join_consumers join_consumer
join_consumers-queues [] s t e = e
join_consumers-queues (c ∷ consumers) s t e =
    join_consumers-queues consumers (join_consumer c s) (join_consumer c t) one
  where
    one : queues_of (join_consumer c s) ≡ queues_of (join_consumer c t)
    one = elim (Bool-cases c.m_running) [
      | inl runs ↦
          rw runs (ap (λ p. record (consume_events c.consumer p) { m_links = p.m_links }) e)
      | inr idle ↦ rw idle e
    ]

module _ ⦃host : Host⦄ where
  run_imp-looped :
      (size : ℕ) (arrivals : List Arrival) (s : EventListener) {t : EventListener}
      → event_loop size arrivals s ≡ looped t
      → run_imp size arrivals s ≡ finish_run t
  unfolding run_imp
  run_imp-looped size arrivals s e = rw (e, run_imp) refl

  -- If no connection is attached to a listener, and it has accepted one when its event loop has ended,
  -- the behaviour of `run_imp` is undefined: the loop over the accepted connections moves on from an
  -- element that disconnecting has erased from the map.
  pub run_imp-no_attached :
      (size fd cn : ℕ) (rest : List (ℕ × ℕ)) (arrivals : List Arrival) (s t : EventListener)
      → event_loop size arrivals s ≡ looped t
      → t.inbox.connections.m_connections ≡ []
      → t.inbox.connections.m_internal_connections ≡ (fd, cn) ∷ rest
      → find_internal rest fd ≡ none
      → run_imp size arrivals s ≡ undefined
  unfolding finish_run disconnect_all
  run_imp-no_attached size fd cn rest arrivals s t loop none_attached accepted once =
      let c = t.inbox.connections in
      let gone : find_internal (disconnect cn c).m_internal_connections fd ≡ none =
        ap (λ l. find_internal l fd) (disconnect-first fd cn rest c none_attached accepted)
        ∙ once in
      let stuck : disconnect_all c.m_internal_connections c ≡ none =
        ap (λ l. disconnect_all l c) accepted ∙ rw (gone, disconnect_all) refl in
      run_imp-looped size arrivals s loop ∙ rw (stuck, finish_run) refl

  -- If connections are attached, and each accepted one is in the map under its descriptor and is none
  -- of them, `run_imp` ends with the accepted connections disconnected and the map empty. None of them
  -- is announced: the consumers that are joined make the same calls, and leave the same queues, as if
  -- they were joined where the event loop has ended, with no connection disconnected since.
  pub run_imp-attached :
      (size x : ℕ) (attached : List ℕ) (arrivals : List Arrival) (s t : EventListener)
      → event_loop size arrivals s ≡ looped t
      → t.inbox.connections.m_connections ≡ x ∷ attached
      → All
          (IsInternal (x ∷ attached) t.inbox.connections)
          t.inbox.connections.m_internal_connections
      → (end : EventListener) × (run_imp size arrivals s ≡ looped end)
        × All
            (λ k. end.inbox.connections.m_connected k.1 ≡ false)
            t.inbox.connections.m_internal_connections
        × (end.inbox.connections.m_internal_connections ≡ [])
        × (queues_of (join_consumers t.m_consumers t)
            ≡ record (queues_of end) { m_links = t.inbox.m_links })
  unfolding finish_run
  run_imp-attached size x attached arrivals s t loop some_attached internal =
      let c = t.inbox.connections in
      let all = disconnect_all_lem x attached c.m_internal_connections c some_attached internal in
      let u = record t { inbox = record t.inbox { connections = all.end } } in
      let same : queues_of t ≡ queues_of u =
        ap (λ q. record (queues_of t) { m_disconnected_queue = q }) (sym all.queue) in
      (
        release_resources (join_consumers t.m_consumers u),
        run_imp-looped size arrivals s loop ∙ rw (all.ends, finish_run) refl,
        All-map (λ (k : ℕ × ℕ). all.end.m_connected k.1 ≡ false)
            (λ k. (join_consumers t.m_consumers u).inbox.connections.m_connected k.1 ≡ false)
            (λ k shut. ap (λ f. f k.1) (join_consumers-m_connected t.m_consumers u) ∙ shut)
            c.m_internal_connections all.shut,
        refl,
        join_consumers-queues t.m_consumers t u same
            ∙ ap (λ l. record (queues_of (join_consumers t.m_consumers u)) { m_links = l })
                (join_consumers-m_links t.m_consumers u),
      )
