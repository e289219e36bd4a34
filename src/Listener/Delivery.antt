-- ===== src/Listener/Delivery.antt =====
-- What a listener's queues hold after some events of one connection.
use sednl.Base.{
  ◌≡◌, ◌≢◌, refl, sym, ap, ◌∙◌, arith, ℕ, Bool, true, false, Option, none, some, List, [], ◌∷◌,
  ◌++◌, if◌then◌else◌, Name, assign, at_or, same_name, All, All-append, All-map, Bool-cases, inl,
  inr, at_or-assign_same, at_or-assign_other, same_name_refl, same_name_sound, append_assoc,
  append-nil,
}
use mathlib.Core.Bool.{true≢false}
use sednl.Event.Pack.{Event}
use sednl.RingBuf.Buffer.{RingBuf}
use sednl.Listener.Queue.{SafeQueue, is_full, push}
use sednl.Listener.Attach.{update}
use sednl.Listener.Receive.{CnEvent, Inbox, notify_consumer, link_of, receive_event}

-- The queue of a name, empty if there is none.
abbrev pub queue_of : Inbox → Name → SafeQueue CnEvent
queue_of s name = at_or [] s.m_events name

-- Those of the events that have the name, with the connection.
abbrev pub named : ℕ → Name → List Event → List CnEvent
named cn name [] = []
named cn name (e ∷ es) =
    let rest = named cn name es in if same_name e.m_name name then (cn, e) ∷ rest else rest

-- Whether the consumer has been notified, if there is one.
abbrev pub is_awake : Inbox → Option ℕ → Bool
is_awake s none = true
is_awake s (some desc) = s.wake_up desc

-- The listener `s'` has put the events of the connection into the queues of `s`.
pub record Delivered (cn : ℕ) (es : List Event) (s s' : Inbox) : Type 0 where
  pub unbounded : s'.connections.m_max_queue_size ≡ s.connections.m_max_queue_size
  pub links : (name : Name) → link_of s' name ≡ link_of s name
  pub queues : (name : Name) → queue_of s' name ≡ queue_of s name ++ named cn name es
  pub awake : (link : Option ℕ) → is_awake s link ≡ true → is_awake s' link ≡ true
  pub woken : All (λ e. is_awake s' (link_of s e.m_name) ≡ true) es

pub named-append :
    (cn : ℕ) (name : Name) (es fs : List Event)
    → named cn name (es ++ fs) ≡ named cn name es ++ named cn name fs
named-append cn name [] fs = refl
named-append cn name (e ∷ es) fs = elim (Bool-cases (same_name e.m_name name)) [
  | inl same ↦ rw same (ap (λ l. (cn, e) ∷ l) (named-append cn name es fs))
  | inr other ↦ rw other (named-append cn name es fs)
]

module _ {cn : ℕ} where
  pub deliver_none : {s : Inbox} (f : ℕ → RingBuf) → Delivered cn [] s (record s { m_buffer = f })
  unfolding link_of
  deliver_none f = record {
    unbounded = refl;
    links = λ name. refl;
    queues = λ name. sym (append-nil _);
    awake = λ link h. h;
    woken = tt;
  }

  pub deliver_append :
      {es fs : List Event} {s t u : Inbox}
      → Delivered cn es s t
      → Delivered cn fs t u
      → Delivered cn (es ++ fs) s u
  deliver_append {es = es} {fs = fs} {s = s} {t = t} {u = u} d f = record {
    unbounded = f.unbounded ∙ d.unbounded;
    links = λ name. f.links name ∙ d.links name;
    queues = λ name.
        f.queues name
        ∙ ap (λ q. q ++ named cn name fs) (d.queues name)
        ∙ append_assoc (queue_of s name) (named cn name es) (named cn name fs)
        ∙ ap (λ l. queue_of s name ++ l) (sym (named-append cn name es fs));
    awake = λ link h. f.awake link (d.awake link h);
    woken =
        All-append (λ e. is_awake u (link_of s e.m_name) ≡ true) es fs
          (All-map (λ e. is_awake t (link_of s e.m_name) ≡ true)
            (λ e. is_awake u (link_of s e.m_name) ≡ true) (λ e h. f.awake (link_of s e.m_name) h) es
            d.woken)
          (All-map (λ e. is_awake u (link_of t e.m_name) ≡ true)
            (λ e. is_awake u (link_of s e.m_name) ≡ true)
            (λ e h. ap (is_awake u) (sym (d.links e.m_name)) ∙ h) fs f.woken);
  }

is_full-unbounded : {A : Type 0} (q : SafeQueue A) → is_full 0 q ≡ false
unfolding is_full
is_full-unbounded q = ground arith

awake-update : (f : ℕ → Bool) (d desc : ℕ) → f d ≡ true → update f desc true d ≡ true
awake-update f d desc h = ground arith

module _ (cn : ℕ) where
  unfoldable pushed : Event → Inbox → Inbox
  unfolding push
  pushed e s = record s {
    m_events = assign s.m_events e.m_name (push (queue_of s e.m_name) (cn, e));
  }

  queue_of-pushed :
      (e : Event) (s : Inbox) (name : Name)
      → queue_of (pushed e s) name ≡ queue_of s name ++ named cn name (e ∷ [])
  unfolding pushed
  queue_of-pushed e s name = elim (Bool-cases (same_name e.m_name name)) [
    | inl same ↦
        let eq = same_name_sound e.m_name name same in
        let here : queue_of (pushed e s) name ≡ queue_of s e.m_name ++ ((cn, e) ∷ []) =
          ap (at_or [] (pushed e s).m_events) (sym eq)
          ∙ at_or-assign_same [] s.m_events e.m_name (queue_of s e.m_name ++ ((cn, e) ∷ [])) in
        rw same (here ∙ ap (λ k. queue_of s k ++ ((cn, e) ∷ [])) eq)
    | inr other ↦
        let ne : e.m_name ≢ name =
          λ h. true≢false (sym (same_name_refl e.m_name) ∙ ap (same_name e.m_name) h ∙ other) in
        rw other (
          at_or-assign_other [] s.m_events e.m_name name (queue_of s e.m_name ++ ((cn, e) ∷ [])) ne
          ∙ sym (append-nil (queue_of s name)))
  ]

  is_awake-notify :
      (link other : Option ℕ) (t : Inbox)
      → is_awake t other ≡ true
      → is_awake (notify_consumer link t) other ≡ true
  unfolding notify_consumer
  is_awake-notify none other t h = h
  is_awake-notify (some desc) none t h = h
  is_awake-notify (some desc) (some d) t h = awake-update t.wake_up d desc h

  -- All that `receive_event` changes.
  notify_shape :
      (link : Option ℕ) (t : Inbox)
      → (w : ℕ → Bool) × (notify_consumer link t ≡ record t { wake_up = w })
  unfolding notify_consumer
  notify_shape none t = (t.wake_up, refl)
  notify_shape (some desc) t = (update t.wake_up desc true, refl)

  notify-is_awake : (link : Option ℕ) (t : Inbox) → is_awake (notify_consumer link t) link ≡ true
  unfolding notify_consumer
  notify-is_awake none t = refl
  notify-is_awake (some desc) t = ground arith

  keeps_awake :
      (s : Inbox) (e : Event) (other : Option ℕ)
      → is_awake s other ≡ true
      → is_awake (pushed e s) other ≡ true
  unfolding pushed
  keeps_awake s e none h = h
  keeps_awake s e (some d) h = h

  deliver_pushed :
      (s : Inbox) (e : Event) (link : Option ℕ)
      → link_of s e.m_name ≡ link
      → Delivered cn (e ∷ []) s (notify_consumer link (pushed e s))
  unfolding notify_consumer link_of pushed
  deliver_pushed s e none h = record {
    unbounded = refl;
    links = λ name. refl;
    queues = queue_of-pushed e s;
    awake = λ other a. keeps_awake s e other a;
    woken = (rw h refl, tt);
  }
  deliver_pushed s e (some desc) h = record {
    unbounded = refl;
    links = λ name. refl;
    queues = queue_of-pushed e s;
    awake = λ other a. is_awake-notify (some desc) other (pushed e s) (keeps_awake s e other a);
    woken = (rw h (notify-is_awake (some desc) (pushed e s)), tt);
  }

  -- An event that is received is pushed, if the queues have no bound.
  pub deliver_one :
      {s : Inbox} (e : Event)
      → s.connections.m_max_queue_size ≡ 0
      → Delivered cn (e ∷ []) s (receive_event cn e s)
  unfolding receive_event pushed
  deliver_one {s} e h =
      let room : is_full s.connections.m_max_queue_size (queue_of s e.m_name) ≡ false =
        ap (λ m. is_full m (queue_of s e.m_name)) h ∙ is_full-unbounded (queue_of s e.m_name) in
      rw room (deliver_pushed s e (link_of s e.m_name) refl)

  pub receive_event_shape :
      (s : Inbox) (e : Event)
      → (q : SafeQueue CnEvent) × (w : ℕ → Bool) × (receive_event cn e s
          ≡ record s { m_events = assign s.m_events e.m_name q; wake_up = w })
  unfolding receive_event pushed
  receive_event_shape s e =
      elim (Bool-cases (is_full s.connections.m_max_queue_size (queue_of s e.m_name))) [
        | inl full ↦ (queue_of s e.m_name, s.wake_up, rw full refl)
        | inr room ↦
            let (w, p) = notify_shape (link_of s e.m_name) (pushed e s) in
            (push (queue_of s e.m_name) (cn, e), w, rw room p)
      ]

  pub m_buffer-receive_event :
      (s : Inbox) (e : Event) → (receive_event cn e s).m_buffer ≡ s.m_buffer
  m_buffer-receive_event s e = ap (λ t. t.m_buffer) (receive_event_shape s e).2
