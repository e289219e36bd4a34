-- ===== src/Listener/Restart.antt =====
-- A listener that is started and stopped any number of times.
use sednl.Base.{
  ◌≡◌, refl, sym, ap, subst, ◌∙◌, Option, ◌⊎◌, inl, inr, ℕ, Bool, true, false, not, ◌&&◌,
  Bool-cases, some, List, [], ◌∷◌,
}
use sednl.Exceptions.{
  EventExceptionT, poller_add_failed, poller_create_failed, event_collision, ok, thrown, ◌>>◌,
  >>=-ok, >>=-thrown,
}
use sednl.Listener.Links.{
  Links, Linking, create_poller, register, link_consumers, run_init, clear_consumer_links,
}
use sednl.Listener.LinkState.{no_links}
use sednl.Listener.Claims.{claims, collides}
use sednl.Listener.Linked.{link_consumers-links, link_consumers-collision}
use sednl.Listener.Running.{
  Running, Setup, make_listener, init, launch, run, wait_for_thread, join, Turn, starts, stops,
  turn, turn_all,
}

register-cases :
    (add_fd : ℕ → Bool) (list : List (Bool × ℕ)) (s : Links)
    → (register add_fd list s ≡ ok tt s) ⊎ (register add_fd list s ≡ thrown poller_add_failed s)
unfolding register
register-cases add_fd [] s = inl refl
register-cases add_fd ((connected, fd) ∷ list) s =
    elim (Bool-cases (connected && not (add_fd fd))) [
      | inl fails ↦ inr (rw fails refl)
      | inr good ↦ rw good (register-cases add_fd list s)
    ]

-- From no links, it throws with no links or succeeds.
abbrev Settled : Linking → Type 0
Settled m =
    ((e : EventExceptionT) × (m no_links ≡ thrown e no_links))
    ⊎ ((l : Links) × (m no_links ≡ ok tt l))

-- `run_init` behind `new Poller`.
abbrev registering : Setup → Linking
registering a =
    register a.add_fd a.servers >> (register a.add_fd a.connections >> link_consumers a.consumers)

registering-Settled : (a : Setup) → Settled (registering a)
registering-Settled a =
    let later = register a.add_fd a.connections >> link_consumers a.consumers in
    let first : (register a.add_fd a.servers no_links ≡ ok tt no_links
        → registering a no_links ≡ later no_links) =
      λ one. >>=-ok (register a.add_fd a.servers) (λ _. later) no_links one in
    let second : (register a.add_fd a.connections no_links ≡ ok tt no_links
        → later no_links ≡ link_consumers a.consumers no_links) =
      λ two.
        >>=-ok (register a.add_fd a.connections) (λ _. link_consumers a.consumers) no_links two in
    elim (register-cases a.add_fd a.servers no_links) [
      | inr fails ↦
          inl (
            poller_add_failed,
            >>=-thrown (register a.add_fd a.servers) (λ _. later) no_links fails,
          )
      | inl one ↦ elim (register-cases a.add_fd a.connections no_links) [
        | inr fails ↦ inl (
          poller_add_failed,
          first one
              ∙ >>=-thrown (register a.add_fd a.connections) (λ _. link_consumers a.consumers)
                  no_links fails,
        )
        | inl two ↦ elim (Bool-cases (collides (claims a.consumers))) [
          | inl clash ↦
              inl (
                event_collision,
                first one ∙ second two ∙ link_consumers-collision a.consumers clash,
              )
          | inr apart ↦
              let (l, linked, _, _) = link_consumers-links a.consumers apart in
              inr (l, first one ∙ second two ∙ linked)
        ]
      ]
    ]

run_init-Settled :
    (a : Setup) → Settled (run_init a.created a.add_fd a.servers a.connections a.consumers)
unfolding run_init create_poller
run_init-Settled a = elim (Bool-cases a.created) [
  | inr fails ↦ inl (poller_create_failed, rw fails refl)
  | inl made ↦ rw made (registering-Settled a)
]

abbrev idle : Running
idle = record { m_running = false; m_thread = false; links = no_links }

abbrev busy : Links → Running
busy l = record { m_running = true; m_thread = true; links = l }

abbrev Reached : Running → Type 0
Reached s = (s ≡ idle) ⊎ ((l : Links) × (s ≡ busy l))

-- One turn from where a listener can be.
abbrev Goes : Option Running → Type 0
Goes o = (t : Running) × (o ≡ some t) × Reached t

turn-idle : (c : Turn) → Goes (turn c idle)
unfolding turn run join init launch
turn-idle stops = (idle, refl, inl refl)
turn-idle (starts a) = elim (run_init-Settled a) [
  | inl (e, fails) ↦ (idle, rw (fails, turn) refl, inl refl)
  | inr (l, works) ↦ (busy l, rw (works, turn) refl, inr (l, refl))
]

turn-busy : (l : Links) (c : Turn) → Goes (turn c (busy l))
unfolding turn run join wait_for_thread clear_consumer_links
turn-busy l stops = (idle, refl, inl refl)
turn-busy l (starts a) = (busy l, refl, inr (l, refl))

turn_all-Goes : (cs : List Turn) (s : Running) → Reached s → Goes (turn_all cs s)
unfolding turn_all
turn_all-Goes [] s h = (s, refl, h)
turn_all-Goes (c ∷ cs) s h =
    let (t, e, there) : Goes (turn c s) = elim h [
      | inl at_rest ↦ subst (λ x. Goes (turn c x)) (sym at_rest) (turn-idle c)
      | inr (l, at_work) ↦ subst (λ x. Goes (turn c x)) (sym at_work) (turn-busy l c)
    ] in
    rw (e, turn_all) (turn_all-Goes cs t there)

-- After any calls of `run`, failed ones included, and `join`, with any setup for each, the program has
-- not ended by a thread that replaces a joinable one. Flag, thread and links of the listener are then
-- either exactly as when it was made, or it runs with a joinable thread. Each thread that `join` waits
-- for reaches its end.
pub turn_all-restarts :
    (cs : List Turn) (l : Links)
    → (s : Running) × (turn_all cs (make_listener l) ≡ some s)
      × ((s ≡ make_listener l) ⊎ ((s.m_running ≡ true) × (s.m_thread ≡ true)))
unfolding make_listener clear_consumer_links
turn_all-restarts cs l =
    let (s, e, there) = turn_all-Goes cs idle (inl refl) in
    (
      s,
      e,
      elim there [
        | inl at_rest ↦ inl at_rest
        | inr (k, at_work) ↦ inr (ap (λ x. x.m_running) at_work, ap (λ x. x.m_thread) at_work)
      ],
    )
