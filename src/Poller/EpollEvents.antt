-- ===== src/Poller/EpollEvents.antt =====
-- What a listener hears from epoll, and what it does about a connection whose peer has closed it.
use mathlib.Core.List.{map}
use sednl.Base.{
  ◌≡◌, refl, ap, ◌∙◌, arith, ℕ, zero, suc, ◌+◌, ◌≤◌, ◌<◌, leb, Bool, true, false, ◌||◌,
  if◌then◌else◌, Option, none, some, List, [], ◌∷◌, length, drop, drop-cons, get_elem?,
  get_elem?-some,
}
use sednl.Poller.Select.{Event, follow}
use sednl.Poller.Epoll.{EpollEvent, Poller, wait_for_events, event_of, next_event, all_events}

length-drop_nil : {A : Type 0} (xs : List A) (i : ℕ) → drop i xs ≡ [] → length xs ≤ i
length-drop_nil [] i e = omega arith
length-drop_nil (x ∷ xs) zero e = absurd (cc e)
length-drop_nil (x ∷ xs) (suc i) e = omega (arith, length-drop_nil xs i e)

next_event-end : (p : Poller) → leb p.m_nb_events p.m_idx ≡ true → next_event p ≡ (none, p)
unfolding next_event
next_event-end p e = rw (e, next_event) refl

next_event-here :
    (p : Poller) (x : EpollEvent)
    → leb p.m_nb_events p.m_idx ≡ false
    → get_elem? p.m_events p.m_idx ≡ some x
    → next_event p ≡ (some (event_of x), record p { m_idx = p.m_idx + 1 })
unfolding next_event
next_event-here p x more here = rw (more, here, next_event) refl

all_events-end :
    (n : ℕ) (p : Poller) → leb p.m_nb_events p.m_idx ≡ true → all_events (suc n) p ≡ some []
unfolding all_events
all_events-end n p stop = ap (λ x. follow x.0 (all_events n x.1)) (next_event-end p stop)

wait_for_events_lem :
    (epoll_wait : Option ℕ → Option (List EpollEvent)) (p : Poller)
    → ((list : List EpollEvent)
        → epoll_wait p.m_epoll ≡ some list
        → wait_for_events epoll_wait p
          ≡ record p { m_events = list; m_nb_events = length list; m_idx = 0 })
      × (epoll_wait p.m_epoll ≡ none
          → wait_for_events epoll_wait p ≡ record p { m_nb_events = 0; m_idx = 0 })
unfolding wait_for_events
wait_for_events_lem epoll_wait p =
    (λ list e. rw (e, wait_for_events) refl, λ e. rw (e, wait_for_events) refl)

all_events_lem :
    (rest : List EpollEvent) (n : ℕ) (p : Poller)
    → p.m_nb_events ≡ length p.m_events
    → drop p.m_idx p.m_events ≡ rest
    → length rest < n
    → all_events n p ≡ some (map event_of rest)
unfolding all_events
all_events_lem rest zero p count e h = absurd (omega arith)
all_events_lem [] (suc n) p count e h =
    let stop : leb p.m_nb_events p.m_idx ≡ true =
      ground (arith, length-drop_nil p.m_events p.m_idx e) in
    all_events-end n p stop
all_events_lem (x ∷ rest) (suc n) p count e h =
    let (here, next) = drop-cons p.m_events p.m_idx e in
    let inside : leb p.m_nb_events p.m_idx ≡ false =
      ground (arith, get_elem?-some p.m_events p.m_idx here) in
    ap (λ x. follow x.0 (all_events n x.1)) (next_event-here p x inside here)
    ∙ ap (follow (some (event_of x)))
        (all_events_lem rest n (record p { m_idx = p.m_idx + 1 }) count next (omega arith))

-- What a listener has to hear of an entry.
abbrev pub told : EpollEvent → Event
told e = record {
  fd = e.fd;
  is_read = e.epollin;
  is_close = if e.epollrdhup then true else if e.epollhup then true else e.epollerr;
}

told-event_of : (e : EpollEvent) → event_of e ≡ told e
unfolding event_of
told-event_of e =
    ap (λ b. record { fd = e.fd; is_close = b; is_read = e.epollin })
      (by_flags e.epollerr e.epollhup e.epollrdhup)
  where
    by_flags :
        (err hup rdhup : Bool)
        → (err || hup || rdhup) ≡ (if rdhup then true else if hup then true else err)
    by_flags true true true = refl
    by_flags true true false = refl
    by_flags true false true = refl
    by_flags true false false = refl
    by_flags false true true = refl
    by_flags false true false = refl
    by_flags false false true = refl
    by_flags false false false = refl

map-told : (list : List EpollEvent) → map event_of list ≡ map told list
map-told [] = refl
map-told (e ∷ list) =
    ap (λ x. x ∷ map event_of list) (told-event_of e) ∙ ap (λ l. told e ∷ l) (map-told list)

-- One wait and the loop of `next_event` give the listener the events that `epoll_wait` reports, each
-- once and in that order, or none if it fails. An event is one to read if `EPOLLIN` is set, and one to
-- close if `EPOLLERR`, `EPOLLHUP` or `EPOLLRDHUP` is. The loop ends after at most one round more than
-- there are events.
pub all_events-epoll :
    (epoll_wait : Option ℕ → Option (List EpollEvent)) (p : Poller)
    → ((list : List EpollEvent)
        → epoll_wait p.m_epoll ≡ some list
        → all_events (suc (length list)) (wait_for_events epoll_wait p) ≡ some (map told list))
      × (epoll_wait p.m_epoll ≡ none → all_events 1 (wait_for_events epoll_wait p) ≡ some [])
all_events-epoll epoll_wait p =
    let (filled, failed) = wait_for_events_lem epoll_wait p in
    (
      λ list e.
          ap (all_events (suc (length list))) (filled list e)
          ∙ all_events_lem list (suc (length list))
              (record p { m_events = list; m_nb_events = length list; m_idx = 0 }) refl refl
              (omega arith)
          ∙ ap some (map-told list),
      λ e.
          ap (all_events 1) (failed e)
          ∙ all_events-end 0 (record p { m_nb_events = 0; m_idx = 0 }) refl,
    )
