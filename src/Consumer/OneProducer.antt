-- ===== src/Consumer/OneProducer.antt =====
-- What `set_producer` and `remove_producer` do to the lists of the listeners.
use sednl.Base.{
  ℕ, ◌≤◌, ◌==◌, ◌≡◌, refl, ap, sym, subst, ◌∙◌, Bool, true, false, not, ◌&&◌, Bool-cases, Option,
  Option-cases, none, some, [], ◌∷◌, ◌++◌, if◌then◌else◌, arith, inl, inr,
}
use sednl.Exceptions.{
  EventExceptionT, event_consumer_running, Result, ok, thrown, fault, aborted, ◌>>◌,
}
use sednl.Listener.Attach.{World, update, contains, erase, is_null, points_to}
use sednl.Listener.Parents.{number_in, IsCoherent, contains-number_in, attached, detached}
use sednl.Consumer.Producers.{
  Parties, Setting, remove_consumer, add_consumer, point_to, leave_producer, remove_producer,
  set_producer,
}

-- No consumer is a connection.
abbrev pub IsPlain : World → Type 0
IsPlain w = IsCoherent w × ((c : ℕ) → w.accepted c ≡ false)

-- Such a call ends with the lists coherent, if it ends, and then with the given producer.
abbrev pub Ends : (Parties → Type 0) → Result EventExceptionT Parties (Unit {0}) → Type 0
Ends P (ok a p) = P p
Ends P (thrown e p) = IsPlain p.world
Ends P (fault x) = Unit

then_Ends :
    (P Q : Parties → Type 0) (m k : Setting) (p : Parties)
    → Ends P (m p)
    → ((q : Parties) → P q → Ends Q (k q))
    → Ends Q ((m >> k) p)
then_Ends P Q m k p h next = by_first (m p) h
  where
    by_first :
        (o : Result EventExceptionT Parties (Unit {0}))
        → Ends P o
        → Ends Q (elim o [ ok a q ↦ k q | thrown e q ↦ thrown e q | fault x ↦ fault x ])
    by_first (ok a q) h = next q h
    by_first (thrown e q) h = h
    by_first (fault x) h = tt

-- Coherent, and without a producer for the consumer.
abbrev pub Alone : ℕ → Parties → Type 0
Alone c p = IsPlain p.world × (p.world.m_listener c ≡ none)

update_at {ℓ} : {A : Type ℓ} (f : ℕ → A) (k : ℕ) (x : A) → update f k x k ≡ x
update_at f k x = ground arith

producer_lists :
    (c l : ℕ) (w : World) → IsPlain w → w.m_listener c ≡ some l → contains (w.managed l) c ≡ true
unfolding IsCoherent
producer_lists c l w h e =
    let self : (l == l) ≡ true = ground arith in
    let owned : points_to (w.m_listener c) l ≡ true = ap (λ o. points_to o l) e ∙ self in
    let one : 1 ≤ number_in (w.managed l) c = rw owned at (h.0 l c).1 (h.1 c) in
    contains-number_in (w.managed l) c ∙ ground arith

alone_absent :
    (c l : ℕ) (w : World) → IsPlain w → w.m_listener c ≡ none → contains (w.managed l) c ≡ false
unfolding IsCoherent
alone_absent c l w h e =
    let none_has : number_in (w.managed l) c ≤ 0 = rw e at (h.0 l c).0 in
    contains-number_in (w.managed l) c ∙ ground arith

-- `leave_producer`, by what it reads.
abbrev pub Ending : Type 0
Ending = Result EventExceptionT Parties (Unit {0})

left : ℕ → ℕ → Parties → Parties
left c l p = record p {
  world = record p.world { managed = update p.world.managed l (erase (p.world.managed l) c) };
}

by_producer : ℕ → Parties → Option ℕ → Ending
by_producer c p o = elim o [ none ↦ ok tt p | some l ↦ (remove_consumer l c >> point_to c none) p ]

by_running : ℕ → ℕ → Parties → Bool → Ending
by_running c l p b =
    ((λ q.
          if b
          then fault aborted
          else if contains (q.world.managed l) c
          then ok tt (left c l q)
          else ok tt q)
        >> point_to c none)
      p

by_listed : ℕ → ℕ → Parties → Bool → Ending
by_listed c l p b = ((λ q. if b then ok tt (left c l q) else ok tt q) >> point_to c none) p

pub leave_producer-runs :
    (c l : ℕ) (p : Parties)
    → p.world.m_listener c ≡ some l
    → p.world.m_running l ≡ true
    → leave_producer c p ≡ fault aborted
unfolding leave_producer remove_consumer by_producer by_running left
leave_producer-runs c l p e runs = ap (by_producer c p) e ∙ ap (by_running c l p) runs

leave_producer-idle :
    (c l : ℕ) (p : Parties)
    → p.world.m_listener c ≡ some l
    → p.world.m_running l ≡ false
    → contains (p.world.managed l) c ≡ true
    → leave_producer c p
      ≡ ok tt (record p {
        world = record p.world {
          managed = update p.world.managed l (erase (p.world.managed l) c);
          m_listener = update p.world.m_listener c none;
        };
      })
unfolding leave_producer remove_consumer point_to by_producer by_running by_listed left
leave_producer-idle c l p e idle there =
    ap (by_producer c p) e ∙ ap (by_running c l p) idle ∙ ap (by_listed c l p) there

leave_producer-Ends : (c : ℕ) (p : Parties) → IsPlain p.world → Ends (Alone c) (leave_producer c p)
leave_producer-Ends c p h = elim (Option-cases (p.world.m_listener c)) [
  | inl alone ↦
      let stays : leave_producer c p ≡ ok tt p =
        unfold leave_producer in rw (leave_producer, alone) refl in
      subst (Ends (Alone c)) (sym stays) (h, alone)
  | inr (l, e) ↦ elim (Bool-cases (p.world.m_running l)) [
    | inl runs ↦ subst (Ends (Alone c)) (sym (leave_producer-runs c l p e runs)) tt
    | inr idle ↦
        let there = producer_lists c l p.world h e in
        subst (Ends (Alone c)) (sym (leave_producer-idle c l p e idle there)) (
          ((unfold IsCoherent in λ k x. detached l c k x p.world h.0 there), h.1),
          update_at p.world.m_listener c none,
        )
  ]
]

-- `add_consumer` and `m_producer = &producer`, by what they read.
joined : ℕ → ℕ → Parties → Parties
joined c l p = record p {
  world = record p.world { managed = update p.world.managed l (p.world.managed l ++ (c ∷ [])) };
}

add_by_running : ℕ → ℕ → Parties → Bool → Ending
add_by_running c l p b =
    ((λ q.
          if b
          then fault aborted
          else if contains (q.world.managed l) c
          then ok tt q
          else ok tt (joined c l q))
        >> point_to c (some l))
      p

add_by_listed : ℕ → ℕ → Parties → Bool → Ending
add_by_listed c l p b =
    ((λ q. if b then ok tt q else ok tt (joined c l q)) >> point_to c (some l)) p

join_producer-Ends :
    (c l : ℕ) (p : Parties)
    → Alone c p
    → Ends
        (λ q. IsPlain q.world × (q.world.m_listener c ≡ some l))
        ((add_consumer l c >> point_to c (some l)) p)
unfolding add_consumer point_to add_by_running add_by_listed joined
join_producer-Ends c l p (h, alone) = elim (Bool-cases (p.world.m_running l)) [
  | inl runs ↦
      subst (Ends (λ q. IsPlain q.world × (q.world.m_listener c ≡ some l)))
        (sym (ap (add_by_running c l p) runs)) tt
  | inr idle ↦
      let absent = alone_absent c l p.world h alone in
      let free = ap (λ o. not (is_null o) && not (points_to o l)) alone in
      subst (Ends (λ q. IsPlain q.world × (q.world.m_listener c ≡ some l)))
        (sym (ap (add_by_running c l p) idle ∙ ap (add_by_listed c l p) absent))
        (
          ((unfold IsCoherent in λ k x. attached l c k x p.world h.0 absent free), h.1),
          update_at p.world.m_listener c (some l),
        )
]

pub set_producer-Ends :
    (c l : ℕ) (p : Parties)
    → IsPlain p.world
    → Ends (λ q. IsPlain q.world × (q.world.m_listener c ≡ some l)) (set_producer c l p)
unfolding set_producer
set_producer-Ends c l p h = by_consumer (p.consumes c)
  where
    by_consumer :
        (b : Bool)
        → Ends
            (λ q. IsPlain q.world × (q.world.m_listener c ≡ some l))
            (if b
              then thrown event_consumer_running p
              else (leave_producer c >> (add_consumer l c >> point_to c (some l))) p)
    by_consumer true = h
    by_consumer false =
        then_Ends (Alone c) (λ q. IsPlain q.world × (q.world.m_listener c ≡ some l))
          (leave_producer c) (add_consumer l c >> point_to c (some l)) p (leave_producer-Ends c p h)
          (λ q a. join_producer-Ends c l q a)

pub remove_producer-Ends :
    (c : ℕ) (p : Parties) → IsPlain p.world → Ends (Alone c) (remove_producer c p)
unfolding remove_producer
remove_producer-Ends c p h = by_consumer (p.consumes c)
  where
    by_consumer : (b : Bool) → Ends (Alone c) (if b then fault aborted else leave_producer c p)
    by_consumer true = tt
    by_consumer false = leave_producer-Ends c p h
