-- ===== src/Consumer/ProducerCalls.antt =====
-- A listener has a consumer in its list exactly if the consumer's producer is that listener.
use sednl.Base.{
  ℕ, ◌≡◌, refl, ap, subst, arith, ◌∙◌, Bool, true, false, none, some, List, [], ◌∷◌, if◌then◌else◌,
}
use sednl.Exceptions.{event_consumer_running, ok, thrown, fault, aborted, ◌>>◌}
use sednl.Listener.Attach.{update, points_to}
use sednl.Listener.Parents.{number_in, IsCoherent}
use sednl.Consumer.Producers.{
  Parties, add_consumer, point_to, leave_producer, remove_producer, set_producer,
}
use sednl.Consumer.OneProducer.{
  IsPlain, Ends, Alone, Ending, set_producer-Ends, remove_producer-Ends, leave_producer-runs,
}

-- Calls in any order, on any consumers and listeners; `listens` and `consumes` tell who starts or
-- stops. An exception does not end the program, but a fault does: what follows has no effect.
pub data Call : Type 0 where
  setting : ℕ → ℕ → Call
  removing : ℕ → Call
  listens consuming : ℕ → Bool → Call

unfoldable pub call : Call → Parties → Ending
unfolding set_producer remove_producer
call (setting c l) p = set_producer c l p
call (removing c) p = remove_producer c p
call (listens l b) p =
    ok tt (record p { world = record p.world { m_running = update p.world.m_running l b } })
call (consuming c b) p = ok tt (record p { consumes = update p.consumes c b })

unfoldable pub call_all : List Call → Parties → Ending
unfolding call
call_all [] p = ok tt p
call_all (c ∷ calls) p = elim (call c p) [
  | ok a q ↦ call_all calls q
  | thrown e q ↦ call_all calls q
  | fault x ↦ fault x
]

-- No consumer has a producer, and nobody runs.
unfoldable pub no_parties : Parties
no_parties = record {
  world = record {
    managed = λ _. [];
    m_running = λ _. false;
    m_listener = λ _. none;
    accepted = λ _. false;
  };
  consumes = λ _. false;
}

call-Ends : (c : Call) (p : Parties) → IsPlain p.world → Ends (λ q. IsPlain q.world) (call c p)
unfolding call
call-Ends (setting c l) p h = weaken (set_producer c l p) (set_producer-Ends c l p h)
  where
    weaken :
        (o : Ending)
        → Ends (λ q. IsPlain q.world × (q.world.m_listener c ≡ some l)) o
        → Ends (λ q. IsPlain q.world) o
    weaken (ok a q) h = h.0
    weaken (thrown e q) h = h
    weaken (fault x) h = tt
call-Ends (removing c) p h = weaken (remove_producer c p) (remove_producer-Ends c p h)
  where
    weaken : (o : Ending) → Ends (Alone c) o → Ends (λ q. IsPlain q.world) o
    weaken (ok a q) h = h.0
    weaken (thrown e q) h = h
    weaken (fault x) h = tt
call-Ends (listens l b) p h = ((unfold IsCoherent in h.0), h.1)
call-Ends (consuming c b) p h = h

call_all-Ends :
    (calls : List Call) (p : Parties)
    → IsPlain p.world
    → Ends (λ q. IsPlain q.world) (call_all calls p)
unfolding call_all
call_all-Ends [] p h = h
call_all-Ends (c ∷ calls) p h =
    by_call (call c p) (call-Ends c p h) (λ q g. call_all-Ends calls q g)
  where
    by_call :
        (o : Ending)
        → Ends (λ q. IsPlain q.world) o
        → ((q : Parties) → IsPlain q.world → Ends (λ r. IsPlain r.world) (call_all calls q))
        → Ends
            (λ q. IsPlain q.world)
            (elim o [
              | ok a q ↦ call_all calls q
              | thrown e q ↦ call_all calls q
              | fault x ↦ fault x
            ])
    by_call (ok a q) h next = next q h
    by_call (thrown e q) h next = next q h
    by_call (fault x) h next = tt

-- As long as no call has ended the program, a listener has a consumer in its list, and once, exactly
-- if the consumer's producer is that listener.
pub call_all-one_producer :
    (calls : List Call) (p : Parties) (l c : ℕ)
    → call_all calls no_parties ≡ ok tt p
    → number_in (p.world.managed l) c ≡ (if points_to (p.world.m_listener c) l then 1 else 0)
unfolding no_parties IsCoherent
call_all-one_producer calls p l c e =
    let (h, plain) =
      subst (Ends (λ q. IsPlain q.world)) e
        (call_all-Ends calls no_parties ((λ k x. (omega arith, λ _. omega arith)), λ _. refl)) in
    omega (arith, (h l c).0, (h l c).1 (plain c))

-- To give another producer to an idle consumer whose producer runs ends the program, instead of
-- throwing an exception.
set_producer-runs :
    (c l k : ℕ) (p : Parties)
    → p.consumes c ≡ false
    → p.world.m_listener c ≡ some k
    → p.world.m_running k ≡ true
    → set_producer c l p ≡ fault aborted
unfolding set_producer
set_producer-runs c l k p idle has runs =
    ap
      (λ b.
        if b
        then thrown event_consumer_running p
        else (leave_producer c >> (add_consumer l c >> point_to c (some l))) p)
      idle
    ∙ ap
        (λ o. elim o [
          | ok a q ↦ (add_consumer l c >> point_to c (some l)) q
          | thrown e q ↦ thrown e q
          | fault x ↦ fault x
        ])
        (leave_producer-runs c k p has runs)
