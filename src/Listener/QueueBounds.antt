-- ===== src/Listener/QueueBounds.antt =====
-- The queues are FIFO and bounded.
use sednl.Base.{
  ℕ, ◌+◌, ◌≤◌, ◌<◌, ◌≡◌, refl, ap, sym, ◌∙◌, ltb, Bool-cases, List, [], ◌∷◌, ◌++◌, length, arith,
  append_assoc, append-nil, length-append, inl, inr,
}
use sednl.Listener.Pushers.{Pushing, PushStep, tests, pushes, pops}
use sednl.Listener.Queue.{
  SafeQueue, push, pop, is_full, push_event, Step, arrival, consume, run_queue,
}

module _ {ℓ} {A : Type ℓ} where
  -- The elements that a run of steps pushes, if the queue has no bound.
  abbrev pub arrivals : List (Step A) → List A
  arrivals [] = []
  arrivals (arrival x ∷ steps) = x ∷ arrivals steps
  arrivals (consume ∷ steps) = arrivals steps

  push_event_room :
      (max : ℕ) (queue : SafeQueue A) (x : A) → max ≡ 0 → push_event max queue x ≡ queue ++ (x ∷ [])
  unfolding push_event is_full push
  push_event_room max queue x e = ground arith

  -- Without a bound (a maximum of 0), a consumer gets what the listener pushed, in order: what it has
  -- got, followed by what is still in the queue, is the old queue followed by the arrivals.
  run_queue-fifo :
      (steps : List (Step A)) (queue : SafeQueue A)
      → (run_queue 0 steps queue).0 ++ (run_queue 0 steps queue).1 ≡ queue ++ arrivals steps
  unfolding run_queue pop
  run_queue-fifo [] queue = sym (append-nil queue)
  run_queue-fifo (arrival x ∷ steps) queue =
      run_queue-fifo steps (push_event 0 queue x)
      ∙ ap (λ q. q ++ arrivals steps) (push_event_room 0 queue x refl)
      ∙ append_assoc queue (x ∷ []) (arrivals steps)
  run_queue-fifo (consume ∷ steps) [] = run_queue-fifo steps []
  run_queue-fifo (consume ∷ steps) (x ∷ queue) = ap (λ l. x ∷ l) (run_queue-fifo steps queue)

  push_event-length :
      (max : ℕ) (queue : SafeQueue A) (x : A)
      → 0 < max
      → length queue ≤ max + 1
      → length (push_event max queue x) ≤ max + 1
  unfolding push_event is_full push
  push_event-length max queue x positive le = elim (Bool-cases (ltb max (length queue))) [
    | inl full ↦ ground arith
    | inr room ↦ ground (arith, length-append queue (x ∷ []))
  ]

  -- With a maximum other than 0, a queue never has more than one element above it.
  run_queue-bound :
      (max : ℕ) (steps : List (Step A)) (queue : SafeQueue A)
      → 0 < max
      → length queue ≤ max + 1
      → length (run_queue max steps queue).1 ≤ max + 1
  unfolding run_queue pop
  run_queue-bound max [] queue positive le = le
  run_queue-bound max (arrival x ∷ steps) queue positive le =
      run_queue-bound max steps (push_event max queue x) positive
        (push_event-length max queue x positive le)
  run_queue-bound max (consume ∷ steps) [] positive le = run_queue-bound max steps [] positive le
  run_queue-bound max (consume ∷ steps) (x ∷ queue) positive le =
      run_queue-bound max steps queue positive (omega arith)

module _ {A : Type 0} where
  -- How often a thread tests the queue.
  abbrev pub number_of_tests : List (PushStep A) → ℕ
  number_of_tests [] = 0
  number_of_tests (tests ∷ steps) = number_of_tests steps + 1
  number_of_tests (pushes x ∷ steps) = number_of_tests steps
  number_of_tests (pops ∷ steps) = number_of_tests steps

  -- The events in the queue, and those that will come without a test.
  abbrev pub due : Pushing A → ℕ
  due s = length s.queue + s.between

  -- No more than before, and nothing lost.
  abbrev Kept : Pushing A → Pushing A → Type 0
  Kept s t = (due t ≤ due s) × (t.lost ≡ s.lost)
