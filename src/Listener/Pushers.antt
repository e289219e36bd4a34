-- ===== src/Listener/Pushers.antt =====
-- A queue into which several threads push: `is_full` and `push` of src/SEDNL/EventListener.cpp each lock
-- it on their own, so that others may come between.
use sednl.Base.{ℕ, zero, suc, ltb, not, none, some, List, [], ◌∷◌, if◌then◌else◌}
use sednl.Listener.Queue.{SafeQueue, push, pop, is_full}

-- `between` is how many threads have found room and have not pushed yet; `lost` is how many events were
-- dropped.
pub record Pushing (A : Type 0) : Type 0 where
  pub queue : SafeQueue A
  pub between : ℕ
  pub lost : ℕ

-- A thread tests the queue, one that has found room pushes, or the consumer takes an event.
pub data PushStep (A : Type 0) : Type 0 where
  tests : PushStep A
  pushes : A → PushStep A
  pops : PushStep A

module _ {A : Type 0} (threads max : ℕ) where
  -- No more than all threads are between the two; a push needs a thread there.
  unfoldable pub push_step : PushStep A → Pushing A → Pushing A
  unfolding is_full push pop
  push_step tests s =
      if not (ltb s.between threads)
      then s
      else if is_full max s.queue
      then record s { lost = suc s.lost }
      else record s { between = suc s.between }
  push_step (pushes x) s = elim s.between [
    | zero ↦ s
    | suc b ↦ record s { queue = push s.queue x; between = b }
  ]
  push_step pops s = elim (pop s.queue) [ none ↦ s | some (x, rest) ↦ record s { queue = rest } ]

  unfoldable pub run_pushes : List (PushStep A) → Pushing A → Pushing A
  unfolding push_step
  run_pushes [] s = s
  run_pushes (step ∷ steps) s = run_pushes steps (push_step step s)
