-- ===== src/Listener/Queue.antt =====
-- `SafeQueue`, and the pushing of events into it.
use sednl.Base.{
  ℕ, ltb, ◌&&◌, Bool, true, false, List, [], ◌∷◌, ◌++◌, length, Option, none, some, if◌then◌else◌,
}

-- The container, the front first.
abbrev pub SafeQueue {ℓ} : Type ℓ → Type ℓ
SafeQueue A = List A

module _ {ℓ} {A : Type ℓ} where
  unfoldable pub empty : SafeQueue A → Bool
  empty [] = true
  empty (x ∷ q) = false

  abbrev pub size : SafeQueue A → ℕ
  size q = length q

  unfoldable pub push : SafeQueue A → A → SafeQueue A
  push q value = q ++ (value ∷ [])

  -- `pop` returns `false` on an empty queue.
  unfoldable pub pop : SafeQueue A → Option (A × SafeQueue A)
  pop [] = none
  pop (x ∷ q) = some (x, q)

  unfoldable pub is_full : ℕ → SafeQueue A → Bool
  is_full max_queue_size queue = ltb 0 max_queue_size && ltb max_queue_size (size queue)

  -- `if (is_full(queue, max) || !queue.push(cn))`: what is not pushed is lost. Each of the two locks the
  -- queue; here no other thread pushes between them, as in a queue that one thread alone pushes into.
  -- Several threads that push are in Listener/Pushers.
  unfoldable pub push_event : ℕ → SafeQueue A → A → SafeQueue A
  unfolding is_full push
  push_event max_queue_size queue cn = if is_full max_queue_size queue then queue else push queue cn

-- The listener pushes, a consumer pops.
pub data Step {ℓ} (A : Type ℓ) : Type ℓ where
  arrival : A → Step A
  consume : Step A

-- The queue after the steps, and what the consumer got, in order.
unfoldable pub run_queue {ℓ} : {A : Type ℓ} → ℕ → List (Step A) → SafeQueue A → List A × SafeQueue A
unfolding push_event pop
run_queue max [] queue = ([], queue)
run_queue max (arrival x ∷ steps) queue = run_queue max steps (push_event max queue x)
run_queue max (consume ∷ steps) queue = elim (pop queue) [
  | none ↦ run_queue max steps queue
  | some (x, rest) ↦ let (got, end) = run_queue max steps rest in (x ∷ got, end)
]
