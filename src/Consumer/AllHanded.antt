-- ===== src/Consumer/AllHanded.antt =====
-- The end of a consumer's thread.
use sednl.Base.{
  ◌≡◌, refl, sym, ap, subst, ◌∙◌, Bool, true, false, List, [], ◌∷◌, ◌++◌, if◌then◌else◌, Name,
  at_or, Distinct,
}
use mathlib.Core.Bool.{true≢false}
use sednl.Listener.Queue.{SafeQueue}
use sednl.Listener.Attach.{update}
use sednl.Listener.Receive.{CnEvent, receive_event}
use sednl.Listener.Delivery.{queue_of}
use sednl.Consumer.Slots.{Slot, EventConsumer}
use sednl.Consumer.Calls.{calls_of, handed, handler, HasName}
use sednl.Consumer.HandsOver.{arrived, Holds, steps-Holds, consume-Holds, over-Holds, join-Holds}
use sednl.Consumer.Thread.{Thread, consume, round, join, Step, arrives, rounds, joins, step, steps}

-- Before `join`, the thread runs, and only events arrive.
abbrev pub before_join : List Step → Bool
before_join [] = true
before_join (arrives cn e ∷ list) = before_join list
before_join (rounds ∷ list) = before_join list
before_join (joins ∷ list) = false

record Alive (c : EventConsumer) (t : Thread) : Type 0 where
  pub running : t.m_running ≡ true
  pub going : t.over ≡ false
  pub consumer_is : t.consumer ≡ c

consume-Alive : {c : EventConsumer} (t : Thread) → Alive c t → Alive c (consume t)
unfolding consume
consume-Alive t a = record { running = a.running; going = a.going; consumer_is = a.consumer_is }

consume-over : (t : Thread) → t.over ≡ true → (consume t).over ≡ true
unfolding consume
consume-over t h = h

-- The branches of a round.
abbrev branch : Bool → Bool → Bool → Thread → Thread → Thread → Thread
branch over running awake t x y =
    if over then t else if running then (if awake then x else t) else y

branch_alive :
    (P : Thread → Type 0) (over running awake : Bool) (t x y : Thread)
    → over ≡ false
    → running ≡ true
    → P t
    → P x
    → P (branch over running awake t x y)
branch_alive P true running awake t x y o r pt px = absurd (true≢false o)
branch_alive P false true true t x y o r pt px = px
branch_alive P false true false t x y o r pt px = pt
branch_alive P false false awake t x y o r pt px = absurd (true≢false (sym r))

branch_last :
    (P : Thread → Type 0) (over awake : Bool) (t x y : Thread)
    → over ≡ false
    → P y
    → P (branch over false awake t x y)
branch_last P true awake t x y o py = absurd (true≢false o)
branch_last P false awake t x y o py = py

round-Alive : {c : EventConsumer} (t : Thread) → Alive c t → Alive c (round t)
unfolding round
round-Alive {c} t a =
    let woken : Alive c (record t {
      inbox = record t.inbox { wake_up = update t.inbox.wake_up t.m_descriptor false };
    }) =
      record { running = a.running; going = a.going; consumer_is = a.consumer_is } in
    branch_alive (Alive c) t.over t.m_running (t.inbox.wake_up t.m_descriptor) t _ _ a.going
      a.running a (consume-Alive _ woken)

steps-Alive :
    {c : EventConsumer} (list : List Step) (t : Thread)
    → before_join list ≡ true
    → Alive c t
    → Alive c (steps list t)
unfolding steps step
steps-Alive [] t b a = a
steps-Alive (arrives cn e ∷ list) t b a =
    steps-Alive list (record t { inbox = receive_event cn e t.inbox }) b
      (record { running = a.running; going = a.going; consumer_is = a.consumer_is })
steps-Alive (rounds ∷ list) t b a = steps-Alive list (round t) b (round-Alive t a)
steps-Alive (joins ∷ list) t b a = absurd (true≢false (sym b))

steps-append : (xs ys : List Step) (t : Thread) → steps (xs ++ ys) t ≡ steps ys (steps xs t)
unfolding steps
steps-append [] ys t = refl
steps-append (x ∷ xs) ys t = steps-append xs ys (step x t)

-- After `join`, one round is the last.
last_round :
    {slot : Slot} {k : Name} {so_far : SafeQueue CnEvent} (t : Thread)
    → Holds slot k so_far t
    → t.over ≡ false
    → ((round (join t)).over ≡ true) × (calls_of k (round (join t)).calls ≡ handed slot so_far)
unfolding round join consume
last_round {slot} {k} {so_far} t h going =
    branch_last (λ u. (u.over ≡ true) × (calls_of k u.calls ≡ handed slot so_far)) t.over
      (t.inbox.wake_up t.m_descriptor) (join t) (join t) _ going
      (
        consume-over (record (join t) { over = true }) refl,
        (consume-Holds (over-Holds (join-Holds h))).1,
      )

-- Any number of events arrive, and the consumer's thread makes any number of rounds, in any order,
-- before `join` is called. Then the thread ends with its next round, and every event of the name that
-- arrived has been given to the slot that handles it, once and in the order of arrival. The thread
-- started with a listener whose queues are empty and have no bound.
pub steps-all_handed :
    (list : List Step) (t : Thread) (k : Name)
    → before_join list ≡ true
    → t.m_running ≡ true
    → t.over ≡ false
    → t.inbox.m_events ≡ []
    → t.calls ≡ []
    → t.inbox.connections.m_max_queue_size ≡ 0
    → (let end = steps (list ++ (joins ∷ rounds ∷ [])) t in
        (end.over ≡ true)
        × (calls_of k end.calls ≡ handed (handler t.consumer t.inbox.m_links k) (arrived k list)))
unfolding steps step
steps-all_handed list t k before running going no_events no_calls room =
    let slot = handler t.consumer t.inbox.m_links k in
    let none_queued : (j : Name) → queue_of t.inbox j ≡ [] =
      λ j. ap (λ m. at_or [] m j) no_events in
    let start : Holds slot k [] t = record {
      unbounded = room;
      distinct = subst Distinct (sym no_events) tt;
      proper = λ j. subst (HasName j) (sym (none_queued j)) tt;
      slot_of = refl;
      sum =
          ap (λ l. calls_of k l ++ handed slot (queue_of t.inbox k)) no_calls
          ∙ ap (handed slot) (none_queued k);
    } in
    let alive : Alive t.consumer t = record {
      running = running;
      going = going;
      consumer_is = refl;
    } in
    subst (λ u. (u.over ≡ true) × (calls_of k u.calls ≡ handed slot (arrived k list)))
      (sym (steps-append list (joins ∷ rounds ∷ []) t))
      (last_round (steps list t) (steps-Holds list [] t start)
        (steps-Alive list t before alive).going)
