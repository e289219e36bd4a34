-- ===== src/Poller/SelectEvents.antt =====
-- What a listener hears from the `select` backend.
use sednl.Base.{
  ◌≡◌, refl, sym, ap, ◌∙◌, arith, ℕ, zero, suc, ◌+◌, ◌-◌, ◌<◌, ◌≤◌, ◌==◌, leb, Bool, true, false,
  Option, none, some, List, [], ◌∷◌, if◌then◌else◌, Bool-cases, inl, inr, leb→le, ==_iff, ◌⊎◌,
}
use mathlib.Core.Bool.{true≢false}
use sednl.Listener.Attach.{update}
use sednl.Poller.Select.{
  Poller, fd_setsize, make, grow, add_fd, remove_fd, bound, wait_for_events, scan, all_events, Call,
  add, remove, call_all,
}
use sednl.Poller.SelectScan.{members, read_events, Bounded, scan-Stops, all_events_step}

all_events_lem :
    (m : ℕ) (p : Poller)
    → bound p.m_nfds ≤ fd_setsize
    → bound p.m_nfds - p.next ≤ m
    → all_events (suc m) p
      ≡ some (read_events (members p.m_tmp_readfds (bound p.m_nfds - p.next) p.next))
all_events_lem zero p small fuel =
    all_events_step zero p small (λ i low high. absurd (omega (arith, low, high, fuel)))
      (scan p.m_tmp_readfds (bound p.m_nfds - p.next) p.next) refl
      (scan-Stops p.m_tmp_readfds (bound p.m_nfds - p.next) p.next)
all_events_lem (suc m) p small fuel =
    all_events_step (suc m) p small
      (λ i low high.
        all_events_lem m (record p { next = i + 1 }) small (omega (arith, low, high, fuel)))
      (scan p.m_tmp_readfds (bound p.m_nfds - p.next) p.next) refl
      (scan-Stops p.m_tmp_readfds (bound p.m_nfds - p.next) p.next)

-- Whatever was added and removed, the poller's sets stay within its bounds.
grow-bound :
    (nfds : Option ℕ) (fd : ℕ)
    → (fd < bound (grow nfds fd))
      × (bound nfds ≤ bound (grow nfds fd))
      × (fd < fd_setsize → bound nfds ≤ fd_setsize → bound (grow nfds fd) ≤ fd_setsize)
unfolding grow bound
grow-bound none fd = (omega arith, omega arith, λ h g. omega (arith, h))
grow-bound (some n) fd = elim (Bool-cases (leb n fd)) [
  | inl e ↦ rw e (omega arith, omega (arith, leb→le n fd e), λ h g. omega (arith, h))
  | inr e ↦ rw e (ground arith, omega arith, λ h g. g)
]

updated :
    (f : ℕ → Bool) (fd k : ℕ) (b : Bool)
    → update f fd b k ≡ true
    → ((k ≡ fd) × (b ≡ true)) ⊎ (f k ≡ true)
updated f fd k b h = elim (Bool-cases (k == fd)) [
  | inl e ↦ inl ((==_iff k fd).0 e, sym (ap (λ c. if c then b else f k) e) ∙ h)
  | inr e ↦ inr (sym (ap (λ c. if c then b else f k) e) ∙ h)
]

add-Bounded :
    (p : Poller) (fd : ℕ)
    → Bounded p
    → leb fd_setsize fd ≡ false
    → Bounded (record p { m_readfds = update p.m_readfds fd true; m_nfds = grow p.m_nfds fd })
add-Bounded p fd b near =
    let (new, old, top) = grow-bound p.m_nfds fd in
    record {
      below = λ k h. elim (updated p.m_readfds fd k true h) [
        | inl (e, _) ↦ omega (arith, new, e)
        | inr e ↦ omega (arith, old, b.below k e)
      ];
      limit = top (ground arith) b.limit;
    }

remove-Bounded :
    (p : Poller) (fd : ℕ)
    → Bounded p
    → Bounded (record p { m_readfds = update p.m_readfds fd false })
remove-Bounded p fd b = record {
  below = λ k h. elim (updated p.m_readfds fd k false h) [
    | inl (_, e) ↦ absurd (true≢false (sym e))
    | inr e ↦ b.below k e
  ];
  limit = b.limit;
}

call_all-Bounded : (calls : List Call) (p : Poller) → Bounded p → Bounded (call_all calls p)
unfolding call_all add_fd remove_fd
call_all-Bounded [] p b = b
call_all-Bounded (add none ∷ calls) p b = call_all-Bounded calls p b
call_all-Bounded (add (some fd) ∷ calls) p b = elim (Bool-cases (leb fd_setsize fd)) [
  | inl far ↦ rw far (call_all-Bounded calls p b)
  | inr near ↦ rw near (call_all-Bounded calls _ (add-Bounded p fd b near))
]
call_all-Bounded (remove none ∷ calls) p b = call_all-Bounded calls p b
call_all-Bounded (remove (some fd) ∷ calls) p b = elim (Bool-cases (leb fd_setsize fd)) [
  | inl far ↦ rw far (call_all-Bounded calls p b)
  | inr near ↦ rw near (call_all-Bounded calls _ (remove-Bounded p fd b))
]

make-Bounded : Bounded make
unfolding make bound
make-Bounded = record { below = λ fd h. absurd (true≢false (sym h)); limit = omega arith }

no_members : (set : ℕ → Bool) (n i : ℕ) → ((j : ℕ) → i ≤ j → set j ≡ false) → members set n i ≡ []
no_members set zero i h = refl
no_members set (suc n) i h =
    rw (h i (omega arith)) (no_members set n (i + 1) (λ j le. h j (omega (arith, le))))

-- None above a bound adds none.
members_more :
    (set : ℕ → Bool) (n k i : ℕ)
    → ((j : ℕ) → i + n ≤ j → set j ≡ false)
    → members set (n + k) i ≡ members set n i
members_more set zero k i h =
    let size : zero + k ≡ k = omega arith in
    ap (λ m. members set m i) size ∙ no_members set k i (λ j le. h j (omega (arith, le)))
members_more set (suc n) k i h =
    let size : suc n + k ≡ suc (n + k) = omega arith in
    ap (λ m. members set m i) size
    ∙ ap (λ l. if set i then i ∷ l else l)
        (members_more set n k (i + 1) (λ j le. h j (omega (arith, le))))

-- Behind any calls of `add_fd` and `remove_fd`, one wait and the loop of `next_event` give the
-- listener exactly the descriptors that `select` reports, each once, as events to read, in order of
-- their numbers. The loop ends after at most one round more than `m_nfds`. `select` reports only
-- descriptors of the set that it is given.
pub all_events-wait :
    (select : Option ℕ → (ℕ → Bool) → ℕ → Bool) (calls : List Call)
    → ((nfds : Option ℕ) (set : ℕ → Bool) (fd : ℕ) → select nfds set fd ≡ true → set fd ≡ true)
    → (let p = call_all calls make in
        all_events (suc (bound p.m_nfds)) (wait_for_events select p)
        ≡ some (read_events (members (select p.m_nfds p.m_readfds) fd_setsize 0)))
unfolding wait_for_events
all_events-wait select calls within =
    let p = call_all calls make in
    let b = call_all-Bounded calls make make-Bounded in
    let set = select p.m_nfds p.m_readfds in
    let none_above : (j : ℕ) → 0 + bound p.m_nfds ≤ j → set j ≡ false = λ j le.
      elim (Bool-cases (set j)) [
        | inl e ↦ absurd (omega (arith, le, b.below j (within p.m_nfds p.m_readfds j e)))
        | inr e ↦ e
      ] in
    let size : bound p.m_nfds - 0 ≡ bound p.m_nfds = omega arith in
    let rest : bound p.m_nfds + (fd_setsize - bound p.m_nfds) ≡ fd_setsize =
      omega (arith, b.limit) in
    all_events_lem (bound p.m_nfds) (record p { m_tmp_readfds = set; next = 0 }) b.limit
      (omega arith)
    ∙ ap (λ m. some (read_events (members set m 0))) size
    ∙ ap (λ l. some (read_events l))
        (sym (members_more set (bound p.m_nfds) (fd_setsize - bound p.m_nfds) 0 none_above)
          ∙ ap (λ m. members set m 0) rest)
