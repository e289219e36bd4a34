-- ===== src/Poller/SelectScan.antt =====
-- `scan` and `next_event` of src/SEDNL/Poller_select.cpp, one step of the loop at a time.
use sednl.Base.{
  ◌≡◌, refl, sym, ap, subst, ◌∙◌, arith, ℕ, zero, suc, ◌+◌, ◌-◌, ◌<◌, ◌≤◌, ltb, Bool, true, false,
  Option, none, some, List, [], ◌∷◌, if◌then◌else◌, Bool-cases, inl, inr,
}
use sednl.Poller.Select.{Event, Poller, fd_setsize, bound, scan, next_event, follow, all_events}

-- The descriptors of a set among `n` from `i` on, in order.
abbrev pub members : (ℕ → Bool) → ℕ → ℕ → List ℕ
members set zero i = []
members set (suc n) i = let rest = members set n (i + 1) in if set i then i ∷ rest else rest

abbrev pub read_events : List ℕ → List Event
read_events [] = []
read_events (i ∷ list) = record { fd = i; is_close = false; is_read = true } ∷ read_events list

-- The set holds only descriptors below `m_nfds`, which `FD_SETSIZE` bounds.
pub record Bounded (p : Poller) : Type 0 where
  pub below : (fd : ℕ) → p.m_readfds fd ≡ true → fd < bound p.m_nfds
  pub limit : bound p.m_nfds ≤ fd_setsize

-- Where a scan stops.
abbrev Stops : (ℕ → Bool) → ℕ → ℕ → Option ℕ → Type 0
Stops set n i none = members set n i ≡ []
Stops set n i (some k) =
    (set k ≡ true)
    × (i ≤ k)
    × (k < i + n)
    × (members set n i ≡ k ∷ members set (i + n - (k + 1)) (k + 1))

-- The same from the index before.
Stops-later :
    (set : ℕ → Bool) (n i : ℕ) (o : Option ℕ)
    → set i ≡ false
    → Stops set n (i + 1) o
    → Stops set (suc n) i o
Stops-later set n i none e h = rw e h
Stops-later set n i (some k) e (here, low, high, list) =
    let size : i + 1 + n - (k + 1) ≡ i + suc n - (k + 1) = omega arith in
    (here, omega arith, omega arith, rw e (list ∙ ap (λ m. k ∷ members set m (k + 1)) size))

pub scan-Stops : (set : ℕ → Bool) (n i : ℕ) → Stops set n i (scan set n i)
unfolding scan
scan-Stops set zero i = refl
scan-Stops set (suc n) i = elim (Bool-cases (set i)) [
  | inl e ↦
      let size : n ≡ i + suc n - (i + 1) = omega arith in
      let stop : scan set (suc n) i ≡ some i = rw (scan, e) refl in
      subst (Stops set (suc n) i) (sym stop)
        (e, omega arith, omega arith, rw e (ap (λ m. i ∷ members set m (i + 1)) size))
  | inr e ↦
      let stop : scan set (suc n) i ≡ scan set n (i + 1) = rw (scan, e) refl in
      subst (Stops set (suc n) i) (sym stop)
        (Stops-later set n i (scan set n (i + 1)) e (scan-Stops set n (i + 1)))
]

-- A call of `next_event`, by what the scan finds.
next_event-none :
    (p : Poller)
    → scan p.m_tmp_readfds (bound p.m_nfds - p.next) p.next ≡ none
    → (next_event p).0 ≡ none
unfolding next_event
next_event-none p e = elim (Bool-cases (ltb fd_setsize p.next)) [
  | inl far ↦ rw (next_event, far) refl
  | inr near ↦ rw (next_event, near) (rw e refl)
]

next_event-some :
    (p : Poller) (i : ℕ)
    → scan p.m_tmp_readfds (bound p.m_nfds - p.next) p.next ≡ some i
    → p.next ≤ fd_setsize
    → next_event p ≡ (
      some (record { fd = i; is_close = false; is_read = p.m_tmp_readfds i }),
      record p { next = i + 1 },
    )
unfolding next_event
next_event-some p i e small =
    let near : ltb fd_setsize p.next ≡ false = ground arith in rw (next_event, near) (rw e refl)

pub all_events_step :
    (m : ℕ) (p : Poller)
    → bound p.m_nfds ≤ fd_setsize
    → ((i : ℕ)
        → p.next ≤ i
        → i < p.next + (bound p.m_nfds - p.next)
        → all_events m (record p { next = i + 1 })
          ≡ some (read_events (members p.m_tmp_readfds (bound p.m_nfds - (i + 1)) (i + 1))))
    → (o : Option ℕ) → scan p.m_tmp_readfds (bound p.m_nfds - p.next) p.next ≡ o
    → Stops p.m_tmp_readfds (bound p.m_nfds - p.next) p.next o
    → all_events (suc m) p
      ≡ some (read_events (members p.m_tmp_readfds (bound p.m_nfds - p.next) p.next))
unfolding all_events follow
all_events_step m p small rec none e stops =
    ap (λ x. follow x (all_events m (next_event p).1)) (next_event-none p e)
    ∙ ap (λ l. some (read_events l)) (sym stops)
all_events_step m p small rec (some i) e (here, low, high, list) =
    let inside : p.next ≤ fd_setsize = omega arith in
    let size : p.next + (bound p.m_nfds - p.next) - (i + 1) ≡ bound p.m_nfds - (i + 1) =
      omega arith in
    ap (λ x. follow x.0 (all_events m x.1)) (next_event-some p i e inside)
    ∙ ap (follow (some (record { fd = i; is_close = false; is_read = p.m_tmp_readfds i })))
        (rec i low high)
    ∙ ap
        (λ b. some (
          record { fd = i; is_close = false; is_read = b }
          ∷ read_events (members p.m_tmp_readfds (bound p.m_nfds - (i + 1)) (i + 1))))
        here
    ∙ ap (λ k. some (read_events (i ∷ members p.m_tmp_readfds k (i + 1)))) (sym size)
    ∙ ap (λ l. some (read_events l)) (sym list)
