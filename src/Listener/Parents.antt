-- ===== src/Listener/Parents.antt =====
-- Every managed object knows its listener.
use sednl.Base.{
  ℕ, suc, ◌+◌, ◌≤◌, ◌==◌, ◌≡◌, refl, ap, ◌∙◌, true, false, not, ◌&&◌, Bool-cases, Option,
  Option-cases, none, some, List, [], ◌∷◌, ◌++◌, if◌then◌else◌, arith, inl, inr,
}
use sednl.Exceptions.{EventExceptionT, Result, ok, thrown, fault}
use sednl.Listener.Attach.{
  World, update, contains, erase, is_null, points_to, attach, accept_connection, detach,
}

abbrev pub number_in : List ℕ → ℕ → ℕ
number_in [] elm = 0
number_in (x ∷ list) elm = if x == elm then suc (number_in list elm) else number_in list elm

-- A listener has an object in its list at most once, and only if it is the object's parent; if it is,
-- it has the object in its list, unless the object is a connection that was accepted.
unfoldable pub IsCoherent : World → Type 0
IsCoherent w =
    (this elm : ℕ)
    → (number_in (w.managed this) elm ≤ (if points_to (w.m_listener elm) this then 1 else 0))
      × (w.accepted elm ≡ false
          → (if points_to (w.m_listener elm) this then 1 else 0) ≤ number_in (w.managed this) elm)

pub contains-number_in :
    (list : List ℕ) (elm : ℕ) → contains list elm ≡ not (number_in list elm == 0)
unfolding contains
contains-number_in [] elm = refl
contains-number_in (x ∷ list) elm = ground (arith, contains-number_in list elm)

number_in-append :
    (list : List ℕ) (x elm : ℕ)
    → number_in (list ++ (x ∷ [])) elm ≡ number_in list elm + (if x == elm then 1 else 0)
number_in-append [] x elm = ground arith
number_in-append (y ∷ list) x elm = ground (arith, number_in-append list x elm)

number_in-erase :
    (list : List ℕ) (x elm : ℕ)
    → contains list x ≡ true
    → number_in list elm ≡ number_in (erase list x) elm + (if x == elm then 1 else 0)
unfolding contains erase
number_in-erase [] x elm h = absurd (cc h)
number_in-erase (y ∷ list) x elm h = elim (Bool-cases (y == x)) [
  | inl same ↦ ground (arith, same)
  | inr other ↦ ground (arith, number_in-erase list x elm (rw other at h), other)
]

-- The state behind a call, whether or not it throws.
abbrev pub world_of : Result EventExceptionT World (Unit {0}) → World → World
world_of (ok _ w') w = w'
world_of (thrown _ w') w = w'
world_of (fault x) w = w

-- A managed object points to the listener that has it.
pub owner_of :
    (this elm : ℕ) (w : World)
    → IsCoherent w
    → contains (w.managed this) elm ≡ true
    → points_to (w.m_listener elm) this ≡ true
unfolding IsCoherent
owner_of this elm w h present = elim (Bool-cases (points_to (w.m_listener elm) this)) [
  | inl mine ↦ mine
  | inr foreign ↦
      let gone : number_in (w.managed this) elm ≤ 0 = rw foreign at (h this elm).0 in
      absurd (ground (arith, gone, contains-number_in (w.managed this) elm, present))
]

points_to_one :
    (p : Option ℕ) (this l : ℕ)
    → points_to p this ≡ true
    → (l == this) ≡ false
    → points_to p l ≡ false
points_to_one none this l e ne = refl
points_to_one (some k) this l e ne = ground arith

==→≡ : (a b : ℕ) → (a == b) ≡ true → a ≡ b
==→≡ a b e = ground arith

unowned :
    (this elm l : ℕ) (w : World)
    → IsCoherent w
    → contains (w.managed this) elm ≡ false
    → (not (is_null (w.m_listener elm)) && not (points_to (w.m_listener elm) this)) ≡ false
    → number_in (w.managed l) elm ≡ 0
unfolding IsCoherent
unowned this elm l w h absent free =
    let none_here = contains-number_in (w.managed this) elm in
    let there = (h l elm).0 in
    elim (Option-cases (w.m_listener elm)) [
      | inl null ↦ omega (arith, rw null at there)
      | inr (p, owner) ↦
          let mine : (p == this) ≡ true = ground (arith, rw owner at free) in
          elim (Bool-cases (l == this)) [
            | inl same ↦
                ap (λ k. number_in (w.managed k) elm) (==→≡ l this same)
                ∙ ground (arith, none_here, absent)
            | inr other ↦
                let foreign : points_to (w.m_listener elm) l ≡ false = rw owner (ground arith) in
                omega (arith, rw foreign at there)
          ]
    ]

flip_true : (a b : ℕ) → (a == b) ≡ true → (b == a) ≡ true
flip_true a b e = ground arith

flip_false : (a b : ℕ) → (a == b) ≡ false → (b == a) ≡ false
flip_false a b e = ground arith

pub attached :
    (this elm l x : ℕ) (w : World)
    → IsCoherent w
    → contains (w.managed this) elm ≡ false
    → (not (is_null (w.m_listener elm)) && not (points_to (w.m_listener elm) this)) ≡ false
    → (number_in (update w.managed this (w.managed this ++ (elm ∷ [])) l) x
        ≤ (if points_to (update w.m_listener elm (some this) x) l then 1 else 0))
      × (w.accepted x ≡ false
          → (if points_to (update w.m_listener elm (some this) x) l then 1 else 0)
            ≤ number_in (update w.managed this (w.managed this ++ (elm ∷ [])) l) x)
unfolding IsCoherent
attached this elm l x w h absent free =
    let more = number_in-append (w.managed this) elm x in
    elim (Bool-cases (l == this)) [
      | inl here ↦ elim (Bool-cases (x == elm)) [
        | inl same ↦
            let new =
              ap (number_in (w.managed this)) (==→≡ x elm same)
              ∙ unowned this elm this w h absent free in
            rw (here, same, flip_true l this here)
              (
                omega (arith, new, rw (flip_true x elm same) at more),
                λ _. omega (arith, rw (flip_true x elm same) at more),
              )
        | inr other ↦
            let old = ap (λ k. number_in (w.managed k) x) (==→≡ l this here) in
            rw (here, other)
              (
                omega (arith, old, (h l x).0, rw (flip_false x elm other) at more),
                λ own. omega (arith, old, (h l x).1 own, rw (flip_false x elm other) at more),
              )
      ]
      | inr there ↦ elim (Bool-cases (x == elm)) [
        | inl same ↦
            let none_there =
              ap (number_in (w.managed l)) (==→≡ x elm same) ∙ unowned this elm l w h absent free in
            rw (there, same, flip_false l this there) (omega (arith, none_there), λ _. omega arith)
        | inr other ↦ rw (there, other) (h l x)
      ]
    ]

pub detached :
    (this elm l x : ℕ) (w : World)
    → IsCoherent w
    → contains (w.managed this) elm ≡ true
    → (number_in (update w.managed this (erase (w.managed this) elm) l) x
        ≤ (if points_to (update w.m_listener elm none x) l then 1 else 0))
      × (w.accepted x ≡ false
          → (if points_to (update w.m_listener elm none x) l then 1 else 0)
            ≤ number_in (update w.managed this (erase (w.managed this) elm) l) x)
unfolding IsCoherent
detached this elm l x w h present =
    let fewer = number_in-erase (w.managed this) elm x present in
    let owned = owner_of this elm w h present in
    elim (Bool-cases (l == this)) [
      | inl here ↦ elim (Bool-cases (x == elm)) [
        | inl same ↦
            let was : number_in (w.managed this) elm ≤ 1 = rw owned at (h this elm).0 in
            let same_number = ap (number_in (w.managed this)) (==→≡ x elm same) in
            rw (here, same)
              (
                omega (arith, was, same_number, rw (flip_true x elm same) at fewer),
                λ _. omega arith,
              )
        | inr other ↦
            let old = ap (λ k. number_in (w.managed k) x) (==→≡ l this here) in
            rw (here, other)
              (
                omega (arith, old, (h l x).0, rw (flip_false x elm other) at fewer),
                λ own. omega (arith, old, (h l x).1 own, rw (flip_false x elm other) at fewer),
              )
      ]
      | inr there ↦ elim (Bool-cases (x == elm)) [
        | inl same ↦
            let gone : number_in (w.managed l) elm ≤ 0 =
              rw (points_to_one (w.m_listener elm) this l owned there) at (h l elm).0 in
            let same_number = ap (number_in (w.managed l)) (==→≡ x elm same) in
            rw (there, same) (omega (arith, gone, same_number), λ _. omega arith)
        | inr other ↦ rw (there, other) (h l x)
      ]
    ]

pub attach-IsCoherent :
    (this elm : ℕ) (w : World) → IsCoherent w → IsCoherent (world_of (attach this elm w) w)
unfolding attach
attach-IsCoherent this elm w h = elim (Bool-cases (w.m_running this)) [
  | inl running ↦ rw running h
  | inr idle ↦ elim (Bool-cases (contains (w.managed this) elm)) [
    | inl present ↦ rw (idle, present) h
    | inr absent ↦
        elim (Bool-cases
          (not (is_null (w.m_listener elm)) && not (points_to (w.m_listener elm) this))) [
            | inl foreign ↦ rw (idle, absent, foreign) h
            | inr free ↦
                rw (idle, absent, free)
                  (unfold IsCoherent in λ l x. attached this elm l x w h absent free)
          ]
  ]
]

-- A listener accepts a connection.
pub accept_connection-IsCoherent :
    (this cn : ℕ) (w : World) → IsCoherent w → IsCoherent (accept_connection this cn w)
unfolding accept_connection
accept_connection-IsCoherent this cn w h = elim (Option-cases (w.m_listener cn)) [
  | inr (p, owned) ↦ rw owned h
  | inl new ↦ rw new (
      unfold IsCoherent in
      λ l x. elim (Bool-cases (x == cn)) [
        | inr other ↦ rw other (h l x)
        | inl same ↦
            let number = ap (number_in (w.managed l)) (==→≡ x cn same) in
            let none_has : number_in (w.managed l) cn ≤ 0 = rw new at (h l cn).0 in
            rw same (omega (arith, number, none_has), λ fresh. absurd (ground (arith, fresh)))
      ])
]

pub detach-IsCoherent :
    (this elm : ℕ) (w : World) → IsCoherent w → IsCoherent (world_of (detach this elm w) w)
unfolding detach
detach-IsCoherent this elm w h = elim (Bool-cases (w.m_running this)) [
  | inl running ↦ rw running h
  | inr idle ↦ elim (Bool-cases (contains (w.managed this) elm)) [
    | inr absent ↦ rw (idle, absent) h
    | inl present ↦
        rw (idle, present, owner_of this elm w h present)
          (unfold IsCoherent in λ l x. detached this elm l x w h present)
  ]
]
