-- ===== src/Base/Maps.antt =====
-- `std::map` with strings for keys: a list of pairs in the order of the keys.
use Prim.Native.Nat.{Ordering}
use mathlib.Core.Path.{◌≡◌, refl, sym, ap, subst, ◌∙◌}
use mathlib.Core.Logic.{◌≢◌, inl, inr}
use mathlib.Core.Bool.{true≢false}
use mathlib.Core.Option.{Option, none, some, none-ne-some}
use mathlib.Core.List.{List, [], ◌∷◌}
use native.Mathlib.Omega.{arith}
use sednl.Base.Tests.{Bool-cases, Option-cases, if◌then◌else◌}
use sednl.Base.Names.{
  Name, same_name, compare_name, same_name_refl, same_name_sound, ne→same_name_false,
  compare_name-cases,
}

abbrev pub Map {ℓ} : Type ℓ → Type ℓ
Map V = List (Name × V)

module _ {ℓ} {V : Type ℓ} where
  -- `find`.
  unfoldable pub find : Map V → Name → Option V
  unfolding same_name
  find [] k = none
  find ((l, v) ∷ m) k = if same_name l k then some v else find m k

  -- The value of a key that is there; a new key goes to its place in the order.
  unfoldable replace : Map V → Name → V → Map V
  unfolding same_name
  replace [] k v = []
  replace ((l, w) ∷ m) k v =
      let rest = replace m k v in if same_name l k then (l, v) ∷ m else (l, w) ∷ rest

  unfoldable insert : Map V → Name → V → Map V
  unfolding compare_name
  insert [] k v = (k, v) ∷ []
  insert ((l, w) ∷ m) k v =
      let rest = insert m k v in
      elim (compare_name k l) [ Ordering.gt ↦ (l, w) ∷ rest | _ ↦ (k, v) ∷ (l, w) ∷ m ]

  -- `m[k] = v`.
  unfoldable pub assign : Map V → Name → V → Map V
  unfolding find replace insert
  assign m k v = elim (find m k) [ some _ ↦ replace m k v | none ↦ insert m k v ]

  abbrev pub or_default : V → Option V → V
  or_default d (some v) = v
  or_default d none = d

  -- `m[k]` as a value, which is the default one on a missing key.
  abbrev pub at_or : V → Map V → Name → V
  at_or d m k = or_default d (find m k)

  find-insert_same :
      (m : Map V) (k : Name) (v : V) → find m k ≡ none → find (insert m k v) k ≡ some v
  unfolding find insert
  find-insert_same [] k v h = rw (same_name_refl k)
  find-insert_same ((l, w) ∷ m) k v h = elim (compare_name-cases k l) [
    | inl (inl e) ↦ rw (insert, e) (rw (same_name_refl k))
    | inl (inr (e, same)) ↦ rw (insert, e) (rw (same_name_refl k))
    | inr (e, other) ↦
        rw (insert, e)
          (rw (
            other,
            find-insert_same m k v (ap (λ b. if b then some w else find m k) (sym other) ∙ h),
          ))
  ]

  find-insert_other : (m : Map V) (k l : Name) (v : V) → k ≢ l → find (insert m k v) l ≡ find m l
  unfolding find insert
  find-insert_other [] k l v h = rw (ne→same_name_false k l h)
  find-insert_other ((j, w) ∷ m) k l v h =
      let skip = ne→same_name_false k l h in
      elim (compare_name-cases k j) [
        | inl (inl e) ↦ rw (insert, e) (rw skip)
        | inl (inr (e, same)) ↦ rw (insert, e) (rw skip)
        | inr (e, other) ↦ rw (insert, e, find-insert_other m k l v h)
      ]

  find-replace_same :
      (m : Map V) (k : Name) (v : V) {w : V} → find m k ≡ some w → find (replace m k v) k ≡ some v
  unfolding find replace
  find-replace_same [] k v h = ground arith
  find-replace_same ((l, u) ∷ m) k v {w = w} h = elim (Bool-cases (same_name l k)) [
    | inl same ↦ rw (replace, same) (rw same)
    | inr other ↦
        rw (replace, other)
          (rw (
            other,
            find-replace_same m k v (ap (λ b. if b then some u else find m k) (sym other) ∙ h),
          ))
  ]

  find-replace_other : (m : Map V) (k l : Name) (v : V) → k ≢ l → find (replace m k v) l ≡ find m l
  unfolding find replace
  find-replace_other [] k l v h = refl
  find-replace_other ((j, u) ∷ m) k l v h = elim (Bool-cases (same_name j k)) [
    | inl same ↦
        rw (replace, same)
          (rw (ne→same_name_false j l (λ e. h (sym (same_name_sound j k same) ∙ e))))
    | inr other ↦ rw (replace, other, find-replace_other m k l v h)
  ]

  pub find-assign_same : (m : Map V) (k : Name) (v : V) → find (assign m k v) k ≡ some v
  unfolding assign
  find-assign_same m k v = elim (Option-cases (find m k)) [
    | inl none_there ↦ rw (assign, none_there) (find-insert_same m k v none_there)
    | inr (w, there) ↦ rw (assign, there) (find-replace_same m k v there)
  ]

  pub find-assign_other :
      (m : Map V) (k l : Name) (v : V) → k ≢ l → find (assign m k v) l ≡ find m l
  unfolding assign
  find-assign_other m k l v h = elim (Option-cases (find m k)) [
    | inl none_there ↦ rw (assign, none_there) (find-insert_other m k l v h)
    | inr (w, there) ↦ rw (assign, there) (find-replace_other m k l v h)
  ]

  pub at_or-assign_same : (d : V) (m : Map V) (k : Name) (v : V) → at_or d (assign m k v) k ≡ v
  at_or-assign_same d m k v = ap (or_default d) (find-assign_same m k v)

  pub at_or-assign_other :
      (d : V) (m : Map V) (k l : Name) (v : V) → k ≢ l → at_or d (assign m k v) l ≡ at_or d m l
  at_or-assign_other d m k l v h = ap (or_default d) (find-assign_other m k l v h)

  -- Every key stands once.
  abbrev pub Distinct : Map V → Type ℓ
  Distinct [] = Unit
  Distinct ((k, v) ∷ m) = (find m k ≡ none) × Distinct m

  find-replace-none :
      (m : Map V) (k l : Name) (v : V) → find m l ≡ none → find (replace m k v) l ≡ none
  unfolding find replace
  find-replace-none [] k l v h = refl
  find-replace-none ((j, u) ∷ m) k l v h = elim (Bool-cases (same_name j l)) [
    | inl same ↦ absurd (none-ne-some u (sym h ∙ ap (λ b. if b then some u else find m l) same))
    | inr other ↦
        let rest : find m l ≡ none = ap (λ b. if b then some u else find m l) (sym other) ∙ h in
        elim (Bool-cases (same_name j k)) [
          | inl e ↦ rw (replace, e) (rw (other, rest) refl)
          | inr e ↦ rw (replace, e) (rw (other, find-replace-none m k l v rest) refl)
        ]
  ]

  Distinct-replace : (m : Map V) (k : Name) (v : V) → Distinct m → Distinct (replace m k v)
  unfolding replace
  Distinct-replace [] k v d = tt
  Distinct-replace ((j, u) ∷ m) k v d = elim (Bool-cases (same_name j k)) [
    | inl e ↦
        let here : replace ((j, u) ∷ m) k v ≡ (j, v) ∷ m = rw (replace, e) refl in
        subst Distinct (sym here) d
    | inr e ↦
        let here : replace ((j, u) ∷ m) k v ≡ (j, u) ∷ replace m k v = rw (replace, e) refl in
        subst Distinct (sym here) (find-replace-none m k j v d.0, Distinct-replace m k v d.1)
  ]

  Distinct-insert :
      (m : Map V) (k : Name) (v : V) → find m k ≡ none → Distinct m → Distinct (insert m k v)
  unfolding find insert
  Distinct-insert [] k v h d = (refl, tt)
  Distinct-insert ((l, w) ∷ m) k v h d = elim (compare_name-cases k l) [
    | inl (inl e) ↦
        let here : insert ((l, w) ∷ m) k v ≡ (k, v) ∷ (l, w) ∷ m = rw (insert, e) refl in
        subst Distinct (sym here) (h, d)
    | inl (inr (e, same)) ↦
        let here : insert ((l, w) ∷ m) k v ≡ (k, v) ∷ (l, w) ∷ m = rw (insert, e) refl in
        subst Distinct (sym here) (h, d)
    | inr (e, other) ↦
        let here : insert ((l, w) ∷ m) k v ≡ (l, w) ∷ insert m k v = rw (insert, e) refl in
        let rest : find m k ≡ none = ap (λ b. if b then some w else find m k) (sym other) ∙ h in
        let apart : k ≢ l = λ same.
          absurd (true≢false (sym (same_name_refl l) ∙ ap (same_name l) (sym same) ∙ other)) in
        subst Distinct (sym here)
          (find-insert_other m k l v apart ∙ d.0, Distinct-insert m k v rest d.1)
  ]

  pub Distinct-assign : (m : Map V) (k : Name) (v : V) → Distinct m → Distinct (assign m k v)
  unfolding assign
  Distinct-assign m k v d = elim (Option-cases (find m k)) [
    | inl none_there ↦
        let here : assign m k v ≡ insert m k v = rw (assign, none_there) refl in
        subst Distinct (sym here) (Distinct-insert m k v none_there d)
    | inr (w, there) ↦
        let here : assign m k v ≡ replace m k v = rw (assign, there) refl in
        subst Distinct (sym here) (Distinct-replace m k v d)
  ]
