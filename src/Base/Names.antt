-- ===== src/Base/Names.antt =====
-- Strings as keys of a `std::map`, with their order.
use Prim.Native.Nat.{ℕ, compare, Ordering}
use mathlib.Core.Path.{◌≡◌, refl, ap}
use mathlib.Core.Logic.{◌≢◌, ◌⊎◌, inl, inr}
use mathlib.Core.Bool.{Bool, true, false, ◌&&◌}
use mathlib.Core.List.{List, [], ◌∷◌}
use native.Mathlib.Omega.{arith}
use sednl.Base.Tests.{◌==◌, Bool-cases}

abbrev pub Name : Type 0
Name = List ℕ

-- `std::string::operator==` and `compare`.
unfoldable pub same_name : Name → Name → Bool
same_name [] [] = true
same_name [] (y ∷ ys) = false
same_name (x ∷ xs) [] = false
same_name (x ∷ xs) (y ∷ ys) = (x == y) && same_name xs ys

unfoldable pub compare_name : Name → Name → Ordering
compare_name [] [] = Ordering.eq
compare_name [] (y ∷ ys) = Ordering.lt
compare_name (x ∷ xs) [] = Ordering.gt
compare_name (x ∷ xs) (y ∷ ys) =
    let rest = compare_name xs ys in
    elim (compare x y) [
      | Ordering.lt ↦ Ordering.lt
      | Ordering.eq ↦ rest
      | Ordering.gt ↦ Ordering.gt
    ]

pub same_name_refl : (k : Name) → same_name k k ≡ true
unfolding same_name
same_name_refl [] = refl
same_name_refl (x ∷ xs) = ground (arith, same_name_refl xs)

pub same_name_sound : (k l : Name) → same_name k l ≡ true → k ≡ l
unfolding same_name
same_name_sound [] [] e = refl
same_name_sound [] (y ∷ ys) e = ground arith
same_name_sound (x ∷ xs) [] e = ground arith
same_name_sound (x ∷ xs) (y ∷ ys) e = ground (arith, same_name_sound xs ys)

pub compare_name-eq : (k l : Name) → compare_name k l ≡ Ordering.eq → k ≡ l
unfolding compare_name
compare_name-eq [] [] e = refl
compare_name-eq [] (y ∷ ys) e = ground arith
compare_name-eq (x ∷ xs) [] e = ground arith
compare_name-eq (x ∷ xs) (y ∷ ys) e = ground (arith, compare_name-eq xs ys)

pub ne→same_name_false : (k l : Name) → k ≢ l → same_name k l ≡ false
ne→same_name_false k l h = elim (Bool-cases (same_name k l)) [
  | inl e ↦ absurd (h (same_name_sound k l e))
  | inr e ↦ e
]

compare_name_refl : (k : Name) → compare_name k k ≡ Ordering.eq
unfolding compare_name
compare_name_refl [] = refl
compare_name_refl (x ∷ xs) = ground (arith, compare_name_refl xs)

pub compare_name-cases :
    (k l : Name)
    → ((compare_name k l ≡ Ordering.lt) ⊎ ((compare_name k l ≡ Ordering.eq) × (k ≡ l)))
      ⊎ ((compare_name k l ≡ Ordering.gt) × (same_name l k ≡ false))
compare_name-cases k l = by_order (compare_name k l) refl
  where
    by_order :
        (o : Ordering)
        → compare_name k l ≡ o
        → ((compare_name k l ≡ Ordering.lt) ⊎ ((compare_name k l ≡ Ordering.eq) × (k ≡ l)))
          ⊎ ((compare_name k l ≡ Ordering.gt) × (same_name l k ≡ false))
    by_order Ordering.lt e = inl (inl e)
    by_order Ordering.eq e = inl (inr (e, compare_name-eq k l e))
    by_order Ordering.gt e = inr (
      e,
      ne→same_name_false l k
          (λ same. absurd (cc (e, ap (compare_name k) same, compare_name_refl k))),
    )
