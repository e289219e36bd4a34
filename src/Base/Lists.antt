-- ===== src/Base/Lists.antt =====
-- Lists measured and indexed by native numbers, under the library's names.
use Prim.Native.Nat.{ℕ, zero, suc, ◌+◌, ◌≤◌, ◌<◌}
use mathlib.Core.Path.{◌≡◌, refl, sym, ap, ◌∙◌}
use mathlib.Core.List.{List, [], ◌∷◌, ◌++◌}
use mathlib.Core.Option.{some}
use native.Mathlib.Omega.{arith}
use sednl.Base.Sequences.{length, get_elem?, drop, take, All, length-append, length-drop}

module _ {ℓ} {A : Type ℓ} where
  -- What heads the list from an index on is the element at that index.
  pub drop-cons :
      (xs : List A) (i : ℕ) {x : A} {rest : List A}
      → drop i xs ≡ x ∷ rest
      → (get_elem? xs i ≡ some x) × (drop (i + 1) xs ≡ rest)
  drop-cons [] zero e = cc
  drop-cons [] (suc i) e = cc
  drop-cons (x ∷ xs) zero e = ground arith
  drop-cons (x ∷ xs) (suc i) e = ground (arith, drop-cons xs i e)

  pub drop-append_step :
      (xs : List A) (i : ℕ) (ys rest : List A)
      → drop i xs ≡ ys ++ rest
      → drop (i + length ys) xs ≡ rest
  drop-append_step xs i [] rest e = ground arith
  drop-append_step xs i (y ∷ ys) rest e =
      ground (arith, drop-append_step xs (i + 1) ys rest ((drop-cons xs i e).1))

  pub get_elem?-drop : (xs : List A) (i k : ℕ) → get_elem? xs (i + k) ≡ get_elem? (drop i xs) k
  get_elem?-drop xs zero k = ground arith
  get_elem?-drop [] (suc i) k = ground arith
  get_elem?-drop (x ∷ xs) (suc i) k = ground (arith, get_elem?-drop xs i k)

  -- The element `k` places behind the index at which a known stretch of the list begins.
  pub get_elem?_at :
      (xs : List A) (i k : ℕ) {ys : List A} {y : A}
      → drop i xs ≡ ys
      → get_elem? ys k ≡ some y
      → get_elem? xs (i + k) ≡ some y
  get_elem?_at xs i k e h = cc (get_elem?-drop xs i k, ap (λ l. get_elem? l k) e)

  -- A stretch that stands at an index lies within the list.
  pub drop_fits :
      (xs : List A) (i : ℕ) (ys rest : List A)
      → drop i xs ≡ ys ++ rest
      → 0 < length ys
      → i + length ys ≤ length xs
  drop_fits xs i ys rest e h = omega (arith, ap length e, length-drop i xs, length-append ys rest)

  pub drop-eq_nil : (xs : List A) (i : ℕ) → length xs ≤ i → drop i xs ≡ []
  drop-eq_nil [] zero h = refl
  drop-eq_nil [] (suc i) h = refl
  drop-eq_nil (x ∷ xs) zero h = absurd (omega arith)
  drop-eq_nil (x ∷ xs) (suc i) h = drop-eq_nil xs i (omega arith)

  pub drop-drop : (xs : List A) (i n : ℕ) → drop n (drop i xs) ≡ drop (i + n) xs
  drop-drop xs zero n = ground arith
  drop-drop [] (suc i) n =
      drop-eq_nil [] n (omega arith) ∙ sym (drop-eq_nil [] (suc i + n) (omega arith))
  drop-drop (x ∷ xs) (suc i) n =
      let shift : suc (i + n) ≡ suc i + n = omega arith in
      drop-drop xs i n ∙ ap (λ k. drop k (x ∷ xs)) shift

  pub take-append-drop : (n : ℕ) (xs : List A) → take n xs ++ drop n xs ≡ xs
  take-append-drop zero xs = refl
  take-append-drop (suc n) [] = refl
  take-append-drop (suc n) (x ∷ xs) = ap (λ l. x ∷ l) (take-append-drop n xs)

  take-nil : (n : ℕ) → take {A = A} n [] ≡ []
  take-nil zero = refl
  take-nil (suc n) = refl

  pub take-add : (m n : ℕ) (xs : List A) → take (m + n) xs ≡ take m xs ++ take n (drop m xs)
  take-add zero n xs = ap (λ k. take k xs) (omega arith)
  take-add (suc m) n [] = take-nil (suc m + n) ∙ sym (take-nil n)
  take-add (suc m) n (x ∷ xs) =
      let shift : suc m + n ≡ suc (m + n) = omega arith in
      ap (λ k. take k (x ∷ xs)) shift ∙ ap (λ l. x ∷ l) (take-add m n xs)

  pub length-take_le : (n : ℕ) (xs : List A) → n ≤ length xs → length (take n xs) ≡ n
  length-take_le zero xs h = refl
  length-take_le (suc n) [] h = absurd (omega arith)
  length-take_le (suc n) (x ∷ xs) h = omega (arith, length-take_le n xs)

module _ {ℓ κ} {A : Type ℓ} (P : A → Type κ) where
  pub All-drop : (xs : List A) (i : ℕ) → All P xs → All P (drop i xs)
  All-drop xs zero h = h
  All-drop [] (suc i) h = h
  All-drop (x ∷ xs) (suc i) h = All-drop xs i h.1

  pub All-take : (xs : List A) (n : ℕ) → All P xs → All P (take n xs)
  All-take xs zero h = tt
  All-take [] (suc n) h = tt
  All-take (x ∷ xs) (suc n) h = (h.0, All-take xs n h.1)

-- The `n` elements from an index on, and what follows them.
pub split_at {ℓ κ} :
    {A : Type ℓ} (P : A → Type κ) (xs : List A) (i n : ℕ)
    → All P xs
    → i + n ≤ length xs
    → (ys : List A) × (length ys ≡ n) × (drop i xs ≡ ys ++ drop (i + n) xs) × All P ys
split_at P xs i n h le = (
  take n (drop i xs),
  length-take_le n (drop i xs) (omega (arith, length-drop i xs)),
  parts,
  All-take P (drop i xs) n (All-drop P xs i h),
)
  where
    parts : drop i xs ≡ take n (drop i xs) ++ drop (i + n) xs
    parts =
        cc (take-append-drop n (drop i xs), ap (λ l. take n (drop i xs) ++ l) (drop-drop xs i n))

-- Two ways to split a list at the same place.
pub append-cancel {ℓ} :
    {A : Type ℓ} (xs ys : List A) {as' bs : List A}
    → length xs ≡ length ys
    → xs ++ as' ≡ ys ++ bs
    → (xs ≡ ys) × (as' ≡ bs)
append-cancel [] [] h e = (refl, e)
append-cancel [] (y ∷ ys) h e = absurd (omega arith)
append-cancel (x ∷ xs) [] h e = absurd (omega arith)
append-cancel (x ∷ xs) (y ∷ ys) {as' = as'} {bs = bs} h e =
    let tails : xs ++ as' ≡ ys ++ bs = cc in
    let (front, back) = append-cancel xs ys (omega arith) tails in
    let heads : x ≡ y = cc in (cc (heads, front), back)

pub All-map {ℓ κ μ} :
    {A : Type ℓ} (P : A → Type κ) (Q : A → Type μ)
    → ((x : A) → P x → Q x)
    → (xs : List A) → All P xs
    → All Q xs
All-map P Q f [] h = tt
All-map P Q f (x ∷ xs) h = (f x h.0, All-map P Q f xs h.1)

-- A list that begins with another one.
pub append-prefix {ℓ} :
    {A : Type ℓ} (xs ys fs gs : List A)
    → xs ++ ys ≡ fs ++ gs
    → length fs ≤ length xs
    → (rest : List A) × (xs ≡ fs ++ rest) × (rest ++ ys ≡ gs)
append-prefix xs ys [] gs e h = (xs, refl, e)
append-prefix [] ys (f ∷ fs) gs e h = absurd (omega arith)
append-prefix (x ∷ xs) ys (f ∷ fs) gs e h =
    let tails : xs ++ ys ≡ fs ++ gs = cc in
    let (rest, front, back) = append-prefix xs ys fs gs tails (omega arith) in
    let heads : x ≡ f = cc in (rest, cc (heads, front), back)

pub All-append_right {ℓ κ} :
    {A : Type ℓ} (P : A → Type κ) (xs ys : List A) → All P (xs ++ ys) → All P ys
All-append_right P [] ys h = h
All-append_right P (x ∷ xs) ys h = All-append_right P xs ys h.1
