-- ===== src/Exceptions/Effect.antt =====
-- A computation over a mutable object of type `S`. What it throws leaves the object as it was at
-- that point. A fault is not a C++ value: nothing is promised of the program behind it.
use sednl.Base.{Option, none, some, ◌≡◌}

pub data Fault : Type 0 where
  -- a failed `assert`
  aborted : Fault
  -- an access outside a buffer
  undefined : Fault
  -- no C++ behaviour: the bound that the model sets on a loop was reached
  out_of_fuel : Fault

pub data Result {ℓ κ} (E : Type 0) (S : Type ℓ) (A : Type κ) : Type (ℓ ⊔ κ) where
  ok : A → S → Result E S A
  thrown : E → S → Result E S A
  fault : Fault → Result E S A

abbrev pub M {ℓ κ} : Type 0 → Type ℓ → Type κ → Type (ℓ ⊔ κ)
M E S A = S → Result E S A

infixl 5 ◌>>=◌ ◌>>◌
abbrev pub ◌>>=◌ {ℓ κ μ} :
    {E : Type 0} {S : Type ℓ} {A : Type κ} {B : Type μ} → M E S A → (A → M E S B) → M E S B
◌>>=◌ m f s = elim (m s) [ ok a s' ↦ f a s' | thrown e s' ↦ thrown e s' | fault x ↦ fault x ]

abbrev pub ◌>>◌ {ℓ μ} :
    {E : Type 0} {S : Type ℓ} {B : Type μ} → M E S (Unit {0}) → M E S B → M E S B
m >> k = m >>= λ _. k

abbrev pub pure {ℓ κ} : {E : Type 0} {S : Type ℓ} {A : Type κ} → A → M E S A
pure a s = ok a s

abbrev pub throw {ℓ κ} : {E : Type 0} {S : Type ℓ} {A : Type κ} → E → M E S A
throw e s = thrown e s

abbrev pub fail {ℓ κ} : {E : Type 0} {S : Type ℓ} {A : Type κ} → Fault → M E S A
fail x s = fault x

abbrev pub get {ℓ} : {E : Type 0} {S : Type ℓ} → M E S S
get s = ok s s

abbrev pub put {ℓ} : {E : Type 0} {S : Type ℓ} → S → M E S (Unit {0})
put s' s = ok tt s'

-- A read of memory: `none` is an access outside it.
abbrev pub access {ℓ κ} : {E : Type 0} {S : Type ℓ} {A : Type κ} → Option A → M E S A
access none s = fault undefined
access (some a) s = ok a s

module _ {ℓ κ μ} {E : Type 0} {S : Type ℓ} {A : Type κ} {B : Type μ} where
  -- What follows a step that ended well, or badly.
  pub >>=-ok :
      (m : M E S A) (f : A → M E S B) (s : S) {s' : S} {a : A}
      → m s ≡ ok a s'
      → (m >>= f) s ≡ f a s'
  >>=-ok m f s e = rw (e, ◌>>=◌)

  pub >>=-thrown :
      (m : M E S A) (f : A → M E S B) (s : S) {s' : S} {e : E}
      → m s ≡ thrown e s'
      → (m >>= f) s ≡ thrown e s'
  >>=-thrown m f s e = rw (e, ◌>>=◌)

  pub >>=-fault :
      (m : M E S A) (f : A → M E S B) (s : S) {x : Fault} → m s ≡ fault x → (m >>= f) s ≡ fault x
  >>=-fault m f s e = rw (e, ◌>>=◌)
