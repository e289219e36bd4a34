-- ===== src/Bytes/Range.antt =====
-- What is read from an array of bytes is a word of its width.
use sednl.Base.{
  ℕ, ◌^◌, ◌<◌, ◌≡◌, refl, subst, arith, Option, none, some, [], ◌∷◌, zero, suc, All, ByteArray,
  IsByte, IsU16, IsU32, IsU64, get_elem?, if◌then◌else◌, add_u32,
}
use sednl.Bytes.Host.{Host, load_16, load_32, from_blocks}
use sednl.Bytes.Order.{◌>>=◌, front_8, front_16, front_32, front_64, is_big_endian, bytes_swap}

pub get_elem?-IsByte :
    (xs : ByteArray) (i : ℕ) {x : ℕ} → All IsByte xs → get_elem? xs i ≡ some x → IsByte x
get_elem?-IsByte [] i h e = absurd (ground arith)
get_elem?-IsByte (x ∷ xs) zero h e = ground arith
get_elem?-IsByte (x ∷ xs) (suc i) h e = get_elem?-IsByte xs i h.1 e

>>=-eq-some {ℓ κ} :
    {A : Type ℓ} {B : Type κ} (o : Option A) (f : A → Option B) {b : B}
    → (o >>= f) ≡ some b
    → (a : A) × (o ≡ some a) × (f a ≡ some b)
>>=-eq-some none f e = absurd (cc e)
>>=-eq-some (some a) f e = (a, refl, e)

some_inj : {x y : ℕ} → some x ≡ some y → x ≡ y
some_inj e = ground arith

module _ ⦃host : Host⦄ (bytes : ByteArray) (all : All IsByte bytes) where
  pub front_8-IsByte : (i : ℕ) {x : ℕ} → front_8 i bytes ≡ some x → IsByte x
  unfolding front_8
  front_8-IsByte i e = get_elem?-IsByte bytes i all e

  ntohs_lt : (x : ℕ) → IsU16 x → host.ntohs x < 2 ^ 16
  ntohs_lt x h = ground (arith, host.ntohs_order x h)

  load_16_lt : (a b : ℕ) → IsByte a → IsByte b → load_16 a b < 2 ^ 16
  load_16_lt a b ha hb = ground arith

  pub front_16-IsU16 : (i : ℕ) {x : ℕ} → front_16 i bytes ≡ some x → IsU16 x
  unfolding front_16
  front_16-IsU16 i e =
      let (a, here, e₁) = >>=-eq-some (get_elem? bytes i) _ e in
      let (b, next, e₂) = >>=-eq-some (get_elem? bytes (add_u32 i 1)) _ e₁ in
      let small = ntohs_lt (load_16 a b) (
        load_16_lt a b (get_elem?-IsByte bytes i all here)
          (get_elem?-IsByte bytes (add_u32 i 1) all next)) in
      subst IsU16 (some_inj e₂) small

  ntohl_lt : (x : ℕ) → IsU32 x → host.ntohl x < 2 ^ 32
  ntohl_lt x h = ground (arith, host.ntohl_order x h)

  load_32_lt : (a b c d : ℕ) → IsByte a → IsByte b → IsByte c → IsByte d → load_32 a b c d < 2 ^ 32
  load_32_lt a b c d ha hb hc hd = ground arith

  pub front_32-IsU32 : (i : ℕ) {x : ℕ} → front_32 i bytes ≡ some x → IsU32 x
  unfolding front_32
  front_32-IsU32 i e =
      let (a, h₀, e₀) = >>=-eq-some (get_elem? bytes i) _ e in
      let (b, h₁, e₁) = >>=-eq-some (get_elem? bytes (add_u32 i 1)) _ e₀ in
      let (c, h₂, e₂) = >>=-eq-some (get_elem? bytes (add_u32 i 2)) _ e₁ in
      let (d, h₃, e₃) = >>=-eq-some (get_elem? bytes (add_u32 i 3)) _ e₂ in
      let byte =
        λ (k : ℕ) (y : ℕ) (h : get_elem? bytes k ≡ some y). get_elem?-IsByte bytes k all h in
      let small = ntohl_lt (load_32 a b c d) (
        load_32_lt a b c d (byte i a h₀) (byte (add_u32 i 1) b h₁) (byte (add_u32 i 2) c h₂)
          (byte (add_u32 i 3) d h₃)) in
      subst IsU32 (some_inj e₃) small

  either_order_lt :
      (a b : ℕ)
      → IsU32 a
      → IsU32 b
      → (if is_big_endian then from_blocks a b else bytes_swap (from_blocks a b)) < 2 ^ 64
  unfolding is_big_endian bytes_swap
  either_order_lt a b ha hb = ground arith

  pub front_64-IsU64 : (i : ℕ) {x : ℕ} → front_64 i bytes ≡ some x → IsU64 x
  unfolding front_64
  front_64-IsU64 i e =
      let (a, h₀, e₀) = >>=-eq-some (front_32 i bytes) _ e in
      let (b, h₁, e₁) = >>=-eq-some (front_32 (add_u32 i 4) bytes) _ e₀ in
      subst IsU64 (some_inj e₁)
        (either_order_lt a b (front_32-IsU32 i h₀) (front_32-IsU32 (add_u32 i 4) h₁))
