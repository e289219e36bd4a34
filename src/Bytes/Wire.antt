-- ===== src/Bytes/Wire.antt =====
-- The wire format of a word is its big-endian bytes, whatever the host's byte order.
use sednl.Base.{
  ℕ, ◌+◌, ◌*◌, ◌/◌, ◌%◌, ◌^◌, ◌≡◌, refl, ◌∙◌, ap, some, List, [], ◌∷◌, ◌++◌, append_assoc,
  ByteArray, IsU16, IsU32, IsU64, IsByte, All, get_elem?_at, drop, drop-cons, drop-append_step, ◌≤◌,
  arith, add_u32,
}
use sednl.Bytes.Host.{Host, load_16}
use sednl.Bytes.Order.{is_big_endian, push_16, front_16, push_32, front_32, push_64, front_64}

abbrev pub be_16 : ℕ → List ℕ
be_16 x = x / 2 ^ 8 ∷ x % 2 ^ 8 ∷ []

abbrev pub be_32 : ℕ → List ℕ
be_32 x = x / 2 ^ 24 ∷ x / 2 ^ 16 % 2 ^ 8 ∷ x / 2 ^ 8 % 2 ^ 8 ∷ x % 2 ^ 8 ∷ []

abbrev pub be_64 : ℕ → List ℕ
be_64 x = be_32 (x / 2 ^ 32) ++ be_32 (x % 2 ^ 32)

module _ ⦃host : Host⦄ where
  is_big_endian_lem : is_big_endian ≡ host.big_endian
  unfolding is_big_endian
  is_big_endian_lem = ground arith

  -- `__push_16` appends the two bytes of the number, the high one first.
  pub push_16-be_16 : (d : ByteArray) (x : ℕ) → IsU16 x → push_16 d x ≡ d ++ be_16 x
  unfolding push_16
  push_16-be_16 d x h = ap (λ t. d ++ t) (ground (arith, host.htons_order x h))

  pub push_32-be_32 : (d : ByteArray) (x : ℕ) → IsU32 x → push_32 d x ≡ d ++ be_32 x
  unfolding push_32
  push_32-be_32 d x h = ap (λ t. d ++ t) (ground (arith, host.htonl_order x h))

  push_32_twice :
      (d : ByteArray) (a b : ℕ)
      → IsU32 a
      → IsU32 b
      → push_32 (push_32 d a) b ≡ d ++ (be_32 a ++ be_32 b)
  push_32_twice d a b ha hb =
      rw (push_32-be_32 d a ha, push_32-be_32 (d ++ be_32 a) b hb)
        (append_assoc d (be_32 a) (be_32 b))

  pub push_64-be_64 : (d : ByteArray) (x : ℕ) → IsU64 x → push_64 d x ≡ d ++ be_64 x
  unfolding push_64
  push_64-be_64 d x h = ground (arith, push_32_twice d (x / 2 ^ 32) (x % 2 ^ 32))

  -- Reading where the bytes stand in network order gives the number that they spell.
  front_16_lem :
      (bytes : ByteArray) (i a b : ℕ) {rest : ByteArray}
      → i + 2 ≤ 2 ^ 32
      → drop i bytes ≡ a ∷ b ∷ rest
      → IsByte a
      → IsByte b
      → front_16 i bytes ≡ some (a * 2 ^ 8 + b)
  unfolding front_16
  front_16_lem bytes i a b fits e ha hb =
      let s : add_u32 i 1 ≡ i + 1 = omega arith in
      rw (s, (drop-cons bytes i e).0, get_elem?_at bytes i 1 e refl)
        (ground (arith, host.ntohs_order (a * 2 ^ 8 + b), host.ntohs_order (b * 2 ^ 8 + a)))

  front_32_lem :
      (bytes : ByteArray) (i a b c d : ℕ) {rest : ByteArray}
      → i + 4 ≤ 2 ^ 32
      → drop i bytes ≡ a ∷ b ∷ c ∷ d ∷ rest
      → All IsByte (a ∷ b ∷ c ∷ d ∷ [])
      → front_32 i bytes ≡ some (a * 2 ^ 24 + b * 2 ^ 16 + c * 2 ^ 8 + d)
  unfolding front_32
  front_32_lem bytes i a b c d fits e h =
      let s₁ : add_u32 i 1 ≡ i + 1 = omega arith in
      let s₂ : add_u32 i 2 ≡ i + 2 = omega arith in
      let s₃ : add_u32 i 3 ≡ i + 3 = omega arith in
      rw
        (
          s₁,
          s₂,
          s₃,
          (drop-cons bytes i e).0,
          get_elem?_at bytes i 1 e refl,
          get_elem?_at bytes i 2 e refl,
          get_elem?_at bytes i 3 e refl,
        )
        (ground (
          arith,
          host.ntohl_order (a * 2 ^ 24 + b * 2 ^ 16 + c * 2 ^ 8 + d),
          host.ntohl_order (d * 2 ^ 24 + c * 2 ^ 16 + b * 2 ^ 8 + a),
        ))

  pub front_16-be_16 :
      (bytes : ByteArray) (i x : ℕ) {rest : ByteArray}
      → IsU16 x
      → i + 2 ≤ 2 ^ 32
      → drop i bytes ≡ be_16 x ++ rest
      → front_16 i bytes ≡ some x
  front_16-be_16 bytes i x h fits e =
      front_16_lem bytes i _ _ fits e (omega arith) (omega arith) ∙ ap some (omega arith)

  pub front_32-be_32 :
      (bytes : ByteArray) (i x : ℕ) {rest : ByteArray}
      → IsU32 x
      → i + 4 ≤ 2 ^ 32
      → drop i bytes ≡ be_32 x ++ rest
      → front_32 i bytes ≡ some x
  front_32-be_32 bytes i x h fits e =
      front_32_lem bytes i _ _ _ _ fits e (omega arith) ∙ ap some (omega arith)

  pub front_64-be_64 :
      (bytes : ByteArray) (i x : ℕ) {rest : ByteArray}
      → IsU64 x
      → i + 8 ≤ 2 ^ 32
      → drop i bytes ≡ be_64 x ++ rest
      → front_64 i bytes ≡ some x
  unfolding front_64
  front_64-be_64 bytes i x {rest} h fits e =
      let s : add_u32 i 4 ≡ i + 4 = omega arith in
      let lo = drop-append_step bytes i (be_32 (x / 2 ^ 32)) (be_32 (x % 2 ^ 32) ++ rest) e in
      rw
        (
          s,
          front_32-be_32 bytes i (x / 2 ^ 32) (omega arith) (omega arith) e,
          front_32-be_32 bytes (i + 4) (x % 2 ^ 32) (omega arith) (omega arith) lo,
        )
        (ground arith)

  pub ntohs-load_16 : (x : ℕ) → IsU16 x → host.ntohs (load_16 (x / 2 ^ 8) (x % 2 ^ 8)) ≡ x
  ntohs-load_16 x h =
      ground (arith, host.ntohs_order x, host.ntohs_order (x % 2 ^ 8 * 2 ^ 8 + x / 2 ^ 8))
