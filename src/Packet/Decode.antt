-- ===== src/Packet/Decode.antt =====
-- Bytes of the right number spell a number.
use sednl.Base.{
  ℕ, zero, suc, ◌+◌, ◌*◌, ◌/◌, ◌%◌, ◌^◌, ◌≤◌, ◌<◌, ◌≡◌, refl, ap, ◌∙◌, sym, List, [], ◌∷◌, ◌++◌,
  append_assoc, append-nil, drop-eq_nil, ByteArray, IsByte, arith, length, All, drop, split_at,
}
use sednl.Exceptions.{
  Scalar, int8, int16, int32, int64, uint8, uint16, uint32, uint64, float, double,
}
use sednl.Bytes.Wire.{be_16, be_32, be_64}
use sednl.Packet.Types.{size_of}
use sednl.Packet.Format.{encode_scalar, encode_scalars, Within}
use sednl.Packet.ReadParts.{size_of_pos}

abbrev Spells : (ℕ → ByteArray) → ℕ → ByteArray → Type 0
Spells enc bound ys = (x : ℕ) × (x < bound) × (enc x ≡ ys)

spell_8 : (ys : ByteArray) → length ys ≡ 1 → All IsByte ys → Spells (λ x. x ∷ []) (2 ^ 8) ys
spell_8 [] e h = absurd (omega arith)
spell_8 (a ∷ []) e h = (a, h.0, refl)
spell_8 (a ∷ b ∷ r) e h = absurd (omega arith)

pub spell_16 : (ys : ByteArray) → length ys ≡ 2 → All IsByte ys → Spells be_16 (2 ^ 16) ys
spell_16 [] e h = absurd (omega arith)
spell_16 (a ∷ []) e h = absurd (omega arith)
spell_16 (a ∷ b ∷ []) e h = (a * 2 ^ 8 + b, omega arith, ground arith)
spell_16 (a ∷ b ∷ c ∷ r) e h = absurd (omega arith)

spell_32 : (ys : ByteArray) → length ys ≡ 4 → All IsByte ys → Spells be_32 (2 ^ 32) ys
spell_32 [] e h = absurd (omega arith)
spell_32 (a ∷ []) e h = absurd (omega arith)
spell_32 (a ∷ b ∷ []) e h = absurd (omega arith)
spell_32 (a ∷ b ∷ c ∷ []) e h = absurd (omega arith)
spell_32 (a ∷ b ∷ c ∷ d ∷ []) e h =
    (a * 2 ^ 24 + b * 2 ^ 16 + c * 2 ^ 8 + d, omega arith, ground arith)
spell_32 (a ∷ b ∷ c ∷ d ∷ f ∷ r) e h = absurd (omega arith)

be_64_of_halves : (x y : ℕ) → y < 2 ^ 32 → be_64 (x * 2 ^ 32 + y) ≡ be_32 x ++ be_32 y
be_64_of_halves x y h =
    let high : (x * 2 ^ 32 + y) / 2 ^ 32 ≡ x = omega arith in
    let low : (x * 2 ^ 32 + y) % 2 ^ 32 ≡ y = omega arith in rw (high, low)

spell_64 : (ys : ByteArray) → length ys ≡ 8 → All IsByte ys → Spells be_64 (2 ^ 64) ys
spell_64 ys e h =
    let (a, la, ea, ha) = split_at IsByte ys 0 4 h (omega arith) in
    let (b, lb, eb, hb) = split_at IsByte ys 4 4 h (omega arith) in
    let (x, hx, ex) = spell_32 a la ha in
    let (y, hy, ey) = spell_32 b lb hb in
    let whole : be_32 x ++ be_32 y ≡ ys =
      ap (λ l. l ++ be_32 y) ex
      ∙ ap (λ l. a ++ l) (ey ∙ sym (append-nil b))
      ∙ sym (ea ∙ ap (λ l. a ++ l) (eb ∙ ap (λ l. b ++ l) (drop-eq_nil ys 8 (omega arith)))) in
    (x * 2 ^ 32 + y, omega arith, be_64_of_halves x y hy ∙ whole)

spell :
    (s : Scalar) (ys : ByteArray)
    → length ys ≡ size_of s
    → All IsByte ys
    → (x : ℕ) × Within s x × (encode_scalar s x ≡ ys)
spell int8 ys e h = spell_8 ys e h
spell uint8 ys e h = spell_8 ys e h
spell int16 ys e h = spell_16 ys e h
spell uint16 ys e h = spell_16 ys e h
spell int32 ys e h = spell_32 ys e h
spell uint32 ys e h = spell_32 ys e h
spell float ys e h = spell_32 ys e h
spell int64 ys e h = spell_64 ys e h
spell uint64 ys e h = spell_64 ys e h
spell double ys e h = spell_64 ys e h

module _ (d : ByteArray) (bytes : All IsByte d) where
  pub parse_scalar :
      (s : Scalar) (i : ℕ)
      → i + size_of s ≤ length d
      → (x : ℕ) × Within s x × (drop i d ≡ encode_scalar s x ++ drop (i + size_of s) d)
  parse_scalar s i le =
      let (ys, size, e, h) = split_at IsByte d i (size_of s) bytes le in
      let (x, w, ex) = spell s ys size h in
      (x, w, e ∙ ap (λ l. l ++ drop (i + size_of s) d) (sym ex))

  pub parse_scalars :
      (s : Scalar) (n i : ℕ)
      → i + n * size_of s ≤ length d
      → (xs : List ℕ) × (length xs ≡ n)
        × All (Within s) xs
        × (drop i d ≡ encode_scalars s xs ++ drop (i + n * size_of s) d)
  parse_scalars s zero i le = ([], refl, tt, ap (λ k. drop k d) (omega arith))
  parse_scalars s (suc n) i le =
      let (x, w, e) = parse_scalar s i (omega (arith, size_of_pos s)) in
      let (xs, size, ws, es) = parse_scalars s n (i + size_of s) (omega arith) in
      let stop : i + size_of s + n * size_of s ≡ i + suc n * size_of s = omega arith in
      let rest = drop (i + suc n * size_of s) d in
      (
        x ∷ xs,
        ap suc size,
        (w, ws),
        e
            ∙ ap (λ l. encode_scalar s x ++ l) (es ∙ ap (λ k. encode_scalars s xs ++ drop k d) stop)
            ∙ sym (append_assoc (encode_scalar s x) (encode_scalars s xs) rest),
      )
