-- ===== src/Packet/ValidSound.antt =====
-- What the check accepts is in the format.
use sednl.Base.{
  ℕ, zero, suc, ◌+◌, ◌*◌, ◌^◌, ◌≤◌, ◌<◌, ◌≡◌, refl, ap, ◌∙◌, sym, List, [], ◌∷◌, ◌++◌, ByteArray,
  IsByte, arith, length, All, drop, add_u32, dec_u32, some, none, get_elem?, get_elem?-some,
  All-drop, split_at, Bool, false, true, ltb, ◌==◌, Bool-cases, Option-cases, inl, inr,
  if◌then◌else◌, Option,
}
use sednl.Exceptions.{Scalar}
use sednl.Bytes.Host.{Host}
use sednl.Packet.Types.{
  Value, number, text, numbers, Values, type_code, string, array, scalar, size_of,
}
use sednl.Packet.Valid.{
  Verdict, accept, reject, outside, exhausted, skip_string, valid_typed, ◌>>=◌, fetch,
}
use sednl.Packet.Format.{
  encode, encode_all, encode_scalar, encode_scalars, count, IsChar, IsItem, AllItems,
}
use sednl.Packet.ReadParts.{size_of_pos}
use sednl.Bytes.Order.{front_16}
use sednl.Bytes.Wire.{be_16, front_16-be_16}
use sednl.Packet.Decode.{spell_16, parse_scalar, parse_scalars}

array_end :
    (i p : ℕ) → i < 2 ^ 31 → p ≤ 2 ^ 19 → dec_u32 (add_u32 (add_u32 (add_u32 i 1) 2) p) ≡ i + 2 + p
array_end i p small few = omega arith

product_le : (m s : ℕ) → m < 2 ^ 16 → s ≤ 8 → m * s ≤ 2 ^ 19
product_le m s h k = grind arith

-- What `valid_next_item` tells by moving from index `i` to `j`: inside the packet, bytes `i` to `j`
-- are a value's.
pub record Span (d : ByteArray) (i j : ℕ) : Type 0 where
  pub forward : i ≤ j
  pub near : j < length d + 2 ^ 20
  pub item : j < length d → (v : Value) × IsItem v × (drop i d ≡ encode v ++ drop (suc j) d)

pub record Spans (d : ByteArray) (n i j : ℕ) : Type 0 where
  pub forward : i ≤ j
  pub near : j ≤ length d + 2 ^ 20
  pub items :
      j ≤ length d
      → (vs : Values) × (count vs ≡ n) × AllItems vs × (drop i d ≡ encode_all vs ++ drop j d)

pub >>=-accept :
    {A B : Type 0} (m : Verdict A) (f : A → Verdict B) {b : B}
    → (m >>= f) ≡ accept b
    → (a : A) × (m ≡ accept a) × (f a ≡ accept b)
>>=-accept (accept a) f e = (a, refl, e)
>>=-accept reject f e = cc
>>=-accept outside f e = cc
>>=-accept exhausted f e = cc

pub unless-accept :
    {A : Type 0} (c : Bool) (m : Verdict A) {a : A}
    → (if c then reject else m) ≡ accept a
    → (c ≡ false) × (m ≡ accept a)
unless-accept true m e = cc
unless-accept false m e = (refl, e)

pub fetch-accept : (o : Option ℕ) {b : ℕ} → fetch o ≡ accept b → o ≡ some b
fetch-accept none e = cc
fetch-accept (some c) e = cc

some-eq : {a b : ℕ} → some a ≡ some b → a ≡ b
some-eq e = cc

pub accept-injective : {A : Type 0} {a b : A} → accept a ≡ accept b → a ≡ b
accept-injective e = cc

module _ (d : ByteArray) (small : length d < 2 ^ 31) (bytes : All IsByte d) where
  pub byte_at : (i : ℕ) {b : ℕ} → get_elem? d i ≡ some b → b < 256
  byte_at i {b} e = (rw ((get_elem?-some d i e).0) at (All-drop IsByte d i bytes)).0

  -- The loop over a string stops at its terminator, inside the packet.
  skip_string_sound :
      (fuel i : ℕ) {j : ℕ}
      → skip_string fuel d (length d) i ≡ accept j
      → (i ≤ j)
        × (j < length d)
        × (s : List ℕ) × All IsChar s
        × (drop i d ≡ (s ++ (0 ∷ [])) ++ drop (suc j) d)
  unfolding skip_string
  skip_string_sound zero i e = cc
  skip_string_sound (suc fuel) i {j} e = elim (Option-cases (get_elem? d i)) [
    | inl out ↦ absurd (ground (arith, out))
    | inr (b, here) ↦
        let (from, inside) = get_elem?-some d i here in
        elim (Bool-cases (b == 0)) [
          | inl end ↦
              let stop : i ≡ j = ground arith in
              let zero_b : b ≡ 0 = ground arith in
              (omega arith, omega arith, [], tt, from ∙ cc (zero_b, stop))
          | inr more ↦
              let step : add_u32 i 1 ≡ suc i = omega arith in
              let rest : skip_string fuel d (length d) (suc i) ≡ accept j = ground (arith, step) in
              let (le, lt, s, chars, spelled) = skip_string_sound fuel (suc i) rest in
              (
                omega arith,
                lt,
                b ∷ s,
                ((ground arith, byte_at i here), chars),
                from ∙ ap (λ l. b ∷ l) spelled,
              )
        ]
  ]

  pub headed :
      (i : ℕ) {b c : ℕ} {t : ByteArray}
      → drop i d ≡ b ∷ drop (suc i) d
      → b ≡ c
      → drop (suc i) d ≡ t
      → drop i d ≡ c ∷ t
  headed i from code rest = from ∙ cc (code, rest)

  module _ ⦃host : Host⦄ (step : ℕ → Verdict ℕ) where
    pub scalar_sound :
        (s : Scalar) (i b : ℕ) {j : ℕ}
        → i < length d
        → drop i d ≡ b ∷ drop (suc i) d
        → b ≡ type_code (scalar s)
        → valid_typed step d (length d) (scalar s) i ≡ accept j
        → Span d i j
    unfolding valid_typed encode
    scalar_sound s i b {j} inside from code e =
        let stop : j ≡ i + size_of s = omega (arith, accept-injective e, size_of_pos s) in
        record {
          forward = omega arith;
          near = omega (arith, size_of_pos s);
          item = λ lt.
              let (x, w, spelled) = parse_scalar d bytes s (suc i) (omega arith) in
              let shift : suc i + size_of s ≡ suc j = omega arith in
              (
                number s x,
                w,
                headed i from code (spelled ∙ ap (λ k. encode_scalar s x ++ drop k d) shift),
              );
        }

    pub string_sound :
        (i b : ℕ) {j : ℕ}
        → i < length d
        → drop i d ≡ b ∷ drop (suc i) d
        → b ≡ type_code string
        → valid_typed step d (length d) string i ≡ accept j
        → Span d i j
    unfolding valid_typed encode
    string_sound i b {j} inside from code e =
        let (k, scanned, last) =
          >>=-accept (skip_string (suc (length d)) d (length d) (add_u32 i 1)) _ e in
        let stop : k ≡ j = accept-injective (unless-accept (k == length d) (accept k) last).1 in
        let one : add_u32 i 1 ≡ suc i = omega arith in
        let (le, lt, s, chars, spelled) =
          skip_string_sound (suc (length d)) (suc i) (rw one at scanned) in
        record {
          forward = omega arith;
          near = omega arith;
          item = λ _. (
            text s,
            chars,
            headed i from code (spelled ∙ ap (λ k'. (s ++ (0 ∷ [])) ++ drop (suc k') d) stop),
          );
        }

    pub array_sound :
        (s : Scalar) (i b : ℕ) {j : ℕ}
        → i < length d
        → drop i d ≡ b ∷ drop (suc i) d
        → b ≡ type_code (array s)
        → valid_typed step d (length d) (array s) i ≡ accept j
        → Span d i j
    unfolding valid_typed encode
    array_sound s i b {j} inside from code e =
        let one : add_u32 i 1 ≡ suc i = omega arith in
        let (room, rest) = unless-accept (ltb (length d) (add_u32 i 1 + 2)) _ e in
        let (n, got, last) = >>=-accept (fetch (front_16 (add_u32 i 1) d)) _ rest in
        let fits : suc i + 2 ≤ length d = ground (arith, one) in
        let (ys, size, from_ys, ys_bytes) = split_at IsByte d (suc i) 2 bytes fits in
        let (m, few, spelled) = spell_16 ys size ys_bytes in
        let here : drop (suc i) d ≡ be_16 m ++ drop (suc i + 2) d =
          from_ys ∙ ap (λ l. l ++ drop (suc i + 2) d) (sym spelled) in
        let same : n ≡ m = some-eq (
          sym (fetch-accept _ (rw one at got))
          ∙ front_16-be_16 d (suc i) m few (omega arith) here) in
        let bound = product_le m (size_of s) few (size_of_pos s).1 in
        let stop : j ≡ i + 2 + m * size_of s =
          sym (accept-injective last)
          ∙ ap (λ x. dec_u32 (add_u32 (add_u32 (add_u32 i 1) 2) (x * size_of s))) same
          ∙ array_end i (m * size_of s) (omega arith) bound in
        record {
          forward = omega arith;
          near = omega (arith, bound);
          item = λ lt.
              let (xs, len, ws, es) = parse_scalars d bytes s m (suc i + 2) (omega arith) in
              let shift : suc i + 2 + m * size_of s ≡ suc j = omega arith in
              let count_xs : be_16 (length xs) ≡ be_16 m = ap be_16 len in
              (
                numbers s xs,
                (omega arith, ws),
                headed i from code (
                    here
                    ∙ ap (λ l. be_16 m ++ l) (es ∙ ap (λ k. encode_scalars s xs ++ drop k d) shift)
                    ∙ ap (λ l. l ++ (encode_scalars s xs ++ drop (suc j) d)) (sym count_xs)),
              );
        }
