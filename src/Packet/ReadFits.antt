-- ===== src/Packet/ReadFits.antt =====
-- What `operator>>` of a number, a string or an array gives on any bytes.
use sednl.Base.{
  ℕ, zero, suc, ◌^◌, ◌<◌, ◌==◌, ◌≢◌, ◌≡◌, refl, sym, ap, ◌∙◌, arith, Bool, true, false, Option,
  none, some, List, [], ◌∷◌, ◌++◌, All, All-append, ByteArray, IsByte, length, get_elem?, add_u32,
}
use sednl.Exceptions.{
  Scalar, int8, int16, int32, int64, uint8, uint16, uint32, uint64, float, double, Result,
  PacketExceptionT, ok, thrown, fault, access, undefined,
}
use sednl.Bytes.Host.{Host}
use sednl.Bytes.Range.{
  get_elem?-IsByte, front_8-IsByte, front_16-IsU16, front_32-IsU32, front_64-IsU64,
}
use sednl.Packet.Types.{scalar, array, string, type_code}
use sednl.Packet.Read.{
  PacketReader, read_chars, take_string, read_string, front_scalar, take_scalar, take_scalars,
  read_number, read_elements, read_array,
}
use sednl.Packet.Format.{Within, IsChar}
use sednl.Packet.Gives.{Gives, Gives-bind, access-Gives, read_typed-Gives}

module _ (p : ByteArray) (bytes : All IsByte p) where
  read_chars-Gives :
      (fuel : ℕ) (out : ByteArray) (r : PacketReader)
      → r.m_p ≡ p
      → All IsChar out
      → Gives p (All IsChar) (read_chars fuel out r)
  unfolding read_chars
  read_chars-Gives zero out r e h = tt
  read_chars-Gives (suc fuel) out r e h = by_byte (get_elem? r.m_p r.m_idx) refl (λ b ne here.
      read_chars-Gives fuel (out ++ (b ∷ [])) (record r { m_idx = add_u32 r.m_idx 1 }) e
        (All-append IsChar out (b ∷ []) h (
          (ne, get_elem?-IsByte p r.m_idx bytes (ap (λ l. get_elem? l r.m_idx) (sym e) ∙ here)),
          tt,
        )))
    where
      by_end :
          (b : ℕ) (z : Bool)
          → (b == 0) ≡ z
          → (b ≢ 0
              → Gives p
                  (All IsChar)
                  (read_chars fuel (out ++ (b ∷ [])) (record r { m_idx = add_u32 r.m_idx 1 })))
          → Gives p (All IsChar) (elim z [
            | true ↦ ok out r
            | false ↦ read_chars fuel (out ++ (b ∷ [])) (record r { m_idx = add_u32 r.m_idx 1 })
          ])
      by_end b true z next = (e, h)
      by_end b false z next = next (λ zero_byte. ground arith)

      by_byte :
          (o : Option ℕ)
          → get_elem? r.m_p r.m_idx ≡ o
          → ((b : ℕ)
              → b ≢ 0
              → get_elem? r.m_p r.m_idx ≡ some b
              → Gives p
                  (All IsChar)
                  (read_chars fuel (out ++ (b ∷ [])) (record r { m_idx = add_u32 r.m_idx 1 })))
          → Gives p (All IsChar) (elim o [
            | none ↦ fault undefined
            | some b ↦ elim (b == 0) [
              | true ↦ ok out r
              | false ↦ read_chars fuel (out ++ (b ∷ [])) (record r { m_idx = add_u32 r.m_idx 1 })
            ]
          ])
      by_byte none here next = tt
      by_byte (some b) here next = by_end b (b == 0) refl (λ ne. next b ne here)

  pub read_string-Gives :
      (old : ByteArray) (r : PacketReader)
      → r.m_p ≡ p
      → All IsChar old
      → Gives p (All IsChar) (read_string old r)
  unfolding read_string take_string
  read_string-Gives old r e h =
      read_typed-Gives p (All IsChar) (λ b. b == type_code string) old take_string r e h
        (λ r' e'.
          Gives-bind p (All IsChar) (All IsChar) (read_chars (suc (length r'.m_p)) []) _ r'
            (read_chars-Gives (suc (length r'.m_p)) [] r' e' tt)
            (λ out r'' e'' chars. (e'', chars)))

  module _ ⦃host : Host⦄ where
    front_scalar-Within : (s : Scalar) (i : ℕ) {x : ℕ} → front_scalar s i p ≡ some x → Within s x
    unfolding front_scalar
    front_scalar-Within int8 i e = front_8-IsByte p bytes i e
    front_scalar-Within uint8 i e = front_8-IsByte p bytes i e
    front_scalar-Within int16 i e = front_16-IsU16 p bytes i e
    front_scalar-Within uint16 i e = front_16-IsU16 p bytes i e
    front_scalar-Within int32 i e = front_32-IsU32 p bytes i e
    front_scalar-Within uint32 i e = front_32-IsU32 p bytes i e
    front_scalar-Within float i e = front_32-IsU32 p bytes i e
    front_scalar-Within int64 i e = front_64-IsU64 p bytes i e
    front_scalar-Within uint64 i e = front_64-IsU64 p bytes i e
    front_scalar-Within double i e = front_64-IsU64 p bytes i e

    take_scalar-Gives :
        (s : Scalar) (r : PacketReader) → r.m_p ≡ p → Gives p (Within s) (take_scalar s r)
    unfolding take_scalar
    take_scalar-Gives s r e =
        Gives-bind p (Within s) (Within s) (access (front_scalar s r.m_idx r.m_p)) _ r
          (access-Gives p (Within s) (front_scalar s r.m_idx r.m_p) r e
            (λ x here. front_scalar-Within s r.m_idx (ap (front_scalar s r.m_idx) (sym e) ∙ here)))
          (λ x r' e' h. (e', h))

    abbrev Array : Scalar → ℕ → List ℕ → Type 0
    Array s n xs = (length xs ≡ n) × All (Within s) xs

    take_scalars-Gives :
        (s : Scalar) (n : ℕ) (r : PacketReader)
        → r.m_p ≡ p
        → Gives p (Array s n) (take_scalars s n r)
    unfolding take_scalars
    take_scalars-Gives s zero r e = (e, (refl, tt))
    take_scalars-Gives s (suc n) r e =
        Gives-bind p (Within s) (Array s (suc n)) (take_scalar s) _ r (take_scalar-Gives s r e)
          (λ x r' e' h.
            Gives-bind p (Array s n) (Array s (suc n)) (take_scalars s n) _ r'
              (take_scalars-Gives s n r' e') (λ xs r'' e'' all. (e'', (ap suc all.0, (h, all.1)))))

    abbrev pub Fits : Scalar → List ℕ → Type 0
    Fits s xs = (length xs < 2 ^ 16) × All (Within s) xs

    pub read_array-Gives :
        (s : Scalar) (old : List ℕ) (r : PacketReader)
        → r.m_p ≡ p
        → Fits s old
        → Gives p (Fits s) (read_array s old r)
    unfolding read_array read_elements
    read_array-Gives s old r e h =
        read_typed-Gives p (Fits s) (λ b. b == type_code (array s)) old (read_elements s) r e h
          (λ r' e'.
            Gives-bind p (Within uint16) (Fits s) (take_scalar uint16) (take_scalars s) r'
              (take_scalar-Gives uint16 r' e')
              (λ n r'' e'' small.
                few s n small (take_scalars s n r'') (take_scalars-Gives s n r'' e'')))
      where
        few :
            (s : Scalar) (n : ℕ)
            → Within uint16 n
            → (x : Result PacketExceptionT PacketReader (List ℕ)) → Gives p (Array s n) x
            → Gives p (Fits s) x
        few s n small (ok xs r) (e, (len, all)) = (e, (omega (arith, len), all))
        few s n small (thrown y r) e = e
        few s n small (fault y) e = tt

    pub read_number-Gives :
        (s : Scalar) (old : ℕ) (r : PacketReader)
        → r.m_p ≡ p
        → Within s old
        → Gives p (Within s) (read_number s old r)
    unfolding read_number
    read_number-Gives s old r e h =
        read_typed-Gives p (Within s) (λ b. b == type_code (scalar s)) old (take_scalar s) r e h
          (take_scalar-Gives s)
