-- ===== src/Packet/Gives.antt =====
-- What a computation of the reader gives, and that it keeps the packet; the parts of it that every
-- variable shares.
use sednl.Base.{
  ℕ, ◌==◌, ◌≡◌, refl, Bool, true, false, Option, none, some, ByteArray, get_elem?, Bool-cases, inl,
  inr, add_u32,
}
use sednl.Exceptions.{Result, PacketExceptionT, ok, thrown, fault, ◌>>=◌, pure, access}
use sednl.Packet.Types.{PacketType, type_code, cast_type}
use sednl.Packet.Read.{
  PacketReader, Reader, at_end, peek, expect, read_typed, on_copy, read_object_header, check_header,
  check_length, next_type, has_next,
}

-- What a computation gives has a property, and it reads the same packet.
abbrev pub Gives {κ} :
    {A : Type κ} → ByteArray → (A → Type 0) → Result PacketExceptionT PacketReader A → Type 0
Gives p P (ok a r) = (r.m_p ≡ p) × P a
Gives p P (thrown e r) = r.m_p ≡ p
Gives p P (fault x) = Unit

module _ {κ μ} {A : Type κ} {B : Type μ} (p : ByteArray) where
  pub Gives-bind :
      (P : A → Type 0) (Q : B → Type 0) (m : Reader A) (f : A → Reader B) (r : PacketReader)
      → Gives p P (m r)
      → ((a : A) (r' : PacketReader) → r'.m_p ≡ p → P a → Gives p Q (f a r'))
      → Gives p Q ((m >>= f) r)
  Gives-bind P Q m f r h next = by_result (m r) h
    where
      by_result :
          (x : Result PacketExceptionT PacketReader A)
          → Gives p P x
          → Gives p Q (elim x [ ok a r' ↦ f a r' | thrown e r' ↦ thrown e r' | fault y ↦ fault y ])
      by_result (ok a r') (e, pa) = next a r' e pa
      by_result (thrown e r') h' = h'
      by_result (fault y) h' = tt

module _ {κ} {A : Type κ} (p : ByteArray) where
  pub access-Gives :
      (P : A → Type 0) (o : Option A) (r : PacketReader)
      → r.m_p ≡ p
      → ((a : A) → o ≡ some a → P a)
      → Gives p P (access o r)
  access-Gives P none r e h = tt
  access-Gives P (some a) r e h = (e, h a refl)

  pub read_typed-Gives :
      (P : A → Type 0) (fits : ℕ → Bool) (old : A) (rest : Reader A) (r : PacketReader)
      → r.m_p ≡ p
      → P old
      → ((r' : PacketReader) → r'.m_p ≡ p → Gives p P (rest r'))
      → Gives p P (read_typed fits old rest r)
  unfolding read_typed expect
  read_typed-Gives P fits old rest r e h next = elim (Bool-cases (at_end r)) [
    | inl over ↦ rw over (e, h)
    | inr more ↦ rw more (
        Gives-bind p (λ _. Unit {0}) P peek _ r (access-Gives_byte (get_elem? r.m_p r.m_idx) r e)
          (λ b r' e' _.
            Gives-bind p (λ _. Unit {0}) P (expect (fits b) b) (λ _. rest) r'
              (expect-Gives (fits b) b r' e') (λ _ r'' e'' _. next r'' e'')))
  ]
    where
      access-Gives_byte :
          (o : Option ℕ) (r : PacketReader) → r.m_p ≡ p → Gives p (λ _. Unit {0}) (access o r)
      access-Gives_byte none r e = tt
      access-Gives_byte (some a) r e = (e, tt)

      expect-Gives :
          (b : Bool) (t : ℕ) (r : PacketReader) → r.m_p ≡ p → Gives p (λ _. Unit {0}) (expect b t r)
      expect-Gives true t r e = (e, tt)
      expect-Gives false t r e = e

module _ (p : ByteArray) where
  check_length-Gives :
      (n b : ℕ) (r : PacketReader) → r.m_p ≡ p → Gives p (λ _. Unit {0}) (check_length n b r)
  unfolding check_length
  check_length-Gives n b r e = elim (Bool-cases (b == 0)) [
    | inl empty ↦ rw empty e
    | inr some_fields ↦ elim (Bool-cases (b == n)) [
      | inl same ↦ rw (some_fields, same) (e, tt)
      | inr other ↦ rw (some_fields, other) e
    ]
  ]

  check_header-Gives :
      (n : ℕ) (t : PacketType) (r : PacketReader)
      → r.m_p ≡ p
      → Gives p (λ _. Unit {0}) (check_header n t r)
  unfolding check_header
  check_header-Gives n t r e = elim (Bool-cases (type_code t == 0x40)) [
    | inr other ↦ rw other e
    | inl object_type ↦ rw object_type (
        Gives-bind p (λ _. Unit {0}) (λ _. Unit {0}) (access (get_elem? r.m_p (add_u32 r.m_idx 1)))
          (check_length n) r
          (access-Gives p (λ _. Unit {0}) (get_elem? r.m_p (add_u32 r.m_idx 1)) r e (λ a _. tt))
          (λ b r' e' _. check_length-Gives n b r' e'))
  ]

  next_type-Gives : (r : PacketReader) → r.m_p ≡ p → Gives p (λ _. Unit {0}) (next_type r)
  unfolding next_type
  next_type-Gives r e = elim (Bool-cases (has_next r)) [
    | inr end ↦ rw end (e, tt)
    | inl more ↦ rw more (
        Gives-bind p (λ _. Unit {0}) (λ _. Unit {0}) peek (λ b. pure (cast_type b)) r
          (access-Gives p (λ _. Unit {0}) (get_elem? r.m_p r.m_idx) r e (λ a _. tt))
          (λ b r' e' _. (e', tt)))
  ]

  pub read_object_header-Gives :
      (n : ℕ) (r : PacketReader) → r.m_p ≡ p → Gives p (λ _. Unit {0}) (read_object_header n r)
  unfolding read_object_header
  read_object_header-Gives n r e =
      Gives-bind p (λ _. Unit {0}) (λ _. Unit {0}) next_type (check_header n) r
        (next_type-Gives r e) (λ t r' e' _. check_header-Gives n t r' e')

  pub on_copy-Gives :
      {A : Type 0} (P : A → Type 0) (m : Reader A) (r : PacketReader)
      → r.m_p ≡ p
      → Gives p P (m r)
      → Gives p P (on_copy m r)
  on_copy-Gives {A} P m r e h = by_result (m r) h
    where
      by_result :
          (x : Result PacketExceptionT PacketReader A)
          → Gives p P x
          → Gives p P (elim x [ ok a r' ↦ ok a r' | thrown y r' ↦ thrown y r | fault y ↦ fault y ])
      by_result (ok a r') h' = h'
      by_result (thrown y r') h' = e
      by_result (fault y) h' = tt
