-- ===== src/Packet/ReadParts.antt =====
-- Each part of `PacketReader` reads the bytes that the format writes for it.
use sednl.Base.{
  ℕ, zero, suc, ◌+◌, ◌^◌, ◌≤◌, ◌<◌, ◌≡◌, refl, ap, ◌∙◌, List, [], ◌∷◌, ◌++◌, append_assoc,
  append-nil, Bool, ByteArray, arith, length, All, drop, drop-cons, drop_fits, drop-append_step,
  add_u32, some, length-append, false, true, ◌==◌, leb, ne→==_false,
}
use sednl.Exceptions.{
  Scalar, int8, int16, int32, int64, uint8, uint16, uint32, uint64, float, double, ok, >>=-ok,
}
use sednl.Bytes.Host.{Host}
use sednl.Bytes.Wire.{front_16-be_16, front_32-be_32, front_64-be_64, be_16}
use sednl.Bytes.Order.{front_8}
use sednl.Packet.Types.{number, text, numbers, type_code, array, string, scalar, size_of}
use sednl.Packet.Read.{
  PacketReader, front_scalar, take_scalar, take_scalars, read_elements, read_chars, take_string,
  Reader, read_typed, read_number, read_string, read_array,
}
use sednl.Packet.Format.{encode_scalar, encode_scalars, encode, Within, IsChar}

abbrev pub at : ByteArray → ℕ → PacketReader
at p i = record { m_p = p; m_idx = i }

pub length-encode_scalar : (s : Scalar) (x : ℕ) → length (encode_scalar s x) ≡ size_of s
length-encode_scalar int8 x = refl
length-encode_scalar int16 x = refl
length-encode_scalar int32 x = refl
length-encode_scalar int64 x = refl
length-encode_scalar uint8 x = refl
length-encode_scalar uint16 x = refl
length-encode_scalar uint32 x = refl
length-encode_scalar uint64 x = refl
length-encode_scalar float x = refl
length-encode_scalar double x = refl

pub size_of_pos : (s : Scalar) → (0 < size_of s) × (size_of s ≤ 8)
size_of_pos int8 = omega arith
size_of_pos int16 = omega arith
size_of_pos int32 = omega arith
size_of_pos int64 = omega arith
size_of_pos uint8 = omega arith
size_of_pos uint16 = omega arith
size_of_pos uint32 = omega arith
size_of_pos uint64 = omega arith
size_of_pos float = omega arith
size_of_pos double = omega arith

module _ ⦃host : Host⦄ (p : ByteArray) (small : length p < 2 ^ 32) where
  scalar_fits :
      (s : Scalar) (i x : ℕ) (rest : ByteArray)
      → drop i p ≡ encode_scalar s x ++ rest
      → i + size_of s ≤ length p
  scalar_fits s i x rest e =
      omega
        (arith, length-encode_scalar s x, size_of_pos s, drop_fits p i (encode_scalar s x) rest e)

  front_scalar_lem :
      (s : Scalar) (i x : ℕ) (rest : ByteArray)
      → Within s x
      → i + size_of s ≤ length p
      → drop i p ≡ encode_scalar s x ++ rest
      → front_scalar s i p ≡ some x
  unfolding front_scalar front_8
  front_scalar_lem int8 i x rest h fits e = (drop-cons p i e).0
  front_scalar_lem uint8 i x rest h fits e = (drop-cons p i e).0
  front_scalar_lem int16 i x rest h fits e = front_16-be_16 p i x h (omega arith) e
  front_scalar_lem uint16 i x rest h fits e = front_16-be_16 p i x h (omega arith) e
  front_scalar_lem int32 i x rest h fits e = front_32-be_32 p i x h (omega arith) e
  front_scalar_lem uint32 i x rest h fits e = front_32-be_32 p i x h (omega arith) e
  front_scalar_lem float i x rest h fits e = front_32-be_32 p i x h (omega arith) e
  front_scalar_lem int64 i x rest h fits e = front_64-be_64 p i x h (omega arith) e
  front_scalar_lem uint64 i x rest h fits e = front_64-be_64 p i x h (omega arith) e
  front_scalar_lem double i x rest h fits e = front_64-be_64 p i x h (omega arith) e

  take_scalar_lem :
      (s : Scalar) (i x : ℕ) (rest : ByteArray)
      → Within s x
      → drop i p ≡ encode_scalar s x ++ rest
      → take_scalar s (at p i) ≡ ok x (at p (i + size_of s))
  unfolding take_scalar
  take_scalar_lem s i x rest h e =
      let fits = scalar_fits s i x rest e in
      let step : add_u32 i (size_of s) ≡ i + size_of s = omega (arith, fits) in
      rw (front_scalar_lem s i x rest h fits e, step)

  take_scalars_lem :
      (s : Scalar) (xs : List ℕ) (i : ℕ) (rest : ByteArray)
      → All (Within s) xs
      → drop i p ≡ encode_scalars s xs ++ rest
      → take_scalars s (length xs) (at p i) ≡ ok xs (at p (i + length (encode_scalars s xs)))
  unfolding take_scalars
  take_scalars_lem s [] i rest h e = ap (λ k. ok [] (at p k)) (omega arith)
  take_scalars_lem s (x ∷ xs) i rest h e =
      let here : drop i p ≡ encode_scalar s x ++ (encode_scalars s xs ++ rest) =
        e ∙ append_assoc (encode_scalar s x) (encode_scalars s xs) rest in
      let next : drop (i + size_of s) p ≡ encode_scalars s xs ++ rest =
        rw (← length-encode_scalar s x)
          (drop-append_step p i (encode_scalar s x) (encode_scalars s xs ++ rest) here) in
      let stop : i + size_of s + length (encode_scalars s xs)
          ≡ i + length (encode_scalar s x ++ encode_scalars s xs) =
        omega (
          arith,
          length-append (encode_scalar s x) (encode_scalars s xs),
          length-encode_scalar s x,
        ) in
      >>=-ok (take_scalar s) _ (at p i)
        (take_scalar_lem s i x (encode_scalars s xs ++ rest) h.0 here)
      ∙ >>=-ok (take_scalars s (length xs)) _ (at p (i + size_of s))
          (take_scalars_lem s xs (i + size_of s) rest h.1 next)
      ∙ ap (λ k. ok (x ∷ xs) (at p k)) stop

  read_chars_lem :
      (s : List ℕ) (fuel i : ℕ) (out rest : ByteArray)
      → All IsChar s
      → length s < fuel
      → drop i p ≡ (s ++ (0 ∷ [])) ++ rest
      → read_chars fuel out (at p i) ≡ ok (out ++ s) (at p (i + length s))
  unfolding read_chars
  read_chars_lem s zero i out rest h f e = absurd (omega arith)
  read_chars_lem [] (suc fuel) i out rest h f e =
      rw ((drop-cons p i e).0) (ground (arith, append-nil out))
  read_chars_lem (c ∷ s) (suc fuel) i out rest h f e =
      let (here, next) = drop-cons p i e in
      let fits = drop_fits p i (c ∷ []) ((s ++ (0 ∷ [])) ++ rest) e (omega arith) in
      let tail = read_chars_lem s fuel (i + 1) (out ++ (c ∷ [])) rest h.1 (omega arith) next in
      let step : add_u32 i 1 ≡ i + 1 = omega (arith, fits) in
      rw (here, ne→==_false c 0 h.0.0, step, tail) (ground (arith, append_assoc out (c ∷ []) s))

  read_typed_lem {κ} :
      {A : Type κ} (fits : ℕ → Bool) (old : A) (k : Reader A) (i b : ℕ) (rest : ByteArray)
      → fits b ≡ true
      → drop i p ≡ b ∷ rest
      → read_typed fits old k (at p i) ≡ k (at p (i + 1))
  unfolding read_typed
  read_typed_lem fits old k i b rest ok_b e =
      let fits_in = drop_fits p i (b ∷ []) rest e (omega arith) in
      let step : add_u32 i 1 ≡ i + 1 = omega (arith, fits_in) in
      let more : leb (length p) i ≡ false = ground (arith, fits_in) in
      rw (more, (drop-cons p i e).0, ok_b, step)

  pub read_number_lem :
      (s : Scalar) (old i x : ℕ) (rest : ByteArray)
      → Within s x
      → drop i p ≡ encode (number s x) ++ rest
      → read_number s old (at p i) ≡ ok x (at p (i + length (encode (number s x))))
  unfolding read_number encode
  read_number_lem s old i x rest h e =
      read_typed_lem (λ b. b == type_code (scalar s)) old (take_scalar s) i (type_code (scalar s))
        (encode_scalar s x ++ rest) (ground arith) e
      ∙ take_scalar_lem s (i + 1) x rest h (drop-cons p i e).1
      ∙ ap (λ k. ok x (at p k)) (omega (arith, length-encode_scalar s x))

  take_string_lem :
      (s : ByteArray) (i : ℕ) (rest : ByteArray)
      → All IsChar s
      → drop i p ≡ (s ++ (0 ∷ [])) ++ rest
      → take_string (at p i) ≡ ok s (at p (i + length (s ++ (0 ∷ []))))
  unfolding take_string
  take_string_lem s i rest h e =
      let size = length-append s (0 ∷ []) in
      let fits = drop_fits p i (s ++ (0 ∷ [])) rest e (omega (arith, size)) in
      let stop : add_u32 (i + length s) 1 ≡ i + length (s ++ (0 ∷ [])) =
        omega (arith, fits, size) in
      rw (read_chars_lem s (suc (length p)) i [] rest h (omega (arith, fits, size)) e, stop)

  pub read_string_lem :
      (s old : ByteArray) (i : ℕ) (rest : ByteArray)
      → All IsChar s
      → drop i p ≡ encode (text s) ++ rest
      → read_string old (at p i) ≡ ok s (at p (i + length (encode (text s))))
  unfolding read_string encode
  read_string_lem s old i rest h e =
      read_typed_lem (λ b. b == type_code string) old take_string i (type_code string)
        ((s ++ (0 ∷ [])) ++ rest) refl e
      ∙ take_string_lem s (i + 1) rest h (drop-cons p i e).1
      ∙ ap (λ k. ok s (at p k)) (omega arith)

  pub read_array_lem :
      (s : Scalar) (xs old : List ℕ) (i : ℕ) (rest : ByteArray)
      → length xs < 2 ^ 16
      → All (Within s) xs
      → drop i p ≡ encode (numbers s xs) ++ rest
      → read_array s old (at p i) ≡ ok xs (at p (i + length (encode (numbers s xs))))
  unfolding read_array read_elements encode
  read_array_lem s xs old i rest few h e =
      let elements = encode_scalars s xs in
      let next : drop (i + 1) p ≡ be_16 (length xs) ++ (elements ++ rest) = (drop-cons p i e).1 in
      let after = drop-append_step p (i + 1) (be_16 (length xs)) (elements ++ rest) next in
      read_typed_lem (λ b. b == type_code (array s)) old (read_elements s) i (type_code (array s))
        (be_16 (length xs) ++ (elements ++ rest)) (ground arith) e
      ∙ >>=-ok (take_scalar uint16) (take_scalars s) (at p (i + 1))
          (take_scalar_lem uint16 (i + 1) (length xs) (elements ++ rest) few next)
      ∙ take_scalars_lem s xs (i + 1 + 2) rest h after
      ∙ ap (λ k. ok xs (at p k)) (omega arith)
