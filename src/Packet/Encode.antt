-- ===== src/Packet/Encode.antt =====
-- Writing appends the format's bytes, and nothing else.
use sednl.Base.{
  ℕ, ◌^◌, ◌<◌, ◌≡◌, refl, ap, ◌∙◌, sym, List, [], ◌∷◌, ◌++◌, append_assoc, append-nil, ByteArray,
  arith, length, All, ◌≤◌,
}
use sednl.Exceptions.{
  Scalar, int8, int16, int32, int64, uint8, uint16, uint32, uint64, float, double, ok, ◌>>◌, >>=-ok,
  thrown, fault, wrong_array, empty_object, aborted,
}
use sednl.Bytes.Host.{Host}
use sednl.Bytes.Wire.{push_16-be_16, push_32-be_32, push_64-be_64, be_16}
use sednl.Packet.Types.{
  Value, number, text, numbers, object_of, Values, nil, cons, type_code, array, string, object,
  scalar,
}
use sednl.Packet.Write.{
  Writer, push_scalar, push_all, write_chars, number_of_args, write, write_to_packet, write_number,
  write_array, write_string, write_c_str, write_object_header,
}
use sednl.Packet.Format.{
  encode_scalar, encode_scalars, encode, encode_all, count, Within, IsChar, IsItem, AllItems,
  HasFields, AllHaveFields,
}

pub number_of_args-count : (vs : Values) → count vs < 2 ^ 16 → number_of_args vs ≡ count vs
unfolding number_of_args
number_of_args-count nil h = refl
number_of_args-count (cons v vs) h = omega (arith, number_of_args-count vs (omega arith))

write_chars_lem :
    (s rest : List ℕ) (d : ByteArray)
    → All IsChar s
    → write_chars (s ++ (0 ∷ rest)) d ≡ ok tt (d ++ (s ++ (0 ∷ [])))
unfolding write_chars
write_chars_lem [] rest d h = refl
write_chars_lem (c ∷ cs) rest d h =
    ground
      (arith, write_chars_lem cs rest (d ++ (c ∷ [])), append_assoc d (c ∷ []) (cs ++ (0 ∷ [])))

write_object_header_lem :
    (n : ℕ) (k : Writer) (d : ByteArray)
    → 0 < n
    → n < 256
    → (write_object_header n >> k) d ≡ k (d ++ (type_code object ∷ n ∷ []))
unfolding write_object_header
write_object_header_lem n k d h small =
    ground (arith, append_assoc d (type_code object ∷ []) (n ∷ []))

module _ ⦃host : Host⦄ where
  push_scalar_lem :
      (s : Scalar) (d : ByteArray) (x : ℕ) → Within s x → push_scalar s d x ≡ d ++ encode_scalar s x
  unfolding push_scalar
  push_scalar_lem int8 d x h = refl
  push_scalar_lem uint8 d x h = refl
  push_scalar_lem int16 d x h = push_16-be_16 d x h
  push_scalar_lem uint16 d x h = push_16-be_16 d x h
  push_scalar_lem int32 d x h = push_32-be_32 d x h
  push_scalar_lem uint32 d x h = push_32-be_32 d x h
  push_scalar_lem float d x h = push_32-be_32 d x h
  push_scalar_lem int64 d x h = push_64-be_64 d x h
  push_scalar_lem uint64 d x h = push_64-be_64 d x h
  push_scalar_lem double d x h = push_64-be_64 d x h

  push_all_lem :
      (s : Scalar) (xs : List ℕ) (d : ByteArray)
      → All (Within s) xs
      → push_all s xs d ≡ d ++ encode_scalars s xs
  unfolding push_all
  push_all_lem s [] d h = sym (append-nil d)
  push_all_lem s (x ∷ xs) d h =
      push_all_lem s xs (push_scalar s d x) h.1
      ∙ ap (λ t. t ++ encode_scalars s xs) (push_scalar_lem s d x h.0)
      ∙ append_assoc d (encode_scalar s x) (encode_scalars s xs)

  write_array_lem :
      (s : Scalar) (xs : List ℕ) (d : ByteArray)
      → length xs < 2 ^ 16
      → All (Within s) xs
      → write_array s xs d ≡ ok tt (d ++ encode (numbers s xs))
  unfolding write_array encode
  write_array_lem s xs d small h =
      let code : List ℕ = type_code (array s) ∷ [] in
      ground (
        arith,
        push_16-be_16 (d ++ code) (length xs),
        push_all_lem s xs ((d ++ code) ++ be_16 (length xs)) h,
        append_assoc (d ++ code) (be_16 (length xs)) (encode_scalars s xs),
        append_assoc d code (be_16 (length xs) ++ encode_scalars s xs),
      )

  mutual
    unfolding write encode write_number write_string write_c_str

    write_lem :
        (v : Value) (d : ByteArray) → IsItem v → HasFields v → write v d ≡ ok tt (d ++ encode v)
    write_lem (number s x) d h f = ap (ok tt) (
        push_scalar_lem s (d ++ (type_code (scalar s) ∷ [])) x h
        ∙ append_assoc d (type_code (scalar s) ∷ []) (encode_scalar s x))
    write_lem (text s) d h f =
        write_chars_lem s [] (d ++ (type_code string ∷ [])) h
        ∙ ap (ok tt) (append_assoc d (type_code string ∷ []) (s ++ (0 ∷ [])))
    write_lem (numbers s xs) d h f = write_array_lem s xs d h.0 h.1
    write_lem (object_of vs) d h f =
        let header : List ℕ = type_code object ∷ count vs ∷ [] in
        rw (number_of_args-count vs (omega arith)) (
          write_object_header_lem (count vs) (write_to_packet vs) d f.0 h.0
          ∙ write_to_packet_lem vs (d ++ header) h.1 f.1
          ∙ ap (ok tt) (append_assoc d header (encode_all vs)))

    write_to_packet_lem :
        (vs : Values) (d : ByteArray)
        → AllItems vs
        → AllHaveFields vs
        → write_to_packet vs d ≡ ok tt (d ++ encode_all vs)
    write_to_packet_lem nil d h f = ap (ok tt) (sym (append-nil d))
    write_to_packet_lem (cons v vs) d h f =
        >>=-ok (write v) (λ _. write_to_packet vs) d (write_lem v d h.0 f.0)
        ∙ write_to_packet_lem vs (d ++ encode v) h.1 f.1
        ∙ ap (ok tt) (append_assoc d (encode v) (encode_all vs))

  -- Writing a value that fits its C++ type, and whose objects have fields, succeeds. It appends the
  -- value's bytes in the packet format, which do not depend on the host's byte order.
  pub write-encode :
      (v : Value) (d : ByteArray) → IsItem v → HasFields v → write v d ≡ ok tt (d ++ encode v)
  write-encode v d h f = write_lem v d h f

  -- The same for the arguments of `make_packet`, one after the other.
  pub write_to_packet-encode_all :
      (vs : Values) (d : ByteArray)
      → AllItems vs
      → AllHaveFields vs
      → write_to_packet vs d ≡ ok tt (d ++ encode_all vs)
  write_to_packet-encode_all vs d h f = write_to_packet_lem vs d h f

  -- An array of numbers within their width is written if it has fewer than 65536 of them. Else it is
  -- refused, and the packet stays as it was.
  write_array_limits :
      (s : Scalar) (xs : List ℕ) (d : ByteArray)
      → All (Within s) xs
      → (length xs < 2 ^ 16 → write (numbers s xs) d ≡ ok tt (d ++ encode (numbers s xs)))
        × (2 ^ 16 ≤ length xs → write (numbers s xs) d ≡ thrown wrong_array d)
  write_array_limits s xs d h = (
    λ small. write_lem (numbers s xs) d (small, h) tt,
    λ long. unfold write write_array in ground arith,
  )

  -- An object without fields is refused, and the packet stays as it was. One of more than 255 fields,
  -- but fewer than 65536, stops the program at the assertion. Between the two, an object whose fields
  -- fit their types is written.
  pub write_object_limits :
      (vs : Values) (d : ByteArray)
      → count vs < 2 ^ 16
      → AllItems vs
      → AllHaveFields vs
      → (count vs ≡ 0 → write (object_of vs) d ≡ thrown empty_object d)
        × (255 < count vs → write (object_of vs) d ≡ fault aborted)
        × (0 < count vs
            → count vs < 256
            → write (object_of vs) d ≡ ok tt (d ++ encode (object_of vs)))
  write_object_limits vs d h items fields =
      let n = number_of_args-count vs h in
      (
        λ e. unfold write write_object_header in ground (arith, n),
        λ e. unfold write write_object_header in ground (arith, n),
        λ some_fields few. write_lem (object_of vs) d (few, items) (some_fields, fields),
      )
