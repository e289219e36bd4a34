-- ===== src/Packet/ValidComplete.antt =====
-- The check accepts every packet that the format describes.
use sednl.Base.{
  ℕ, zero, suc, ◌+◌, ◌-◌, ◌*◌, ◌%◌, ◌^◌, ◌≤◌, ◌<◌, ◌≡◌, refl, ap, ◌∙◌, List, [], ◌∷◌, ◌++◌,
  append_assoc, append-nil, ByteArray, arith, length, All, drop, drop-cons, drop_fits,
  drop-append_step, add_u32, get_elem?_at, length-append, length-drop, true, ltb, ne→==_false,
  lt→ltb,
}
use sednl.Exceptions.{Scalar}
use sednl.Bytes.Host.{Host}
use sednl.Bytes.Wire.{be_16, front_16-be_16}
use sednl.Packet.Types.{
  Value, number, text, numbers, object_of, Values, nil, cons, type_code, object, string, array,
  scalar, cast_type, size_of, cast_type-type_code,
}
use sednl.Packet.Valid.{
  Verdict, accept, skip_string, valid_items, valid_typed, valid_next_item, valid_loop, is_valid,
}
use sednl.Packet.Format.{
  encode, encode_all, encode_scalar, encode_scalars, count, IsChar, IsItem, AllItems,
}
use sednl.Packet.ReadParts.{length-encode_scalar}

length-encode_scalars :
    (s : Scalar) (xs : List ℕ) → length (encode_scalars s xs) ≡ length xs * size_of s
length-encode_scalars s [] = omega arith
length-encode_scalars s (x ∷ xs) = omega (
  arith,
  length-append (encode_scalar s x) (encode_scalars s xs),
  length-encode_scalar s x,
  length-encode_scalars s xs,
)

pub length-encode_pos : (v : Value) → 0 < length (encode v)
unfolding encode
length-encode_pos (number s x) = omega arith
length-encode_pos (text s) = omega arith
length-encode_pos (numbers s xs) = omega arith
length-encode_pos (object_of vs) = omega arith

-- One round of the loop over an object's fields.
valid_items-suc :
    (step : ℕ → Verdict ℕ) (n i : ℕ) {j : ℕ}
    → step i ≡ accept j
    → valid_items step (suc n) i ≡ valid_items step n (add_u32 j 1)
unfolding valid_items
valid_items-suc step n i e = rw (e, valid_items)

module _ ⦃host : Host⦄ (d : ByteArray) (small : length d < 2 ^ 31) where
  skip_string_lem :
      (s : List ℕ) (fuel i : ℕ) (rest : ByteArray)
      → All IsChar s
      → length s < fuel
      → drop i d ≡ (s ++ (0 ∷ [])) ++ rest
      → skip_string fuel d (length d) i ≡ accept (i + length s)
  unfolding skip_string
  skip_string_lem s zero i rest h f e = absurd (omega arith)
  skip_string_lem [] (suc fuel) i rest h f e =
      rw ((drop-cons d i e).0, skip_string) (ap accept (omega arith))
  skip_string_lem (c ∷ s) (suc fuel) i rest h f e =
      let (here, next) = drop-cons d i e in
      let fits = drop_fits d i (c ∷ []) ((s ++ (0 ∷ [])) ++ rest) e (omega arith) in
      let tail = skip_string_lem s fuel (i + 1) rest h.1 (omega arith) next in
      let step : add_u32 i 1 ≡ i + 1 = omega (arith, fits) in
      let inside : ltb i (length d) ≡ true = lt→ltb i (length d) (omega (arith, fits)) in
      rw (here, skip_string)
        (rw (ne→==_false c 0 h.0.0, inside, step, tail) (ap accept (omega arith)))

  valid_string_lem :
      (step : ℕ → Verdict ℕ) (s : List ℕ) (i : ℕ) (rest : ByteArray)
      → All IsChar s
      → drop i d ≡ encode (text s) ++ rest
      → valid_typed step d (length d) string i ≡ accept (i + suc (length s))
  unfolding valid_typed encode
  valid_string_lem step s i rest h e =
      let next = (drop-cons d i e).1 in
      let size = length-append s (0 ∷ []) in
      let fits = drop_fits d (i + 1) (s ++ (0 ∷ [])) rest next (omega (arith, size)) in
      let one : add_u32 i 1 ≡ i + 1 = omega (arith, fits, size) in
      rw (one, skip_string_lem s (suc (length d)) (i + 1) rest h (omega (arith, fits, size)) next)
        (ground (arith, fits, size))

  valid_array_lem :
      (step : ℕ → Verdict ℕ) (s : Scalar) (xs : List ℕ) (i : ℕ) (rest : ByteArray)
      → length xs < 2 ^ 16
      → drop i d ≡ encode (numbers s xs) ++ rest
      → valid_typed step d (length d) (array s) i ≡ accept (i + suc (suc (length xs * size_of s)))
  unfolding valid_typed encode
  valid_array_lem step s xs i rest few e =
      let next : drop (i + 1) d ≡ be_16 (length xs) ++ (encode_scalars s xs ++ rest) =
        (drop-cons d i e).1 in
      let fits = drop_fits d i (encode (numbers s xs)) rest e (omega arith) in
      let size = length-encode_scalars s xs in
      let one : add_u32 i 1 ≡ i + 1 = omega (arith, fits) in
      rw (one, front_16-be_16 d (i + 1) (length xs) few (omega (arith, fits)) next)
        (ground (arith, fits, size))

  valid_object_lem :
      (step : ℕ → Verdict ℕ) (vs : Values) (i : ℕ) (rest : ByteArray)
      → valid_items step (count vs) (i + 2) ≡ accept (i + 2 + length (encode_all vs))
      → drop i d ≡ encode (object_of vs) ++ rest
      → valid_typed step d (length d) object i ≡ accept (i + suc (length (encode_all vs)))
  unfolding valid_typed encode
  valid_object_lem step vs i rest fields e =
      let fits = drop_fits d i (encode (object_of vs)) rest e (omega arith) in
      let one : add_u32 i 1 ≡ i + 1 = omega (arith, fits) in
      let two : add_u32 (i + 1) 1 ≡ i + 2 = omega (arith, fits) in
      rw (one, two, get_elem?_at d i 1 e refl) (ground (arith, fields, fits))

  valid_scalar_lem :
      (step : ℕ → Verdict ℕ) (s : Scalar) (i : ℕ)
      → i + size_of s < 2 ^ 32
      → valid_typed step d (length d) (scalar s) i ≡ accept (i + size_of s)
  unfolding valid_typed
  valid_scalar_lem step s i h = ap accept (omega arith)

  valid_at :
      (fuel i b : ℕ) (rest : ByteArray)
      → drop i d ≡ b ∷ rest
      → valid_next_item (suc fuel) d (length d) i
        ≡ valid_typed (valid_next_item fuel d (length d)) d (length d) (cast_type b) i
  unfolding valid_next_item
  valid_at fuel i b rest e = rw ((drop-cons d i e).0, valid_next_item)

  mutual
    unfolding encode valid_items

    valid_item_lem :
        (v : Value) (fuel i : ℕ) (rest : ByteArray)
        → IsItem v
        → length (encode v) ≤ fuel
        → drop i d ≡ encode v ++ rest
        → valid_next_item fuel d (length d) i ≡ accept (i + (length (encode v) - 1))
    valid_item_lem v zero i rest h f e = absurd (omega (arith, length-encode_pos v))
    valid_item_lem (number s x) (suc fuel) i rest h f e =
        let fits = drop_fits d i (encode (number s x)) rest e (omega arith) in
        valid_at fuel i (type_code (scalar s)) (encode_scalar s x ++ rest) e
        ∙ rw (cast_type-type_code (scalar s)) (
            valid_scalar_lem _ s i (omega (arith, fits, length-encode_scalar s x))
            ∙ ap accept (omega (arith, length-encode_scalar s x)))
    valid_item_lem (text s) (suc fuel) i rest h f e =
        valid_at fuel i (type_code string) ((s ++ (0 ∷ [])) ++ rest) e
        ∙ rw (cast_type-type_code string)
            (valid_string_lem _ s i rest h e ∙ ap accept (omega (arith, length-append s (0 ∷ []))))
    valid_item_lem (numbers s xs) (suc fuel) i rest h f e =
        valid_at fuel i (type_code (array s)) (be_16 (length xs) ++ (encode_scalars s xs ++ rest)) e
        ∙ rw (cast_type-type_code (array s)) (
            valid_array_lem _ s xs i rest h.0 e
            ∙ ap accept (omega (arith, length-encode_scalars s xs)))
    valid_item_lem (object_of vs) (suc fuel) i rest h f e =
        valid_at fuel i (type_code object) (count vs ∷ (encode_all vs ++ rest)) e
        ∙ rw (cast_type-type_code object) (
            valid_object_lem _ vs i rest
              (valid_items_lem vs fuel (i + 2) rest h.1 (omega arith)
                (drop-append_step d i (type_code object ∷ count vs ∷ []) (encode_all vs ++ rest) e))
              e
            ∙ ap accept (omega arith))

    valid_items_lem :
        (vs : Values) (fuel i : ℕ) (rest : ByteArray)
        → AllItems vs
        → length (encode_all vs) ≤ fuel
        → drop i d ≡ encode_all vs ++ rest
        → valid_items (valid_next_item fuel d (length d)) (count vs) i
          ≡ accept (i + length (encode_all vs))
    valid_items_lem nil fuel i rest h f e = ap accept (omega arith)
    valid_items_lem (cons v vs) fuel i rest h f e =
        let size = length-append (encode v) (encode_all vs) in
        let here : drop i d ≡ encode v ++ (encode_all vs ++ rest) =
          e ∙ append_assoc (encode v) (encode_all vs) rest in
        let next = drop-append_step d i (encode v) (encode_all vs ++ rest) here in
        let fits = drop_fits d i (encode v) (encode_all vs ++ rest) here (length-encode_pos v) in
        let step : add_u32 (i + (length (encode v) - 1)) 1 ≡ i + length (encode v) =
          omega (arith, fits, length-encode_pos v) in
        valid_items-suc (valid_next_item fuel d (length d)) (count vs) i
          (valid_item_lem v fuel i (encode_all vs ++ rest) h.0 (omega (arith, size)) here)
        ∙ rw
            (
              step,
              valid_items_lem vs fuel (i + length (encode v)) rest h.1 (omega (arith, size)) next,
            )
            (ap accept (omega (arith, size)))

  valid_loop_lem :
      (vs : Values) (fuel i : ℕ)
      → AllItems vs
      → length (encode_all vs) < fuel
      → i ≤ length d
      → drop i d ≡ encode_all vs
      → valid_loop fuel d (length d) i ≡ accept tt
  unfolding valid_loop encode
  valid_loop_lem vs zero i h f le e = absurd (omega arith)
  valid_loop_lem nil (suc fuel) i h f le e = ground (arith, ap length e, length-drop i d)
  valid_loop_lem (cons v vs) (suc fuel) i h f le e =
      let size = length-append (encode v) (encode_all vs) in
      let pos = length-encode_pos v in
      let here : drop i d ≡ encode v ++ (encode_all vs ++ []) = rw (append-nil (encode_all vs)) e in
      let next = drop-append_step d i (encode v) (encode_all vs) e in
      let fits = drop_fits d i (encode v) (encode_all vs) e pos in
      let step : add_u32 (i + (length (encode v) - 1)) 1 ≡ i + length (encode v) =
        omega (arith, fits, pos) in
      let inside : ltb i (length d) ≡ true = lt→ltb i (length d) (omega (arith, fits, pos)) in
      rw
        (
          valid_loop,
          inside,
          valid_item_lem v (suc (length d)) i (encode_all vs ++ []) h.0 (omega (arith, fits)) here,
          step,
        )
        (valid_loop_lem vs fuel (i + length (encode v)) h.1 (omega (arith, size, pos))
          (omega (arith, fits)) next)

-- `is_valid` accepts the bytes of any sequence of values, objects within objects and objects without
-- fields included, and reads nothing outside them.
pub is_valid-encode_all :
    ⦃host : Host⦄ (vs : Values)
    → AllItems vs
    → length (encode_all vs) < 2 ^ 31
    → is_valid (encode_all vs) ≡ accept tt
unfolding is_valid
is_valid-encode_all vs h small =
    let size : length (encode_all vs) % 2 ^ 32 ≡ length (encode_all vs) = omega arith in
    rw size (
      valid_loop_lem (encode_all vs) small vs (suc (length (encode_all vs))) 0 h (omega arith)
        (omega arith) refl)
