-- ===== src/Packet/RoundTrip.antt =====
-- Reading gives back what was written.
use sednl.Base.{
  ℕ, ◌+◌, ◌^◌, ◌<◌, ◌≡◌, refl, ap, ◌∙◌, sym, List, [], ◌∷◌, ◌++◌, append_assoc, append-nil,
  ByteArray, arith, length, drop, drop-cons, drop_fits, drop-append_step, add_u32, get_elem?_at,
  length-append,
}
use sednl.Exceptions.{Scalar, ok, ◌>>◌, >>=-ok, pure}
use sednl.Bytes.Host.{Host}
use sednl.Packet.Types.{
  Value, number, text, numbers, object_of, Values, nil, cons, type_code, object, cast_type,
}
use sednl.Packet.Read.{
  PacketReader, Reader, on_copy, read, read_from_packet, read_object_header, read_number,
  read_string, read_array, next_type, check_header, reader_of,
}
use sednl.Packet.Write.{number_of_args, write_to_packet}
use sednl.Packet.Format.{encode, encode_all, count, IsItem, AllItems, HasFields, AllHaveFields}
use sednl.Packet.Encode.{number_of_args-count, write_to_packet-encode_all}
use sednl.Packet.ReadParts.{at, read_number_lem, read_string_lem, read_array_lem}

-- The variable has the type of the value, whatever it holds.
mutual
  pub data SameType : Value → Value → Type 0 where
    same_number : (s : Scalar) {x y : ℕ} → SameType (number s x) (number s y)
    same_text : {s t : ByteArray} → SameType (text s) (text t)
    same_numbers : (s : Scalar) {xs ys : List ℕ} → SameType (numbers s xs) (numbers s ys)
    same_object : {vs ws : Values} → SameTypes vs ws → SameType (object_of vs) (object_of ws)

  pub data SameTypes : Values → Values → Type 0 where
    same_nil : SameTypes nil nil
    same_cons :
        {v w : Value} {vs ws : Values}
        → SameType v w
        → SameTypes vs ws
        → SameTypes (cons v vs) (cons w ws)

SameTypes-number_of_args :
    {vs ws : Values} → SameTypes vs ws → number_of_args vs ≡ number_of_args ws
unfolding number_of_args
SameTypes-number_of_args same_nil = refl
SameTypes-number_of_args (same_cons t ts) = omega (arith, SameTypes-number_of_args ts)

pub next_type_lem :
    (p : ByteArray) (i b : ℕ) (rest : ByteArray)
    → drop i p ≡ b ∷ rest
    → next_type (at p i) ≡ ok (cast_type b) (at p i)
unfolding next_type
next_type_lem p i b rest e =
    ground (arith, drop_fits p i (b ∷ []) rest e (omega arith), drop-cons p i e)

read_object_header_lem :
    (p : ByteArray) (i n : ℕ) (rest : ByteArray)
    → length p < 2 ^ 32
    → 0 < n
    → drop i p ≡ type_code object ∷ n ∷ rest
    → read_object_header n (at p i) ≡ ok tt (at p (i + 2))
unfolding read_object_header cast_type
read_object_header_lem p i n rest small pos e =
    let fits = drop_fits p i (type_code object ∷ n ∷ []) rest e (omega arith) in
    let s₁ : add_u32 i 1 ≡ i + 1 = omega (arith, fits) in
    let s₂ : add_u32 i 2 ≡ i + 2 = omega (arith, fits) in
    >>=-ok next_type (check_header n) (at p i) (next_type_lem p i (type_code object) (n ∷ rest) e)
    ∙ rw (s₁, get_elem?_at p i 1 e refl) (ground (arith, s₂))

on_copy_lem :
    {A : Type 0} (m : Reader A) (r : PacketReader) {r' : PacketReader} {a : A}
    → m r ≡ ok a r'
    → on_copy m r ≡ ok a r'
on_copy_lem m r e = rw (e, on_copy)

module _ ⦃host : Host⦄ (p : ByteArray) (small : length p < 2 ^ 32) where
  read_object_lem :
      (olds vs : Values) (i : ℕ) (rest : ByteArray)
      → number_of_args olds ≡ number_of_args vs
      → count vs < 256
      → 0 < count vs
      → read_from_packet olds (at p (i + 2)) ≡ ok vs (at p (i + 2 + length (encode_all vs)))
      → drop i p ≡ encode (object_of vs) ++ rest
      → read (object_of olds) (at p i)
        ≡ ok (object_of vs) (at p (i + length (encode (object_of vs))))
  unfolding read encode
  read_object_lem olds vs i rest same few pos fields e =
      let n : number_of_args olds ≡ count vs = same ∙ number_of_args-count vs (omega arith) in
      let header = read_object_header_lem p i (count vs) (encode_all vs ++ rest) small pos e in
      let load : Reader Values = read_object_header (count vs) >> read_from_packet olds in
      rw n (
        >>=-ok (on_copy load) (λ ws. pure (object_of ws)) (at p i)
          (on_copy_lem load (at p i) (
            >>=-ok (read_object_header (count vs)) (λ _. read_from_packet olds) (at p i) header
            ∙ fields))
        ∙ ap (λ k. ok (object_of vs) (at p k)) (omega arith))

  mutual
    unfolding read encode

    read_lem :
        {d v : Value}
        → SameType d v
        → (i : ℕ) (rest : ByteArray) → IsItem v
        → HasFields v
        → drop i p ≡ encode v ++ rest
        → read d (at p i) ≡ ok v (at p (i + length (encode v)))
    read_lem (same_number s {x = old} {y = x}) i rest h f e =
        >>=-ok (read_number s old) (λ y. pure (number s y)) (at p i)
          (read_number_lem p small s old i x rest h e)
    read_lem (same_text {s = old} {t = s}) i rest h f e =
        >>=-ok (read_string old) (λ y. pure (text y)) (at p i)
          (read_string_lem p small s old i rest h e)
    read_lem (same_numbers s {xs = old} {ys = xs}) i rest h f e =
        >>=-ok (read_array s old) (λ y. pure (numbers s y)) (at p i)
          (read_array_lem p small s xs old i rest h.0 h.1 e)
    read_lem (same_object {vs = olds} {ws = vs} ts) i rest h f e =
        read_object_lem olds vs i rest (SameTypes-number_of_args ts) h.0 f.0
          (read_all_lem ts (i + 2) rest h.1 f.1
            (drop-append_step p i (type_code object ∷ count vs ∷ []) (encode_all vs ++ rest) e))
          e

    read_all_lem :
        {ds vs : Values}
        → SameTypes ds vs
        → (i : ℕ) (rest : ByteArray) → AllItems vs
        → AllHaveFields vs
        → drop i p ≡ encode_all vs ++ rest
        → read_from_packet ds (at p i) ≡ ok vs (at p (i + length (encode_all vs)))
    read_all_lem same_nil i rest h f e = ap (λ k. ok nil (at p k)) (omega arith)
    read_all_lem (same_cons {v = d} {w = v} {vs = ds} {ws = vs} t ts) i rest h f e =
        let here : drop i p ≡ encode v ++ (encode_all vs ++ rest) =
          e ∙ append_assoc (encode v) (encode_all vs) rest in
        let next = drop-append_step p i (encode v) (encode_all vs ++ rest) here in
        >>=-ok (read d) _ (at p i) (read_lem t i (encode_all vs ++ rest) h.0 f.0 here)
        ∙ >>=-ok (read_from_packet ds) _ (at p (i + length (encode v)))
            (read_all_lem ts (i + length (encode v)) rest h.1 f.1 next)
        ∙ ap (λ k. ok (cons v vs) (at p k))
            (omega (arith, length-append (encode v) (encode_all vs)))

  -- Reading where a value stands in a packet gives that value back, whatever the variable held
  -- before, and moves just behind its bytes. The host need not be the one that wrote the packet.
  read-encode :
      {d v : Value}
      → SameType d v
      → (i : ℕ) (rest : ByteArray) → IsItem v
      → HasFields v
      → drop i p ≡ encode v ++ rest
      → read d (at p i) ≡ ok v (at p (i + length (encode v)))
  read-encode t i rest h f e = read_lem t i rest h f e

-- `read_from_packet` after `make_packet`, on any two hosts: every argument comes back, in order, and
-- the reader stands at the end.
pub read_from_packet-write_to_packet :
    (sender receiver : Host) {ds vs : Values} (p : ByteArray)
    → SameTypes ds vs
    → AllItems vs
    → AllHaveFields vs
    → write_to_packet ⦃host = sender⦄ vs [] ≡ ok tt p
    → length p < 2 ^ 32
    → read_from_packet ⦃host = receiver⦄ ds (reader_of p) ≡ ok vs (at p (length p))
read_from_packet-write_to_packet sender receiver {ds} {vs} p t h f written small =
    let bytes : p ≡ encode_all vs =
      cc (written, write_to_packet-encode_all ⦃host = sender⦄ vs [] h f) in
    read_all_lem ⦃host = receiver⦄ p small t 0 [] h f (bytes ∙ sym (append-nil (encode_all vs)))
    ∙ ap (λ k. ok vs (at p k)) (omega (arith, ap length bytes))
