-- ===== src/Packet/Printed.antt =====
-- What a valid packet prints.
use sednl.Base.{
  codes, ℕ, zero, suc, ◌+◌, ◌-◌, ◌^◌, ◌≤◌, ◌<◌, ◌≡◌, refl, ap, ◌∙◌, sym, [], ◌∷◌, ◌++◌,
  append_assoc, append-nil, Bool, true, ByteArray, arith, length, drop, drop_fits, drop-append_step,
  add_u32, get_elem?_at, length-append,
}
use sednl.Exceptions.{Result, ok, ◌>>=◌, ◌>>◌, >>=-ok, pure, PacketExceptionT}
use sednl.Bytes.Host.{Host}
use sednl.Bytes.Wire.{be_16}
use sednl.Packet.Types.{
  PacketType, scalar, string, object, array, Value, number, text, numbers, object_of, Values, nil,
  cons, type_code, cast_type-type_code,
}
use sednl.Packet.Read.{Reader, next_type, read_number, read_string, read_array}
use sednl.Packet.Format.{encode, encode_all, encode_scalar, encode_scalars, count, IsItem, AllItems}
use sednl.Packet.ReadParts.{at, read_number_lem, read_string_lem, read_array_lem}
use sednl.Packet.RoundTrip.{next_type_lem}
use sednl.Packet.Print.{
  Ostream, Printer, Printing, label, show_array, output_fields, output_object, output_typed,
  announce, output_one, reading, print,
}
use sednl.Packet.Listing.{items, all_items, text_of, texts_of}

abbrev pub printer : ByteArray → ℕ → ℕ → ByteArray → Printer
printer p idx i os = record { reader = at p idx; i = i; os = os }

printer_eq {κ} :
    {A : Type κ} {a : A} (p : ByteArray) {idx idx' i i' : ℕ} {os os' : ByteArray}
    → idx ≡ idx'
    → i ≡ i'
    → os ≡ os'
    → ◌≡◌ {A = Result PacketExceptionT Printer A}
        (ok a (printer p idx i os))
        (ok a (printer p idx' i' os'))
printer_eq {a = a} p at_idx at_i same = λ k. ok a (printer p (at_idx k) (at_i k) (same k))

regroup_3 : (a b c d : ByteArray) → ((a ++ b) ++ c) ++ d ≡ a ++ (b ++ (c ++ d))
regroup_3 a b c d = simp append_assoc

regroup_4 : (a b c d e : ByteArray) → (((a ++ b) ++ c) ++ d) ++ e ≡ a ++ (b ++ (c ++ (d ++ e)))
regroup_4 a b c d e = simp append_assoc

reading-ok {κ} :
    {A : Type κ} (m : Reader A) (p : ByteArray) (idx j i : ℕ) (os : ByteArray) {a : A}
    → m (at p idx) ≡ ok a (at p j)
    → reading m (printer p idx i os) ≡ ok a (printer p j i os)
reading-ok m p idx j i os e = rw (e, reading)

module _ (stream : Ostream) ⦃host : Host⦄ (p : ByteArray) (small : length p < 2 ^ 32) where
  open stream use {show_scalar}

  -- The head of `output_one`.
  output_one_head :
      (fuel idx i : ℕ) (os rest : ByteArray) (t : PacketType)
      → 0 < fuel
      → drop idx p ≡ type_code t ∷ rest
      → output_one stream fuel (printer p idx i os)
        ≡ output_typed stream
            (output_one stream (fuel - 1))
            t
            (printer p idx (i + 1) (os ++ label stream t (i + 1)))
  unfolding output_one announce
  output_one_head zero idx i os rest t h e = absurd (omega arith)
  output_one_head (suc fuel) idx i os rest t h e =
      let type : next_type (at p idx) ≡ ok t (at p idx) =
        next_type_lem p idx (type_code t) rest e
        ∙ ap (λ (u : PacketType). ok u (at p idx)) (cast_type-type_code t) in
      let one : suc fuel - 1 ≡ fuel = omega arith in
      rw one (
        >>=-ok (reading next_type) _ (printer p idx i os)
          (reading-ok next_type p idx idx i os type))

  -- A case of `output_one` that reads one variable and prints it.
  shows {κ} :
      {A : Type κ} (m : Reader A) (f : A → ByteArray) (idx j i : ℕ) (os : ByteArray) {a : A}
      → m (at p idx) ≡ ok a (at p j)
      → (reading m >>= λ v. print (f v) >> pure true) (printer p idx i os)
        ≡ ok true (printer p j i (os ++ f a))
  shows m f idx j i os e = >>=-ok (reading m) _ (printer p idx i os) (reading-ok m p idx j i os e)

  output_object_lem :
      (field : Printing Bool) (idx n i j i' : ℕ) (os os' rest : ByteArray)
      → drop idx p ≡ type_code object ∷ n ∷ rest
      → output_fields field n (printer p (idx + 2) i (os ++ codes "{ "))
        ≡ ok true (printer p j i' os')
      → output_object field (printer p idx i os) ≡ ok true (printer p j i' (os' ++ codes " }"))
  unfolding output_object
  output_object_lem field idx n i j i' os os' rest e fields =
      let fits = drop_fits p idx (type_code object ∷ n ∷ []) rest e in
      let s₁ : add_u32 idx 1 ≡ idx + 1 = omega (arith, fits) in
      let s₂ : add_u32 idx 2 ≡ idx + 2 = omega (arith, fits) in
      rw (s₁, get_elem?_at p idx 1 e refl, s₂)
        (>>=-ok (output_fields field n) _ (printer p (idx + 2) i (os ++ codes "{ ")) fields)

  mutual
    unfolding encode output_typed

    output_one_lem :
        (v : Value) (fuel idx i : ℕ) (os rest : ByteArray)
        → IsItem v
        → length (encode v) ≤ fuel
        → drop idx p ≡ encode v ++ rest
        → output_one stream fuel (printer p idx i os)
          ≡ ok true (printer p (idx + length (encode v)) (i + items v) (os ++ text_of stream i v))
    output_one_lem (number s x) fuel idx i os rest h f e =
        output_one_head fuel idx i os (encode_scalar s x ++ rest) (scalar s) (omega arith) e
        ∙ shows (read_number s 0) (show_scalar s) idx (idx + length (encode (number s x))) (i + 1)
            (os ++ label stream (scalar s) (i + 1)) (read_number_lem p small s 0 idx x rest h e)
        ∙ printer_eq p refl refl
            (append_assoc os (label stream (scalar s) (i + 1)) (show_scalar s x))
    output_one_lem (text s) fuel idx i os rest h f e =
        output_one_head fuel idx i os ((s ++ (0 ∷ [])) ++ rest) string (omega arith) e
        ∙ shows (read_string []) (λ v. v) idx (idx + length (encode (text s))) (i + 1)
            (os ++ label stream string (i + 1)) (read_string_lem p small s [] idx rest h e)
        ∙ printer_eq p refl refl (append_assoc os (label stream string (i + 1)) s)
    output_one_lem (numbers s xs) fuel idx i os rest h f e =
        output_one_head fuel idx i os ((be_16 (length xs) ++ encode_scalars s xs) ++ rest) (array s)
          (omega arith) e
        ∙ shows (read_array s []) (show_array stream s) idx (idx + length (encode (numbers s xs)))
            (i + 1) (os ++ label stream (array s) (i + 1))
            (read_array_lem p small s xs [] idx rest h.0 h.1 e)
        ∙ printer_eq p refl refl
            (append_assoc os (label stream (array s) (i + 1)) (show_array stream s xs))
    output_one_lem (object_of vs) fuel idx i os rest h f e =
        let inside = label stream object (i + 1) in
        let fields = texts_of stream (i + 1) vs in
        output_one_head fuel idx i os (count vs ∷ (encode_all vs ++ rest)) object (omega arith) e
        ∙ output_object_lem (output_one stream (fuel - 1)) idx (count vs) (i + 1)
            (idx + 2 + length (encode_all vs)) (i + 1 + all_items vs) (os ++ inside)
            (((os ++ inside) ++ codes "{ ") ++ fields) (encode_all vs ++ rest) e
            (output_fields_lem vs (fuel - 1) (idx + 2) (i + 1) ((os ++ inside) ++ codes "{ ") rest
              h.1 (omega arith)
              (drop-append_step p idx (type_code object ∷ count vs ∷ []) (encode_all vs ++ rest) e))
        ∙ printer_eq p (omega arith) (omega arith)
            (regroup_4 os inside (codes "{ ") fields (codes " }"))

    output_fields_lem :
        (vs : Values) (fuel idx i : ℕ) (os rest : ByteArray)
        → AllItems vs
        → length (encode_all vs) ≤ fuel
        → drop idx p ≡ encode_all vs ++ rest
        → output_fields (output_one stream fuel) (count vs) (printer p idx i os)
          ≡ ok true (
              printer p
                (idx + length (encode_all vs))
                (i + all_items vs)
                (os ++ texts_of stream i vs))
    output_fields_lem nil fuel idx i os rest h f e =
        printer_eq p (omega arith) (omega arith) (sym (append-nil os))
    output_fields_lem (cons v vs) fuel idx i os rest h f e =
        let here : drop idx p ≡ encode v ++ (encode_all vs ++ rest) =
          e ∙ append_assoc (encode v) (encode_all vs) rest in
        let next = drop-append_step p idx (encode v) (encode_all vs ++ rest) here in
        let size = length-append (encode v) (encode_all vs) in
        let os' = (os ++ text_of stream i v) ++ codes ", " in
        >>=-ok (output_one stream fuel) _ (printer p idx i os)
          (output_one_lem v fuel idx i os (encode_all vs ++ rest) h.0 (omega (arith, size)) here)
        ∙ output_fields_lem vs fuel (idx + length (encode v)) (i + items v) os' rest h.1
            (omega (arith, size)) next
        ∙ printer_eq p (omega (arith, size)) (omega arith)
            (regroup_3 os (text_of stream i v) (codes ", ") (texts_of stream (i + items v) vs))
