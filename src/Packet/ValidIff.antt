-- ===== src/Packet/ValidIff.antt =====
-- The check accepts exactly the packets of the format.
use sednl.Base.{
  ℕ, zero, suc, ◌+◌, ◌%◌, ◌^◌, ◌≤◌, ◌<◌, ◌≡◌, ◌≢◌, ◌↔◌, refl, ap, ◌∙◌, sym, ◌∷◌, ◌++◌, append_assoc,
  ByteArray, IsByte, arith, length, All, drop, add_u32, dec_u32, some, get_elem?, get_elem?-some,
  ltb, Bool-cases, inl, inr, drop-eq_nil,
}
use sednl.Bytes.Host.{Host}
use sednl.Packet.Types.{
  PacketType, unknown, object_of, Values, nil, cons, type_code, object, string, array, scalar,
  cast_type, type_code-cast_type,
}
use sednl.Packet.Valid.{
  Verdict, accept, valid_items, valid_typed, valid_next_item, valid_loop, is_valid, fetch,
}
use sednl.Packet.Format.{encode, encode_all, AllItems}
use sednl.Packet.ValidComplete.{is_valid-encode_all}
use sednl.Packet.ValidSound.{
  Span, Spans, >>=-accept, unless-accept, fetch-accept, accept-injective, byte_at, headed,
  scalar_sound, string_sound, array_sound,
}

valid_items-accept :
    (step : ℕ → Verdict ℕ) (n i : ℕ) {m : ℕ}
    → valid_items step (suc n) i ≡ accept m
    → (j : ℕ) × (step i ≡ accept j) × (valid_items step n (add_u32 j 1) ≡ accept m)
unfolding valid_items
valid_items-accept step n i e = ground arith

module _ ⦃host : Host⦄ where
  valid_next_item-accept :
      (fuel : ℕ) (d : ByteArray) (i : ℕ) {j : ℕ}
      → valid_next_item (suc fuel) d (length d) i ≡ accept j
      → (b : ℕ) × (get_elem? d i ≡ some b)
        × (valid_typed (valid_next_item fuel d (length d)) d (length d) (cast_type b) i ≡ accept j)
  unfolding valid_next_item
  valid_next_item-accept fuel d i e = ground arith

  valid_loop-accept :
      (fuel : ℕ) (d : ByteArray) (i : ℕ)
      → valid_loop (suc fuel) d (length d) i ≡ accept tt
      → i < length d
      → (j : ℕ) × (valid_next_item (suc (length d)) d (length d) i ≡ accept j)
        × (valid_loop fuel d (length d) (add_u32 j 1) ≡ accept tt)
  unfolding valid_loop
  valid_loop-accept fuel d i e lt = ground arith

module _ ⦃host : Host⦄ (d : ByteArray) (small : length d < 2 ^ 31) (bytes : All IsByte d) where
  items_sound :
      (step : ℕ → Verdict ℕ)
      → ((i j : ℕ) → step i ≡ accept j → Span d i j)
      → (n i : ℕ) {m : ℕ} → i ≤ length d + 2 ^ 20
      → valid_items step n i ≡ accept m
      → Spans d n i m
  unfolding encode
  items_sound step sound zero i {m} near e =
      let stop : i ≡ m = unfold valid_items in accept-injective e in
      record {
        forward = omega arith;
        near = omega arith;
        items = λ _. (nil, refl, tt, ap (λ k. drop k d) stop);
      }
  items_sound step sound (suc n) i {m} near e =
      let (j, first, rest) = valid_items-accept step n i e in
      let span = sound i j first in
      let one : add_u32 j 1 ≡ suc j = omega (arith, span.near) in
      let spans = items_sound step sound n (suc j) (omega (arith, span.near)) (rw one at rest) in
      record {
        forward = omega (arith, span.forward, spans.forward);
        near = spans.near;
        items = λ le.
            let (v, item, ev) = span.item (omega (arith, spans.forward)) in
            let (vs, len, all, evs) = spans.items le in
            (
              cons v vs,
              ap suc len,
              (item, all),
              ev
                  ∙ ap (λ l. encode v ++ l) evs
                  ∙ sym (append_assoc (encode v) (encode_all vs) (drop m d)),
            );
      }

  object_parts :
      (step : ℕ → Verdict ℕ) (i : ℕ) {j : ℕ}
      → i < length d
      → valid_typed step d (length d) object i ≡ accept j
      → (n m : ℕ) × (get_elem? d (suc i) ≡ some n)
        × (valid_items step n (suc (suc i)) ≡ accept m)
        × (dec_u32 m ≡ j)
  unfolding valid_typed
  object_parts step i {j} inside e =
      let one : add_u32 i 1 ≡ suc i = omega arith in
      let two : add_u32 (add_u32 i 1) 1 ≡ suc (suc i) = omega arith in
      let (room, rest) = unless-accept (ltb (length d) (add_u32 i 1 + 1)) _ e in
      let (n, got, loop) = >>=-accept (fetch (get_elem? d (add_u32 i 1))) _ rest in
      let (m, fields, last) = >>=-accept (valid_items step n (add_u32 (add_u32 i 1) 1)) _ loop in
      (n, m, rw (← one) (fetch-accept _ got), rw (← two) fields, accept-injective last)

  object_sound :
      (i n m j : ℕ)
      → i < length d
      → drop i d ≡ type_code object ∷ drop (suc i) d
      → get_elem? d (suc i) ≡ some n
      → Spans d n (suc (suc i)) m
      → dec_u32 m ≡ j
      → Span d i j
  unfolding encode
  object_sound i n m j inside from here spans last =
      let stop : m ≡ suc j = omega (arith, spans.forward, spans.near) in
      record {
        forward = omega (arith, spans.forward);
        near = omega (arith, spans.near);
        item = λ lt.
            let (vs, len, all, evs) = spans.items (omega arith) in
            (
              object_of vs,
              (omega (arith, byte_at d small bytes (suc i) here), all),
              headed d small bytes i from refl (
                  headed d small bytes (suc i) ((get_elem?-some d (suc i) here).0) (sym len)
                    (evs ∙ ap (λ k. encode_all vs ++ drop k d) stop)),
            );
      }

  code_of : (b : ℕ) {t : PacketType} → cast_type b ≡ t → t ≢ unknown → b ≡ type_code t
  code_of b e known = sym (type_code-cast_type b (λ u. known (sym e ∙ u))) ∙ ap type_code e

  typed_sound :
      (step : ℕ → Verdict ℕ)
      → ((i j : ℕ) → step i ≡ accept j → Span d i j)
      → (t : PacketType) (i b j : ℕ) → cast_type b ≡ t
      → i < length d
      → drop i d ≡ b ∷ drop (suc i) d
      → valid_typed step d (length d) t i ≡ accept j
      → Span d i j
  typed_sound step sound unknown i b j t lt from e = absurd (unfold valid_typed in cc e)
  typed_sound step sound (scalar s) i b j t lt from e =
      scalar_sound d small bytes step s i b lt from (code_of b t (λ u. cc u)) e
  typed_sound step sound string i b j t lt from e =
      string_sound d small bytes step i b lt from (code_of b t (λ u. cc u)) e
  typed_sound step sound (array s) i b j t lt from e =
      array_sound d small bytes step s i b lt from (code_of b t (λ u. cc u)) e
  typed_sound step sound object i b j t lt from e =
      let (n, m, here, fields, last) = object_parts step i lt e in
      object_sound i n m j lt (from ∙ ap (λ c. c ∷ drop (suc i) d) (code_of b t (λ u. cc u))) here
        (items_sound step sound n (suc (suc i)) (omega arith) fields) last

  pub item_sound : (fuel i j : ℕ) → valid_next_item fuel d (length d) i ≡ accept j → Span d i j
  item_sound zero i j e = absurd (unfold valid_next_item in cc e)
  item_sound (suc fuel) i j e =
      let (b, here, typed) = valid_next_item-accept fuel d i e in
      let (from, lt) = get_elem?-some d i here in
      typed_sound (valid_next_item fuel d (length d)) (item_sound fuel) (cast_type b) i b j refl lt
        from typed

  loop_sound :
      (fuel i : ℕ)
      → valid_loop fuel d (length d) i ≡ accept tt
      → (i ≤ length d) × (vs : Values) × AllItems vs × (drop i d ≡ encode_all vs)
  unfolding encode
  loop_sound zero i e = absurd (unfold valid_loop in cc e)
  loop_sound (suc fuel) i e = elim (Bool-cases (ltb i (length d))) [
    | inl more ↦
        let lt : i < length d = ground arith in
        let (j, first, rest) = valid_loop-accept fuel d i e lt in
        let span = item_sound (suc (length d)) i j first in
        let one : add_u32 j 1 ≡ suc j = omega (arith, span.near) in
        let (le, vs, all, evs) = loop_sound fuel (suc j) (rw one at rest) in
        let (v, item, ev) = span.item (omega arith) in
        (omega arith, cons v vs, (item, all), ev ∙ ap (λ l. encode v ++ l) evs)
    | inr end ↦
        let stop : i ≡ length d = unfold valid_loop in ground arith in
        (omega arith, nil, tt, drop-eq_nil d i (omega arith))
  ]

-- A packet of bytes, shorter than 2 ^ 31, is accepted exactly if it is in the format: the encodings of
-- some values, one behind the other. An object without fields counts, although it cannot be written.
pub is_valid_iff :
    ⦃host : Host⦄ (d : ByteArray)
    → length d < 2 ^ 31
    → All IsByte d
    → (is_valid d ≡ accept tt) ↔ ((vs : Values) × AllItems vs × (d ≡ encode_all vs))
is_valid_iff d small bytes = (sound, complete)
  where
    sound : is_valid d ≡ accept tt → (vs : Values) × AllItems vs × (d ≡ encode_all vs)
    sound e =
        let size : length d % 2 ^ 32 ≡ length d = omega arith in
        let loop : valid_loop (suc (length d)) d (length d) 0 ≡ accept tt =
          rw (← ap (λ n. valid_loop (suc (length d)) d n 0) size) (unfold is_valid in e) in
        let (le, vs, all, spelled) = loop_sound d small bytes (suc (length d)) 0 loop in
        (vs, all, spelled)

    complete : (vs : Values) × AllItems vs × (d ≡ encode_all vs) → is_valid d ≡ accept tt
    complete (vs, all, e) = rw e (is_valid-encode_all vs all (rw (← e) small))
