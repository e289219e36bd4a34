-- ===== src/Packet/ReadTypes.antt =====
-- Reading from any bytes keeps the types of the variables.
use sednl.Base.{
  ℕ, zero, suc, ◌<◌, ◌==◌, ==_iff, ◌≡◌, refl, ap, sym, ◌∙◌, subst, arith, inl, inr, All, ByteArray,
  IsByte, length, get_elem?, get_elem?-lt, some, Bool-cases,
}
use sednl.Exceptions.{PacketExceptionT, Result, ok, thrown, fault, pure, ◌>>=◌, ◌>>◌}
use sednl.Bytes.Host.{Host}
use sednl.Packet.Types.{type_code, Value, number, text, numbers, object_of, Values, nil, cons}
use sednl.Packet.Read.{
  PacketReader, read_string, on_copy, read_number, read_array, read, read_from_packet,
  read_object_header,
}
use sednl.Packet.Write.{number_of_args}
use sednl.Packet.Format.{Within, IsChar, IsItem, AllItems, count}
use sednl.Packet.RoundTrip.{
  SameType, SameTypes, same_number, same_text, same_numbers, same_object, same_nil, same_cons,
}
use sednl.Packet.ReadParts.{at}
use sednl.Packet.Mismatch.{type_of, read-mismatch}
use sednl.Packet.Gives.{Gives, Gives-bind, read_object_header-Gives, on_copy-Gives}
use sednl.Packet.ReadFits.{read_string-Gives, Fits, read_array-Gives, read_number-Gives}

SameTypes-count : {ds vs : Values} → SameTypes ds vs → count ds ≡ count vs
SameTypes-count same_nil = refl
SameTypes-count (same_cons t ts) = ap suc (SameTypes-count ts)

abbrev Typed : Value → Value → Type 0
Typed d v = SameType d v × IsItem v

abbrev AllTyped : Values → Values → Type 0
AllTyped ds vs = SameTypes ds vs × AllItems vs

-- The variables are read one behind the other, from the one index to the other. The byte of its type
-- stands where a variable begins, unless that is the end.
abbrev pub Stands : ⦃host : Host⦄ → ByteArray → Values → Values → ℕ → ℕ → Type 0
Stands p (cons d ds) (cons v vs) i j =
    (k : ℕ) × (read d (at p i) ≡ ok v (at p k))
    × (i < length p → get_elem? p i ≡ some (type_code (type_of d)))
    × Stands p ds vs k j
Stands p nil nil i j = i ≡ j
Stands p _ _ i j = zero ≡ suc zero

module _ (p : ByteArray) (bytes : All IsByte p) ⦃host : Host⦄ where
  abbrev Settled : Values → ℕ → Result PacketExceptionT PacketReader Values → Type 0
  Settled ds i (ok vs r) = Stands p ds vs i r.m_idx
  Settled ds i _ = Unit

  mutual
    unfolding read

    read-Gives :
        (d : Value) (r : PacketReader) → r.m_p ≡ p → IsItem d → Gives p (Typed d) (read d r)
    read-Gives (number s old) r e h =
        Gives-bind p (Within s) (Typed (number s old)) (read_number s old) _ r
          (read_number-Gives p bytes s old r e h)
          (λ x r' e' x-Within. (e', (same_number s, x-Within)))
    read-Gives (text old) r e h =
        Gives-bind p (All IsChar) (Typed (text old)) (read_string old) _ r
          (read_string-Gives p bytes old r e h) (λ x r' e' chars. (e', (same_text, chars)))
    read-Gives (numbers s old) r e h =
        Gives-bind p (Fits p bytes s) (Typed (numbers s old)) (read_array s old) _ r
          (read_array-Gives p bytes s old r e h) (λ x r' e' fits. (e', (same_numbers s, fits)))
    read-Gives (object_of olds) r e (few, h) =
        let load = read_object_header (number_of_args olds) >> read_from_packet olds in
        Gives-bind p (AllTyped olds) (Typed (object_of olds)) (on_copy load) _ r
          (on_copy-Gives p (AllTyped olds) load r e (
            Gives-bind p (λ _. Unit {0}) (AllTyped olds) (read_object_header (number_of_args olds))
              (λ _. read_from_packet olds) r (read_object_header-Gives p (number_of_args olds) r e)
              (λ _ r' e' _. read_all-Gives olds r' e' h)))
          (λ vs r' e' typed.
            (e', (same_object typed.0, (omega (arith, SameTypes-count typed.0), typed.1))))

    read_all-Gives :
        (ds : Values) (r : PacketReader)
        → r.m_p ≡ p
        → AllItems ds
        → Gives p (AllTyped ds) (read_from_packet ds r)
    read_all-Gives nil r e h = (e, (same_nil, tt))
    read_all-Gives (cons d ds) r e h =
        Gives-bind p (Typed d) (AllTyped (cons d ds)) (read d) _ r (read-Gives d r e h.0)
          (λ v r' e' typed.
            Gives-bind p (AllTyped ds) (AllTyped (cons d ds)) (read_from_packet ds) _ r'
              (read_all-Gives ds r' e' h.1)
              (λ vs r'' e'' rest. (e'', (same_cons typed.0 rest.0, (typed.1, rest.1)))))

  -- A variable that is read, at an index inside the packet, finds its own type there.
  read-type_of :
      (d : Value) (i : ℕ) {v : Value} {r : PacketReader}
      → read d (at p i) ≡ ok v r
      → i < length p
      → get_elem? p i ≡ some (type_code (type_of d))
  read-type_of d i e inside =
      let (b, here) = get_elem?-lt p i inside in
      elim (Bool-cases (b == type_code (type_of d))) [
        | inl same ↦ here ∙ ap some ((==_iff b (type_code (type_of d))).0 same)
        | inr other ↦ absurd (cc (sym (read-mismatch d p i b here other) ∙ e))
      ]

  all_stand :
      (ds vs : Values) (i : ℕ) (r : PacketReader)
      → AllItems ds
      → read_from_packet ds (at p i) ≡ ok vs r
      → Stands p ds vs i r.m_idx
  unfolding read
  all_stand nil vs i r h e = subst (Settled nil i) e refl
  all_stand (cons d ds) vs i r h e =
      by_first (λ ws k r' rest. all_stand ds ws k r' h.1 rest) (read d (at p i)) refl
        (read-Gives d (at p i) refl h.0) e
    where
      by_rest :
          ((ws : Values) (k : ℕ) (r' : PacketReader)
            → read_from_packet ds (at p k) ≡ ok ws r'
            → Stands p ds ws k r'.m_idx)
          → (v : Value) (k : ℕ) → read d (at p i) ≡ ok v (at p k)
          → (y : Result PacketExceptionT PacketReader Values) → read_from_packet ds (at p k) ≡ y
          → (elim y [
            | ok ws r' ↦ ok (cons v ws) r'
            | thrown x r' ↦ thrown x r'
            | fault x ↦ fault x
          ])
            ≡ ok vs r
          → Stands p (cons d ds) vs i r.m_idx
      by_rest later v k first (ok ws r') rest e' =
          subst (Settled (cons d ds) i) e' (k, first, read-type_of d i first, later ws k r' rest)
      by_rest later v k first (thrown x r') rest e' = absurd (cc e')
      by_rest later v k first (fault x) rest e' = absurd (cc e')

      by_first :
          ((ws : Values) (k : ℕ) (r' : PacketReader)
            → read_from_packet ds (at p k) ≡ ok ws r'
            → Stands p ds ws k r'.m_idx)
          → (x : Result PacketExceptionT PacketReader Value) → read d (at p i) ≡ x
          → Gives p (Typed d) x
          → (elim x [
            | ok v r' ↦ (read_from_packet ds >>= λ ws. pure (cons v ws)) r'
            | thrown y r' ↦ thrown y r'
            | fault y ↦ fault y
          ])
            ≡ ok vs r
          → Stands p (cons d ds) vs i r.m_idx
      by_first later (ok v r') first (same, _) e' =
          let here : r' ≡ at p r'.m_idx = ap (λ b. at b r'.m_idx) same in
          by_rest later v r'.m_idx (first ∙ ap (ok v) here) (read_from_packet ds (at p r'.m_idx))
            refl (sym (ap (read_from_packet ds >>= λ ws. pure (cons v ws)) here) ∙ e')
      by_first later (thrown y r') first g e' = absurd (cc e')
      by_first later (fault y) first g e' = absurd (cc e')

  -- Whatever bytes a packet holds, `read_from_packet` never breaks the types of its variables: if it
  -- succeeds, each variable has read from where the one before it has stopped, and unless that is the
  -- end of the packet, the byte of the variable's own type stands there. Each then has a value of its own
  -- kind, a number within the width of its type, a string without null characters, an array of fewer than
  -- 65536 numbers, and an object with as many fields as before. This takes variables with such values.
  -- The packet stays as it was.
  pub read_from_packet-typed :
      (ds vs : Values) (i : ℕ) (r : PacketReader)
      → AllItems ds
      → read_from_packet ds (record { m_p = p; m_idx = i }) ≡ ok vs r
      → Stands p ds vs i r.m_idx × SameTypes ds vs × AllItems vs × (r.m_p ≡ p)
  read_from_packet-typed ds vs i r h e =
      let all =
        subst (Gives p (AllTyped ds)) e
          (read_all-Gives ds (record { m_p = p; m_idx = i }) refl h) in
      (all_stand ds vs i r h e, all.1.0, all.1.1, all.0)
