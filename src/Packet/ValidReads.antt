-- ===== src/Packet/ValidReads.antt =====
-- The check ends, and where it reads outside the packet.
use sednl.Base.{
  ℕ, zero, suc, ◌+◌, ◌%◌, ◌^◌, ◌≤◌, ◌<◌, ◌≡◌, ◌≢◌, refl, ap, ◌∙◌, sym, [], ◌∷◌, ByteArray, IsByte,
  arith, length, All, drop, add_u32, some, none, get_elem?, get_elem?-some, get_elem?-ge, drop-cons,
  Bool, false, true, ltb, ◌==◌, not, ◌&&◌, Bool-cases, Option-cases, inl, inr, if◌then◌else◌, ◌⊎◌,
  Option, ne→==_false,
}
use sednl.Bytes.Host.{Host}
use sednl.Bytes.Order.{front_16}
use sednl.Packet.Types.{PacketType, unknown, string, object, array, scalar, cast_type, type_code}
use sednl.Packet.Valid.{
  Verdict, accept, reject, outside, exhausted, skip_string, valid_items, valid_typed,
  valid_next_item, valid_loop, is_valid, ◌>>=◌, fetch,
}
use sednl.Packet.Format.{IsChar}
use sednl.Packet.ValidIff.{item_sound}

>>=-exhausted :
    {A B : Type 0} (m : Verdict A) (f : A → Verdict B)
    → m ≢ exhausted
    → ((a : A) → m ≡ accept a → f a ≢ exhausted)
    → (m >>= f) ≢ exhausted
>>=-exhausted (accept a) f h k = k a refl
>>=-exhausted reject f h k = λ e. cc e
>>=-exhausted outside f h k = λ e. cc e
>>=-exhausted exhausted f h k = λ e. h refl

Verdict-cases :
    {A : Type 0} (v : Verdict A)
    → ((a : A) × (v ≡ accept a)) ⊎ ((v ≡ reject) ⊎ ((v ≡ outside) ⊎ (v ≡ exhausted)))
Verdict-cases (accept a) = inl (a, refl)
Verdict-cases reject = inr (inl refl)
Verdict-cases outside = inr (inr (inl refl))
Verdict-cases exhausted = inr (inr (inr refl))

unless_ends :
    {A : Type 0} (c : Bool) (m : Verdict A) → m ≢ exhausted → (if c then reject else m) ≢ exhausted
unless_ends true m h e = cc e
unless_ends false m h e = h e

fetch_ends : (o : Option ℕ) → fetch o ≢ exhausted
fetch_ends none e = cc e
fetch_ends (some a) e = cc e

skip_string_ends :
    (fuel : ℕ) (d : ByteArray) (size i : ℕ)
    → length d < 2 ^ 31
    → 0 < fuel
    → length d < fuel + i
    → skip_string fuel d size i ≢ exhausted
unfolding skip_string
skip_string_ends zero d size i small positive enough e = omega (arith, positive)
skip_string_ends (suc fuel) d size i small positive enough e = elim (Option-cases (get_elem? d i)) [
  | inl gone ↦ cc (rw (gone, skip_string) at e)
  | inr (b, here) ↦
      let inside = (get_elem?-some d i here).1 in
      let step : add_u32 i 1 ≡ i + 1 = omega arith in
      elim (Bool-cases (not (b == 0) && ltb i size)) [
        | inr stop ↦ cc (rw (here, skip_string, stop) at e)
        | inl go ↦
            skip_string_ends fuel d size (add_u32 i 1) small (omega arith) (omega arith)
              (rw (here, skip_string, go) at e)
      ]
]

valid_items_ends :
    (step : ℕ → Verdict ℕ) (n i lo hi : ℕ)
    → ((k : ℕ) → lo ≤ k → step k ≢ exhausted)
    → ((k j : ℕ) → step k ≡ accept j → (k ≤ j) × (j < hi))
    → hi < 2 ^ 32
    → lo ≤ i
    → valid_items step n i ≢ exhausted
unfolding valid_items
valid_items_ends step zero i lo hi ends moves small le e = cc e
valid_items_ends step (suc n) i lo hi ends moves small le e = elim (Verdict-cases (step i)) [
  | inl (j, first) ↦
      let bounds = moves i j first in
      let one : add_u32 j 1 ≡ suc j = omega (arith, bounds) in
      valid_items_ends step n (suc j) lo hi ends moves small (omega (arith, bounds))
        (rw (first, valid_items, one) at e)
  | inr (inl bad) ↦ cc (rw (bad, valid_items) at e)
  | inr (inr (inl gone)) ↦ cc (rw (gone, valid_items) at e)
  | inr (inr (inr never)) ↦ ends i le never
]

module _ ⦃host : Host⦄ (d : ByteArray) (small : length d < 2 ^ 31) (bytes : All IsByte d) where
  typed_ends :
      (step : ℕ → Verdict ℕ) (t : PacketType) (i : ℕ)
      → ((k : ℕ) → i + 2 ≤ k → step k ≢ exhausted)
      → ((k j : ℕ) → step k ≡ accept j → (k ≤ j) × (j < length d + 2 ^ 20))
      → i < length d
      → valid_typed step d (length d) t i ≢ exhausted
  unfolding valid_typed
  typed_ends step unknown i ends moves lt e = cc e
  typed_ends step (scalar s) i ends moves lt e = cc e
  typed_ends step string i ends moves lt e =
      let one : add_u32 i 1 ≡ i + 1 = omega arith in
      >>=-exhausted (skip_string (suc (length d)) d (length d) (add_u32 i 1)) _
        (skip_string_ends (suc (length d)) d (length d) (add_u32 i 1) small (omega arith)
          (omega arith))
        (λ j _. unless_ends (j == length d) (accept j) (λ f. cc f)) e
  typed_ends step object i ends moves lt e =
      let two : i + 2 ≤ add_u32 (add_u32 i 1) 1 = omega arith in
      unless_ends (ltb (length d) (add_u32 i 1 + 1)) _
        (>>=-exhausted (fetch (get_elem? d (add_u32 i 1))) _ (fetch_ends _) (λ n _.
          >>=-exhausted (valid_items step n (add_u32 (add_u32 i 1) 1)) _
            (valid_items_ends step n (add_u32 (add_u32 i 1) 1) (i + 2) (length d + 2 ^ 20) ends
              moves (omega arith) two)
            (λ j _ f. cc f)))
        e
  typed_ends step (array s) i ends moves lt e =
      unless_ends (ltb (length d) (add_u32 i 1 + 2)) _
        (>>=-exhausted (fetch (front_16 (add_u32 i 1) d)) _ (fetch_ends _) (λ n _ f. cc f)) e

  valid_next_item_ends :
      (fuel i : ℕ)
      → 0 < fuel
      → length d < fuel + i
      → valid_next_item fuel d (length d) i ≢ exhausted
  unfolding valid_next_item
  valid_next_item_ends zero i positive enough e = omega (arith, positive)
  valid_next_item_ends (suc fuel) i positive enough e = elim (Option-cases (get_elem? d i)) [
    | inl gone ↦ cc (rw (gone, valid_next_item) at e)
    | inr (b, here) ↦
        let inside = (get_elem?-some d i here).1 in
        typed_ends (valid_next_item fuel d (length d)) (cast_type b) i
          (λ k le. valid_next_item_ends fuel k (omega arith) (omega arith))
          (λ k j f. let span = item_sound d small bytes fuel k j f in (span.forward, span.near))
          inside (rw (here, valid_next_item) at e)
  ]

  valid_loop_ends :
      (fuel i : ℕ) → 0 < fuel → length d < fuel + i → valid_loop fuel d (length d) i ≢ exhausted
  unfolding valid_loop
  valid_loop_ends zero i positive enough e = omega (arith, positive)
  valid_loop_ends (suc fuel) i positive enough e = elim (Bool-cases (ltb i (length d))) [
    | inr end ↦ elim (Bool-cases (i == length d)) [
      | inl all ↦ cc (rw (end, valid_loop, all) at e)
      | inr over ↦ cc (rw (end, valid_loop, over) at e)
    ]
    | inl more ↦ elim (Verdict-cases (valid_next_item (suc (length d)) d (length d) i)) [
      | inl (j, first) ↦
          let span = item_sound d small bytes (suc (length d)) i j first in
          let one : add_u32 j 1 ≡ suc j = omega (arith, span.near) in
          let lt : i < length d = ground arith in
          valid_loop_ends fuel (suc j) (omega arith) (omega (arith, span.forward))
            (rw (more, valid_loop, first, one) at e)
      | inr (inl bad) ↦ cc (rw (more, valid_loop, bad) at e)
      | inr (inr (inl gone)) ↦ cc (rw (more, valid_loop, gone) at e)
      | inr (inr (inr never)) ↦
          valid_next_item_ends (suc (length d)) i (omega arith) (omega arith) never
    ]
  ]

-- The check of a packet from the network ends: the model's bounds on its loops, and on the depth of
-- objects within objects, are not reached.
pub is_valid_ends :
    ⦃host : Host⦄ (d : ByteArray) → length d < 2 ^ 31 → All IsByte d → is_valid d ≢ exhausted
unfolding is_valid
is_valid_ends d small bytes e =
    let size : length d % 2 ^ 32 ≡ length d = omega arith in
    valid_loop_ends d small bytes (suc (length d)) 0 (omega arith) (omega arith)
      (sym (ap (λ n. valid_loop (suc (length d)) d n 0) size) ∙ e)

skip_string_outside :
    (fuel : ℕ) (s d : ByteArray) (i : ℕ)
    → length d < 2 ^ 31
    → All IsChar s
    → drop i d ≡ s
    → i + length s ≡ length d
    → length s < fuel
    → skip_string fuel d (length d) i ≡ outside
unfolding skip_string
skip_string_outside zero s d i small chars from at_end enough = absurd (omega (arith, enough))
skip_string_outside (suc fuel) [] d i small chars from at_end enough =
    rw (get_elem?-ge d i (omega arith), skip_string) refl
skip_string_outside (suc fuel) (c ∷ s) d i small chars from at_end enough =
    let (here, next) = drop-cons d i from in
    let step : add_u32 i 1 ≡ i + 1 = omega arith in
    let more : (not (c == 0) && ltb i (length d)) ≡ true =
      ground (arith, ne→==_false c 0 chars.0.0) in
    rw (here, skip_string, more, step)
      (skip_string_outside fuel s d (i + 1) small chars.1 next (omega arith) (omega arith))

-- A string without its terminator at the end of a packet makes the check read behind the packet.
pub is_valid-unterminated :
    ⦃host : Host⦄ (s : ByteArray)
    → length s < 2 ^ 30
    → All IsChar s
    → is_valid (type_code string ∷ s) ≡ outside
unfolding is_valid valid_loop valid_next_item valid_typed cast_type
is_valid-unterminated s small chars =
    let d : ByteArray = type_code string ∷ s in
    let size : length d % 2 ^ 32 ≡ length d = omega arith in
    let read =
      skip_string_outside (suc (length d)) s d 1 (omega arith) chars refl (omega arith)
        (omega arith) in
    let item : valid_next_item (suc (length d)) d (length d) 0 ≡ outside =
      ap (λ v. v >>= λ j. if j == length d then reject else accept j) read in
    let more : ltb 0 (length d) ≡ true = ground arith in
    ap (λ n. valid_loop (suc (length d)) d n 0) size ∙ rw (valid_loop, more, item) refl
