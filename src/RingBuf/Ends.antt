-- ===== src/RingBuf/Ends.antt =====
-- `pick_event` on a buffer of bytes: its check of the packet ends.
use sednl.Base.{
  ℕ, zero, suc, ◌^◌, ◌≤◌, ◌<◌, ◌≡◌, refl, ap, subst, arith, true, false, ltb, none, some, [], ◌∷◌,
  List, length, All, ByteArray, IsByte, get_elem?, add_u32, sub_u32, Option, Bool, if◌then◌else◌,
  ◌==◌, ◌≢◌, ◌+◌, set,
}
use sednl.Bytes.Host.{Host, load_16}
use sednl.Bytes.Range.{get_elem?-IsByte}
use sednl.Packet.Valid.{is_valid, Verdict, accept}
use sednl.Packet.ValidReads.{is_valid_ends}
use sednl.RingBuf.Buffer.{
  RingBuf, used, put_byte, put_loop, put, name_loop, content_loop, finish, pick_content, pick_sized,
  pick_event, picked, nothing, outside, exhausted, Pick, round, ◌>>=◌,
}
use sednl.RingBuf.Put.{IsValid, used_lem}

-- What holds of a pick that each part of `pick_event` gives, however it branches.
pub bind-Holds :
    (P : Pick → Type 0) {A : Type 0} (o : Option A) (f : A → Pick)
    → P outside
    → ((a : A) → o ≡ some a → P (f a))
    → P (o >>= f)
bind-Holds P none f out h = out
bind-Holds P (some a) f out h = h a refl

pub if-Holds :
    (P : Pick → Type 0) (x y : Pick) (b : Bool)
    → (b ≡ true → P x)
    → (b ≡ false → P y)
    → P (if b then x else y)
if-Holds P x y true h k = h refl
if-Holds P x y false h k = k refl

-- At most so much of the event remains behind its name.
abbrev AtMost : ℕ → Option (ByteArray × ℕ × ℕ) → Type 0
AtMost n none = Unit
AtMost n (some (name, j, m)) = m ≤ n

name_loop-AtMost : (dt : ByteArray) (n i : ℕ) → AtMost n (name_loop dt n i)
unfolding name_loop
name_loop-AtMost dt zero i = omega arith
name_loop-AtMost dt (suc n) i =
    by_byte (get_elem? dt i) (name_loop dt n (add_u32 i 1)) (name_loop-AtMost dt n (add_u32 i 1))
  where
    by_zero :
        (b : ℕ) (z : Bool) (rest : Option (ByteArray × ℕ × ℕ))
        → AtMost n rest
        → AtMost (suc n) (elim z [
          | true ↦ some ([], i, suc n)
          | false ↦ elim rest [ none ↦ none | some (name, j, m) ↦ some (b ∷ name, j, m) ]
        ])
    by_zero b true rest h = omega arith
    by_zero b false none h = tt
    by_zero b false (some (name, j, m)) h = omega arith

    by_byte :
        (o : Option ℕ) (rest : Option (ByteArray × ℕ × ℕ))
        → AtMost n rest
        → AtMost (suc n) (elim o [
          | none ↦ none
          | some b ↦ elim (b == 0) [
            | true ↦ some ([], i, suc n)
            | false ↦ elim rest [ none ↦ none | some (name, j, m) ↦ some (b ∷ name, j, m) ]
          ]
        ])
    by_byte none rest h = tt
    by_byte (some b) rest h = by_zero b (b == 0) rest h

-- So many bytes.
abbrev Bytes : ℕ → Option (ByteArray × ℕ) → Type 0
Bytes n none = Unit
Bytes n (some (bytes, j)) = (length bytes ≡ n) × All IsByte bytes

content_loop-Bytes : (dt : ByteArray) (n i : ℕ) → All IsByte dt → Bytes n (content_loop dt n i)
unfolding content_loop
content_loop-Bytes dt zero i all = (refl, tt)
content_loop-Bytes dt (suc n) i all =
    by_byte (get_elem? dt i) (content_loop dt n (add_u32 i 1)) (λ b e. get_elem?-IsByte dt i all e)
      (content_loop-Bytes dt n (add_u32 i 1) all)
  where
    by_byte :
        (o : Option ℕ) (rest : Option (ByteArray × ℕ))
        → ((b : ℕ) → o ≡ some b → IsByte b)
        → Bytes n rest
        → Bytes (suc n) (elim o [
          | none ↦ none
          | some b ↦ elim rest [ none ↦ none | some (bytes, j) ↦ some (b ∷ bytes, j) ]
        ])
    by_byte none rest byte h = tt
    by_byte (some b) none byte h = tt
    by_byte (some b) (some (bytes, j)) byte h = (ap suc h.0, (byte b refl, h.1))

module _ ⦃host : Host⦄ where
  -- The storage stays one of bytes, and the bound of `is_valid` is not reached.
  abbrev pub Settles : Pick → Type 0
  Settles (picked e r') = All IsByte r'.m_dt
  Settles (nothing r') = All IsByte r'.m_dt
  Settles outside = Unit
  Settles exhausted = zero ≡ suc zero

  finish-Settles :
      (r : RingBuf) (name content : ByteArray) (dt_idx : ℕ)
      → All IsByte r.m_dt
      → length content < 2 ^ 31
      → All IsByte content
      → Settles (finish r name (content, dt_idx))
  unfolding finish
  finish-Settles r name content dt_idx all small bytes =
      by_verdict (is_valid content) (is_valid_ends content small bytes)
    where
      by_verdict :
          (o : Verdict (Unit {0}))
          → o ≢ Verdict.exhausted
          → Settles (elim o [
            | accept _ ↦
                picked
                  (record { m_name = name; m_packet = content })
                  (record r { m_start = round r dt_idx })
            | Verdict.reject ↦ nothing r
            | Verdict.outside ↦ outside
            | Verdict.exhausted ↦ exhausted
          ])
      by_verdict (accept _) ends = all
      by_verdict Verdict.reject ends = all
      by_verdict Verdict.outside ends = tt
      by_verdict Verdict.exhausted ends = absurd (ends refl)

  pick_sized-Settles :
      {r : RingBuf} (n : ℕ) → IsValid r → All IsByte r.m_dt → 3 ≤ n → Settles (pick_sized r n)
  unfolding pick_sized pick_content
  pick_sized-Settles {r} n v all low =
      if-Holds Settles _ _ (ltb (used r) n) (λ _. all)
        (λ enough.
          let le : n ≤ used r = ground arith in
          let few : sub_u32 n 2 < 2 ^ 31 = omega (arith, v.small, (used_lem v).0) in
          bind-Holds Settles (name_loop r.m_dt (sub_u32 n 2) (round r (r.m_start + 2)))
            (pick_content r n) tt
            (λ (name, i, m) e.
              let rest : m ≤ sub_u32 n 2 =
                subst (AtMost (sub_u32 n 2)) e
                  (name_loop-AtMost r.m_dt (sub_u32 n 2) (round r (r.m_start + 2))) in
              if-Holds Settles _ _ (m == 0) (λ _. all)
                (λ more.
                  let left : sub_u32 m 1 < 2 ^ 31 = ground arith in
                  bind-Holds Settles (content_loop r.m_dt (sub_u32 m 1) (add_u32 i 1))
                    (finish r name) tt
                    (λ (bytes, j) e'.
                      let (len, are) =
                        subst (Bytes (sub_u32 m 1)) e'
                          (content_loop-Bytes r.m_dt (sub_u32 m 1) (add_u32 i 1) all) in
                      finish-Settles r name bytes j all (omega (arith, len)) are))))

  pub pick_event-Settles : {r : RingBuf} → IsValid r → All IsByte r.m_dt → Settles (pick_event r)
  unfolding pick_event
  pick_event-Settles {r} v all =
      if-Holds Settles _ _ (ltb (used r) 2) (λ _. all)
        (λ _.
          bind-Holds Settles (get_elem? r.m_dt r.m_start)
            (λ a. get_elem? r.m_dt (add_u32 r.m_start 1) >>= λ b. sized a b) tt
            (λ a _.
              bind-Holds Settles (get_elem? r.m_dt (add_u32 r.m_start 1)) (λ b. sized a b) tt
                (λ b _. pick_sized-Settles (length_of a b) v all (ground arith))))
    where
      length_of : ℕ → ℕ → ℕ
      length_of a b =
          let packet_length = host.ntohs (load_16 a b) in
          if ltb packet_length 3 then 3 else packet_length

      sized : ℕ → ℕ → Pick
      sized a b = pick_sized r (length_of a b)

All-set : (xs : ByteArray) (i x : ℕ) → All IsByte xs → IsByte x → All IsByte (set xs i x)
All-set [] i x all byte = tt
All-set (y ∷ xs) zero x all byte = (byte, all.1)
All-set (y ∷ xs) (suc i) x all byte = (all.0, All-set xs i x all.1 byte)

put_loop-IsByte :
    (r : RingBuf) (s : List ℕ) → All IsByte r.m_dt → All IsByte s → All IsByte (put_loop r s).m_dt
unfolding put_loop put_byte
put_loop-IsByte r [] all bytes = all
put_loop-IsByte r (c ∷ cs) all bytes =
    put_loop-IsByte (put_byte r c) cs (All-set r.m_dt r.m_end c all bytes.0) bytes.1

pub put-IsByte :
    (r : RingBuf) (s : List ℕ) → All IsByte r.m_dt → All IsByte s → All IsByte (put r s).0.m_dt
unfolding put
put-IsByte r s all bytes = by_room (ltb r.m_size (add_u32 (used r) (length s)))
  where
    by_room :
        (b : Bool)
        → All IsByte (if◌then◌else◌ {A = RingBuf × Bool} b (r, false) (put_loop r s, true)).0.m_dt
    by_room true = all
    by_room false = put_loop-IsByte r s all bytes
