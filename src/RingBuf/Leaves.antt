-- ===== src/RingBuf/Leaves.antt =====
-- Where the loops of `pick_event` over a name and a packet stop.
use sednl.Base.{
  none, ℕ, zero, suc, ◌+◌, ◌%◌, ◌^◌, ◌≤◌, ◌<◌, ◌≡◌, refl, ap, ◌∙◌, sym, [], ◌∷◌, ◌++◌, ByteArray,
  arith, subst, length, append_assoc, true, false, some, get_elem?, add_u32, drop, take,
  take-append-drop, length-take_le, length-drop, append-cancel, Option, Bool, ◌==◌,
}
use sednl.Bytes.Host.{Host}
use sednl.Bytes.Wire.{be_16}
use sednl.Event.Pack.{Event, pack}
use sednl.RingBuf.Buffer.{RingBuf, used, name_loop, content_loop}
use sednl.RingBuf.Put.{IsValid, places, contents, length-contents}
use sednl.RingBuf.Stretch.{taken}
use sednl.RingBuf.Pick.{packed_size, body, pack-be_16}

-- Where the loops leave the index.
abbrev pub EndsAt : ℕ → Option (ByteArray × ℕ) → Type 0
EndsAt k none = Unit
EndsAt k (some (bytes, j)) = j ≡ k

abbrev pub LeavesOff : ℕ → Option (ByteArray × ℕ × ℕ) → Type 0
LeavesOff k none = Unit
LeavesOff k (some (name, j, m)) = j + m ≡ k

pub content_loop-EndsAt :
    (dt : ByteArray) (n i : ℕ) → i + n < 2 ^ 32 → EndsAt (i + n) (content_loop dt n i)
unfolding content_loop
content_loop-EndsAt dt zero i h = omega arith
content_loop-EndsAt dt (suc n) i h = by_byte (get_elem? dt i) (content_loop dt n (add_u32 i 1)) (
    subst (λ k. EndsAt (i + suc n) (content_loop dt n k)) step
      (subst (λ k. EndsAt k (content_loop dt n (i + 1))) (omega arith)
        (content_loop-EndsAt dt n (i + 1) (omega arith))))
  where
    step : i + 1 ≡ add_u32 i 1
    step = omega arith

    by_byte :
        (o : Option ℕ) (rest : Option (ByteArray × ℕ))
        → EndsAt (i + suc n) rest
        → EndsAt (i + suc n) (elim o [
          | none ↦ none
          | some b ↦ elim rest [ none ↦ none | some (bytes, j) ↦ some (b ∷ bytes, j) ]
        ])
    by_byte none rest t = tt
    by_byte (some b) none t = tt
    by_byte (some b) (some (bytes, j)) t = t

pub name_loop-LeavesOff :
    (dt : ByteArray) (n i : ℕ) → i + n < 2 ^ 32 → LeavesOff (i + n) (name_loop dt n i)
unfolding name_loop
name_loop-LeavesOff dt zero i h = omega arith
name_loop-LeavesOff dt (suc n) i h = by_byte (get_elem? dt i) (name_loop dt n (add_u32 i 1)) (
    subst (λ k. LeavesOff (i + suc n) (name_loop dt n k)) step
      (subst (λ k. LeavesOff k (name_loop dt n (i + 1))) (omega arith)
        (name_loop-LeavesOff dt n (i + 1) (omega arith))))
  where
    step : i + 1 ≡ add_u32 i 1
    step = omega arith

    by_zero :
        (b : ℕ) (zero_byte : Bool) (rest : Option (ByteArray × ℕ × ℕ))
        → LeavesOff (i + suc n) rest
        → LeavesOff (i + suc n) (elim zero_byte [
          | true ↦ some ([], i, suc n)
          | false ↦ elim rest [ none ↦ none | some (name, j, m) ↦ some (b ∷ name, j, m) ]
        ])
    by_zero b true rest t = refl
    by_zero b false none t = tt
    by_zero b false (some (name, j, m)) t = t

    by_byte :
        (o : Option ℕ) (rest : Option (ByteArray × ℕ × ℕ))
        → LeavesOff (i + suc n) rest
        → LeavesOff (i + suc n) (elim o [
          | none ↦ none
          | some b ↦ elim (b == 0) [
            | true ↦ some ([], i, suc n)
            | false ↦ elim rest [ none ↦ none | some (name, j, m) ↦ some (b ∷ name, j, m) ]
          ]
        ])
    by_byte none rest t = tt
    by_byte (some b) rest t = by_zero b (b == 0) rest t

-- The buffer with the first bytes dropped is valid, and so much shorter.
pub advance :
    {r : RingBuf} (n : ℕ)
    → IsValid r
    → n ≤ used r
    → IsValid (record r { m_start = (r.m_start + n) % places r })
      × (used (record r { m_start = (r.m_start + n) % places r }) + n ≡ used r)
advance {r} n v le =
    let len = (length-contents v).0 in
    let size : length (take n (contents r)) ≡ n =
      length-take_le n (contents r) (omega (arith, len)) in
    let (valid, left) =
      taken (take n (contents r)) (drop n (contents r)) v (sym (take-append-drop n (contents r))) in
    let valid' =
      subst (λ k. IsValid (record r { m_start = (r.m_start + k) % places r })) size valid in
    let left' =
      ap (λ k. contents (record r { m_start = (r.m_start + k) % places r })) (sym size) ∙ left in
    (
      valid',
      omega
          (arith, len, le, length-drop n (contents r), ap length left', (length-contents valid').0),
    )

-- The first two bytes of the buffer are those of the event's length.
pub length_bytes :
    {r : RingBuf} (sender : Host) (e : Event) (later more : ByteArray)
    → IsValid r
    → contents r ++ later ≡ pack ⦃host = sender⦄ e ++ more
    → packed_size e < 2 ^ 16
    → 2 ≤ used r
    → contents r ≡ be_16 (packed_size e) ++ drop 2 (contents r)
length_bytes {r} sender e later more v held small two =
    let here = take-append-drop 2 (contents r) in
    let long : length (take 2 (contents r)) ≡ 2 =
      length-take_le 2 (contents r) (omega (arith, (length-contents v).0)) in
    let both : take 2 (contents r) ++ (drop 2 (contents r) ++ later)
        ≡ be_16 (packed_size e) ++ (body e ++ more) =
      sym (append_assoc (take 2 (contents r)) (drop 2 (contents r)) later)
      ∙ ap (λ l. l ++ later) here
      ∙ held
      ∙ ap (λ l. l ++ more) (pack-be_16 ⦃host = sender⦄ e small) in
    let (front, _) = append-cancel (take 2 (contents r)) (be_16 (packed_size e)) long both in
    sym here ∙ ap (λ l. l ++ drop 2 (contents r)) front
