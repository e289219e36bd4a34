-- ===== src/RingBuf/Progress.antt =====
-- `pick_event` on any valid buffer, and on one that holds a part of an event only.
use sednl.Base.{
  ℕ, ◌+◌, ◌-◌, ◌%◌, ◌^◌, ◌≤◌, ◌<◌, ◌≡◌, refl, ap, ◌∙◌, sym, ◌++◌, ByteArray, arith, subst, ltb,
  lt→ltb, get_elem?, add_u32, sub_u32, drop, if◌then◌else◌, ◌==◌,
}
use native.Mathlib.Decide.{dec_lt}
use native.Mathlib.Nat.{mod-add-mod}
use sednl.Bytes.Host.{Host, load_16}
use sednl.Bytes.Wire.{be_16}
use sednl.Packet.Valid.{is_valid, Verdict, accept}
use sednl.Event.Pack.{Event, pack}
use sednl.RingBuf.Buffer.{
  RingBuf, used, name_loop, content_loop, finish, pick_content, pick_sized, pick_event, picked,
  nothing, outside, exhausted, Pick, round, ◌>>=◌,
}
use sednl.RingBuf.Put.{IsValid, places, contents, used_lem}
use sednl.RingBuf.Stretch.{stretch}
use sednl.RingBuf.Pick.{packed_size, pick_event_lem}
use sednl.RingBuf.Ends.{bind-Holds, if-Holds}
use sednl.RingBuf.Leaves.{
  EndsAt, LeavesOff, content_loop-EndsAt, name_loop-LeavesOff, advance, length_bytes,
}

module _ ⦃host : Host⦄ where
  pick_sized-short : {r : RingBuf} (n : ℕ) → used r < n → pick_sized r n ≡ nothing r
  unfolding pick_sized
  pick_sized-short {r} n h = rw (lt→ltb (used r) n h) refl

  -- As long as a part of an event is to come, it is not picked, and the buffer stays as it is.
  pub pick_event-incomplete :
      {r : RingBuf} (sender : Host) (e : Event) (later more : ByteArray)
      → IsValid r
      → contents r ++ later ≡ pack ⦃host = sender⦄ e ++ more
      → r.m_start + 2 ≤ places r
      → packed_size e < 2 ^ 16
      → used r < packed_size e
      → pick_event r ≡ nothing r
  pick_event-incomplete {r} sender e later more v held fits small part = elim (dec_lt (used r) 2) [
    | yes few ↦ unfold pick_event in rw (lt→ltb (used r) 2 few) refl
    | no two ↦
        let from =
          stretch (be_16 (packed_size e)) (drop 2 (contents r)) v
            (length_bytes sender e later more v held small (omega arith)) fits in
        pick_event_lem (packed_size e) (drop (r.m_start + 2) r.m_dt) v (omega arith) (omega arith)
          small from
        ∙ pick_sized-short (packed_size e) part
  ]

  -- What `pick_event` leaves of a valid buffer.
  abbrev pub Leaves : RingBuf → Pick → Type 0
  Leaves r (picked e r') = IsValid r' × (used r' < used r)
  Leaves r (nothing r') = IsValid r'
  Leaves r _ = Unit

  finish-Leaves :
      {r : RingBuf} (name content : ByteArray) (dt_idx n : ℕ)
      → IsValid r
      → 0 < n
      → n ≤ used r
      → dt_idx % places r ≡ (r.m_start + n) % places r
      → Leaves r (finish r name (content, dt_idx))
  unfolding finish
  finish-Leaves {r} name content dt_idx n v pos le e = by_verdict (is_valid content)
    where
      moved :
          IsValid (record r { m_start = dt_idx % add_u32 r.m_size 1 })
          × (used (record r { m_start = dt_idx % add_u32 r.m_size 1 }) < used r)
      moved =
          let (valid, less) = advance n v le in
          let size : places r ≡ add_u32 r.m_size 1 = omega (arith, v.small) in
          let start : (r.m_start + n) % places r ≡ dt_idx % add_u32 r.m_size 1 =
            sym e ∙ ap (λ k. dt_idx % k) size in
          (
            subst (λ k. IsValid (record r { m_start = k })) start valid,
            subst (λ k. used (record r { m_start = k }) < used r) start (omega arith),
          )

      by_verdict :
          (o : Verdict (Unit {0}))
          → Leaves r (elim o [
            | accept _ ↦
                picked
                  (record { m_name = name; m_packet = content })
                  (record r { m_start = round r dt_idx })
            | Verdict.reject ↦ nothing r
            | Verdict.outside ↦ outside
            | Verdict.exhausted ↦ exhausted
          ])
      by_verdict (accept _) = moved
      by_verdict Verdict.reject = v
      by_verdict Verdict.outside = tt
      by_verdict Verdict.exhausted = tt

  -- Behind the loop over the name, the index and what remains add up to the end of the event.
  pick_content-Leaves :
      {r : RingBuf} (n : ℕ) (name : ByteArray) (i remaining : ℕ)
      → IsValid r
      → 3 ≤ n
      → n ≤ used r
      → i + remaining ≡ (r.m_start + 2) % places r + (n - 2)
      → Leaves r (pick_content r n (name, i, remaining))
  unfolding pick_content
  pick_content-Leaves {r} n name i remaining v low le sum =
      let (bound, _) = used_lem v in
      let begin : (r.m_start + 2) % places r < places r = omega (arith, v.start_in) in
      if-Holds (Leaves r) _ _ (remaining == 0) (λ _. skipped)
        (λ more.
          let left : sub_u32 remaining 1 ≡ remaining - 1 = ground arith in
          bind-Holds (Leaves r) (content_loop r.m_dt (sub_u32 remaining 1) (add_u32 i 1))
            (finish r name) tt
            (λ (bytes, j) e. finish-Leaves name bytes j n v (omega arith) le (
              ap (λ k. k % places r)
                (subst (EndsAt (add_u32 i 1 + sub_u32 remaining 1)) e
                    (content_loop-EndsAt r.m_dt (sub_u32 remaining 1) (add_u32 i 1) (omega arith))
                  ∙ omega arith)
              ∙ mod-add-mod (r.m_start + 2) (places r) (n - 2)
              ∙ ap (λ k. k % places r) (omega arith))))
    where
      skipped : IsValid (record r { m_start = round r (add_u32 r.m_start n) })
      skipped =
          let size : places r ≡ add_u32 r.m_size 1 = omega (arith, v.small) in
          let sum' : r.m_start + n ≡ add_u32 r.m_start n =
            omega (arith, v.small, v.start_in, le, (used_lem v).0) in
          subst (λ k. IsValid (record r { m_start = k }))
            (ap (λ k. k % places r) sum' ∙ ap (λ k. add_u32 r.m_start n % k) size)
            (advance n v le).0

  pick_sized-Leaves : {r : RingBuf} (n : ℕ) → IsValid r → 3 ≤ n → Leaves r (pick_sized r n)
  unfolding pick_sized
  pick_sized-Leaves {r} n v low =
      let (bound, _) = used_lem v in
      if-Holds (Leaves r) _ _ (ltb (used r) n) (λ _. v)
        (λ enough.
          let le : n ≤ used r = ground arith in
          let count : sub_u32 n 2 ≡ n - 2 = omega (arith, v.small) in
          let from : round r (r.m_start + 2) ≡ (r.m_start + 2) % places r =
            ap (λ k. (r.m_start + 2) % k) (omega (arith, v.small)) in
          bind-Holds (Leaves r) (name_loop r.m_dt (sub_u32 n 2) (round r (r.m_start + 2)))
            (pick_content r n) tt
            (λ (name, i, m) e. pick_content-Leaves n name i m v low le (
              subst (LeavesOff (round r (r.m_start + 2) + sub_u32 n 2)) e
                (name_loop-LeavesOff r.m_dt (sub_u32 n 2) (round r (r.m_start + 2)) (omega arith))
              ∙ omega arith)))

  -- It is valid, and an event that is picked takes bytes from it.
  pub pick_event-Leaves : {r : RingBuf} → IsValid r → Leaves r (pick_event r)
  unfolding pick_event
  pick_event-Leaves {r} v =
      if-Holds (Leaves r) _ _ (ltb (used r) 2) (λ _. v)
        (λ _.
          bind-Holds (Leaves r) (get_elem? r.m_dt r.m_start)
            (λ a. get_elem? r.m_dt (add_u32 r.m_start 1) >>= λ b. sized a b) tt
            (λ a _.
              bind-Holds (Leaves r) (get_elem? r.m_dt (add_u32 r.m_start 1)) (λ b. sized a b) tt
                (λ b _. pick_sized-Leaves (length_of a b) v (ground arith))))
    where
      length_of : ℕ → ℕ → ℕ
      length_of a b =
          let packet_length = host.ntohs (load_16 a b) in
          if ltb packet_length 3 then 3 else packet_length

      sized : ℕ → ℕ → Pick
      sized a b = pick_sized r (length_of a b)
