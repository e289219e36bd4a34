-- ===== src/RingBuf/Pick.antt =====
-- `pick_event` on a packed event that does not run over the end of the storage.
use sednl.Base.{
  none, get_elem?-ge, Option-cases, inl, inr, ℕ, suc, ◌+◌, ◌-◌, ◌%◌, ◌^◌, ◌≤◌, ◌<◌, ◌≡◌, refl, ap,
  ◌∙◌, sym, [], ◌∷◌, ◌++◌, ByteArray, arith, subst, length, append_assoc, false, ltb, All,
  get_elem?_at, get_elem?, add_u32, sub_u32, drop, drop-cons, drop-append_step, length-append, ◌==◌,
}
use native.Mathlib.Nat.{mod-eq_of_lt}
use sednl.Bytes.Host.{Host}
use sednl.Bytes.Order.{push_16}
use sednl.Bytes.Wire.{be_16, push_16-be_16, ntohs-load_16}
use sednl.Packet.Valid.{accept, reject, is_valid}
use sednl.Packet.Format.{IsChar}
use sednl.Event.Pack.{Event, get_header, pack}
use sednl.RingBuf.Buffer.{
  RingBuf, used, finish, pick_content, pick_sized, pick_event, picked, nothing, outside,
}
use sednl.RingBuf.Stretch.{name_loop_lem, content_loop_lem, stretch, taken}
use sednl.RingBuf.Put.{IsValid, places, contents, length-contents}

-- The size of an event on the wire, and what `pack` makes of it.
abbrev pub packed_size : Event → ℕ
packed_size e = length e.m_packet + length e.m_name + 3

abbrev pub body : Event → ByteArray
body e = e.m_name ++ (0 ∷ e.m_packet)

pub pack-be_16 :
    ⦃host : Host⦄ (e : Event) → packed_size e < 2 ^ 16 → pack e ≡ be_16 (packed_size e) ++ body e
unfolding pack get_header
pack-be_16 e h =
    let n : (length e.m_packet + length e.m_name + 1 + 2) % 2 ^ 16 ≡ packed_size e = omega arith in
    ap (λ k. ((push_16 [] k ++ e.m_name) ++ (0 ∷ [])) ++ e.m_packet) n
    ∙ ap (λ l. ((l ++ e.m_name) ++ (0 ∷ [])) ++ e.m_packet) (push_16-be_16 [] (packed_size e) h)
    ∙ append_assoc (be_16 (packed_size e) ++ e.m_name) (0 ∷ []) e.m_packet
    ∙ append_assoc (be_16 (packed_size e)) e.m_name (0 ∷ e.m_packet)

pub length-pack :
    ⦃host : Host⦄ (e : Event) → packed_size e < 2 ^ 16 → length (pack e) ≡ packed_size e
length-pack e h =
    ap length (pack-be_16 e h) ∙ omega (arith, length-append e.m_name (0 ∷ e.m_packet))

module _ ⦃host : Host⦄ where
  pick_content_lem :
      {r : RingBuf} (e : Event) (n i remaining : ℕ) (t : ByteArray)
      → IsValid r
      → remaining ≡ suc (length e.m_packet)
      → i + 1 + length e.m_packet ≤ places r
      → drop (i + 1) r.m_dt ≡ e.m_packet ++ t
      → pick_content r n (e.m_name, i, remaining)
        ≡ finish r e.m_name (e.m_packet, i + 1 + length e.m_packet)
  unfolding pick_content
  pick_content_lem {r} e n i remaining t v count fits from =
      let more : (remaining == 0) ≡ false = ground arith in
      let left : sub_u32 remaining 1 ≡ length e.m_packet = omega (arith, v.small) in
      let step : add_u32 i 1 ≡ i + 1 = omega (arith, v.small) in
      rw (
        more,
        left,
        step,
        content_loop_lem r.m_dt e.m_packet (i + 1) t (omega (arith, v.small)) from,
      )

  -- What is left of `pick_event` once the length has been read.
  pick_sized_lem :
      {r : RingBuf} (e : Event) (t : ByteArray)
      → IsValid r
      → packed_size e ≤ used r
      → r.m_start + packed_size e ≤ places r
      → drop (r.m_start + 2) r.m_dt ≡ e.m_name ++ (0 ∷ (e.m_packet ++ t))
      → All IsChar e.m_name
      → pick_sized r (packed_size e) ≡ finish r e.m_name (e.m_packet, r.m_start + packed_size e)
  unfolding pick_sized
  pick_sized_lem {r} e t v there fits from chars =
      let name = e.m_name in
      let packet = e.m_packet in
      let size : add_u32 r.m_size 1 ≡ places r = omega (arith, v.small) in
      let begin : (r.m_start + 2) % places r ≡ r.m_start + 2 = mod-eq_of_lt (omega arith) in
      let body_n : sub_u32 (packed_size e) 2 ≡ length packet + length name + 1 =
        omega (arith, v.small) in
      let named =
        name_loop_lem r.m_dt name (length packet + length name + 1) (r.m_start + 2) (packet ++ t)
          chars (omega arith) (omega (arith, v.small)) from in
      let enough : ltb (used r) (packed_size e) ≡ false = ground arith in
      let i = r.m_start + 2 + length name in
      let content : drop (i + 1) r.m_dt ≡ packet ++ t =
        (drop-cons r.m_dt i
          (drop-append_step r.m_dt (r.m_start + 2) name (0 ∷ (packet ++ t)) from)).1 in
      let end : i + 1 + length packet ≡ r.m_start + packed_size e = omega arith in
      rw (enough, size, begin, body_n, named)
        (pick_content_lem e (packed_size e) i (length packet + length name + 1 - length name) t v
            (omega arith) (omega arith) content
          ∙ ap (λ k. finish r name (packet, k)) end)

  pub pick_event_lem :
      {r : RingBuf} (n : ℕ) (t : ByteArray)
      → IsValid r
      → 3 ≤ n
      → 2 ≤ used r
      → n < 2 ^ 16
      → drop r.m_start r.m_dt ≡ be_16 n ++ t
      → pick_event r ≡ pick_sized r n
  unfolding pick_event
  pick_event_lem {r} n t v low high small from =
      let some_bytes : ltb (used r) 2 ≡ false = ground arith in
      let step : add_u32 r.m_start 1 ≡ r.m_start + 1 = omega (arith, v.small, v.start_in) in
      let long : ltb n 3 ≡ false = ground arith in
      rw
        (
          some_bytes,
          (drop-cons r.m_dt r.m_start from).0,
          step,
          get_elem?_at r.m_dt r.m_start 1 from refl,
        )
        (rw (ntohs-load_16 n small, long))

  -- A packed event in one piece at the front of the buffer is read to its last byte.
  pick_event-finish :
      {r : RingBuf} (sender : Host) (e : Event) (rest : ByteArray)
      → IsValid r
      → contents r ≡ pack ⦃host = sender⦄ e ++ rest
      → r.m_start + packed_size e ≤ places r
      → packed_size e < 2 ^ 16
      → All IsChar e.m_name
      → pick_event r ≡ finish r e.m_name (e.m_packet, r.m_start + packed_size e)
  pick_event-finish {r} sender e rest v held fits small chars =
      let t = drop (r.m_start + length (pack ⦃host = sender⦄ e)) r.m_dt in
      let len = length-pack ⦃host = sender⦄ e small in
      let from : drop r.m_start r.m_dt ≡ be_16 (packed_size e) ++ (body e ++ t) =
        stretch (pack ⦃host = sender⦄ e) rest v held (omega (arith, len))
        ∙ ap (λ l. l ++ t) (pack-be_16 ⦃host = sender⦄ e small) in
      let there : packed_size e ≤ used r = omega (
        arith,
        len,
        (length-contents v).0,
        ap length held,
        length-append (pack ⦃host = sender⦄ e) rest,
      ) in
      let named : drop (r.m_start + 2) r.m_dt ≡ e.m_name ++ (0 ∷ (e.m_packet ++ t)) =
        drop-append_step r.m_dt r.m_start (be_16 (packed_size e)) (body e ++ t) from
        ∙ append_assoc e.m_name (0 ∷ e.m_packet) t in
      pick_event_lem (packed_size e) (body e ++ t) v (omega arith) (omega arith) small from
      ∙ pick_sized_lem e t v there fits named chars

  -- The buffer behind a picked event.
  pub pick_event-pack_at :
      {r : RingBuf} (sender : Host) (e : Event) (rest : ByteArray)
      → IsValid r
      → contents r ≡ pack ⦃host = sender⦄ e ++ rest
      → r.m_start + packed_size e ≤ places r
      → packed_size e < 2 ^ 16
      → All IsChar e.m_name
      → is_valid e.m_packet ≡ accept tt
      → (pick_event r ≡ picked e (record r { m_start = (r.m_start + packed_size e) % places r }))
        × IsValid (record r { m_start = (r.m_start + packed_size e) % places r })
        × (contents (record r { m_start = (r.m_start + packed_size e) % places r }) ≡ rest)
  unfolding finish
  pick_event-pack_at {r} sender e rest v held fits small chars ok =
      let len = length-pack ⦃host = sender⦄ e small in
      let size : add_u32 r.m_size 1 ≡ places r = omega (arith, v.small) in
      let (valid, left) = taken (pack ⦃host = sender⦄ e) rest v held in
      (
        pick_event-finish sender e rest v held fits small chars
            ∙ rw (ok, finish)
                (ap (λ k. picked e (record r { m_start = (r.m_start + packed_size e) % k })) size),
        subst (λ k. IsValid (record r { m_start = (r.m_start + k) % places r })) len valid,
        ap (λ k. contents (record r { m_start = (r.m_start + k) % places r })) (sym len) ∙ left,
      )

  -- A packed event in one piece at the front of a valid buffer, with a valid packet, comes back as it
  -- was sent, and the bytes behind it stay. This is so on any host, whichever host packed the event.
  pub pick_event-pack :
      {r : RingBuf} (sender : Host) (e : Event) (rest : ByteArray)
      → IsValid r
      → contents r ≡ pack ⦃host = sender⦄ e ++ rest
      → r.m_start + packed_size e ≤ places r
      → packed_size e < 2 ^ 16
      → All IsChar e.m_name
      → is_valid e.m_packet ≡ accept tt
      → (r' : RingBuf) × (pick_event r ≡ picked e r') × IsValid r' × (contents r' ≡ rest)
  pick_event-pack {r} sender e rest v held fits small chars ok =
      let (p, valid, left) = pick_event-pack_at sender e rest v held fits small chars ok in
      (record r { m_start = (r.m_start + packed_size e) % places r }, p, valid, left)

  -- An event of fewer than 65536 bytes at the front of a valid buffer, in one piece in its storage,
  -- whose packet `is_valid` rejects, is not picked, and stays there, so that the next `pick_event` finds
  -- it again: the buffer is as it was.
  pub pick_event-invalid :
      {r : RingBuf} (sender : Host) (e : Event) (rest : ByteArray)
      → IsValid r
      → contents r ≡ pack ⦃host = sender⦄ e ++ rest
      → r.m_start + packed_size e ≤ places r
      → packed_size e < 2 ^ 16
      → All IsChar e.m_name
      → is_valid e.m_packet ≡ reject
      → pick_event r ≡ nothing r
  unfolding finish
  pick_event-invalid {r} sender e rest v held fits small chars bad =
      pick_event-finish sender e rest v held fits small chars ∙ rw (bad, finish)

  -- With its first byte in the last place of the storage, a buffer that holds two bytes makes
  -- `pick_event` read behind the storage, for the second byte of the length.
  pub pick_event-last_place :
      {r : RingBuf} → IsValid r → r.m_start ≡ r.m_size → 2 ≤ used r → pick_event r ≡ outside
  unfolding pick_event
  pick_event-last_place {r} v last two =
      let some_bytes : ltb (used r) 2 ≡ false = ground arith in
      let behind : get_elem? r.m_dt (add_u32 r.m_start 1) ≡ none =
        get_elem?-ge r.m_dt (add_u32 r.m_start 1) (omega (arith, v.storage, v.small)) in
      elim (Option-cases (get_elem? r.m_dt r.m_start)) [
        | inl gone ↦ rw (some_bytes, gone)
        | inr (a, e) ↦ rw (some_bytes, e) (rw behind)
      ]
