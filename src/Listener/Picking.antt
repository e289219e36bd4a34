-- ===== src/Listener/Picking.antt =====
-- The inner loop of `read_connection` on the bytes of packed events.
use sednl.Base.{
  ◌≡◌, refl, sym, ap, ◌∙◌, subst, arith, ℕ, zero, suc, ◌+◌, ◌^◌, ◌<◌, ◌≤◌, ◌%◌, List, [], ◌∷◌, ◌++◌,
  length, All, ByteArray, append_assoc, append-prefix, length-append, lt→ltb,
}
use native.Mathlib.Decide.{dec_lt}
use native.Mathlib.Nat.{mod-le}
use sednl.Bytes.Host.{Host}
use sednl.Packet.Valid.{is_valid, accept}
use sednl.Packet.Format.{IsChar}
use sednl.Event.Pack.{Event, pack}
use sednl.RingBuf.Buffer.{RingBuf, used, pick_event, picked, nothing, put}
use sednl.RingBuf.Put.{IsValid, places, contents, length-contents, put_lem, put-m_start}
use sednl.RingBuf.Pick.{packed_size, length-pack, pick_event-pack_at}
use sednl.RingBuf.Progress.{pick_event-incomplete}
use sednl.Listener.Attach.{update}
use sednl.Listener.Receive.{Inbox, receive_event, Ended, ended, pick_events, read_chunk}
use sednl.Listener.Delivery.{
  Delivered, m_buffer-receive_event, deliver_none, deliver_one, deliver_append,
}

-- What a sender with that host sends for the events.
abbrev pub stream : Host → List Event → ByteArray
stream sender [] = []
stream sender (e ∷ es) = pack ⦃host = sender⦄ e ++ stream sender es

-- What the calls of `recv` give, in one piece.
abbrev pub joined : List ByteArray → ByteArray
joined [] = []
joined (buf ∷ chunks) = buf ++ joined chunks

module _ ⦃host : Host⦄ where
  -- An event that can be sent: short enough, with a name of characters and a valid packet.
  abbrev pub IsSent : Event → Type 0
  IsSent e = (packed_size e < 2 ^ 16) × All IsChar e.m_name × (is_valid e.m_packet ≡ accept tt)

-- The buffer holds the first bytes of the events; the others are to come, and have room.
pub record Ready (sender : Host) (es : List Event) (later : ByteArray) (r : RingBuf) : Type 0 where
  pub valid : IsValid r
  pub held : contents r ++ later ≡ stream sender es
  pub fits : r.m_start + length (stream sender es) ≤ places r
  pub space : length (stream sender es) ≤ r.m_size

-- Not one of the events is there as a whole.
abbrev pub Waits : List Event → RingBuf → Type 0
Waits [] r = Unit
Waits (e ∷ es) r = used r < packed_size e

pub update_same {ℓ} : {A : Type ℓ} (f : ℕ → A) (k : ℕ) (x : A) → update f k x k ≡ x
update_same f k x = ground arith

module _ ⦃host : Host⦄ (sender : Host) (cn : ℕ) where
  -- What the inner loop does, up to the events that it delivers.
  pub record Picked (es : List Event) (later : ByteArray) (s : Inbox) (end : Ended) : Type 0 where
    pub here : List Event
    pub there : List Event
    pub split : es ≡ here ++ there
    pub inbox : Inbox
    pub ends : end ≡ ended inbox
    pub delivered : Delivered cn here s inbox
    pub ready : Ready sender there later (inbox.m_buffer cn)
    pub waits : Waits there (inbox.m_buffer cn)

  stops :
      (n : ℕ) (es : List Event) (later : ByteArray) (s : Inbox)
      → Ready sender es later (s.m_buffer cn)
      → Waits es (s.m_buffer cn)
      → pick_event (s.m_buffer cn) ≡ nothing (s.m_buffer cn)
      → Picked es later s (pick_events (suc n) cn s)
  unfolding pick_events
  stops n es later s v w e =
      let same = update_same s.m_buffer cn (s.m_buffer cn) in
      record {
        here = [];
        there = es;
        split = refl;
        inbox = record s { m_buffer = update s.m_buffer cn (s.m_buffer cn) };
        ends = rw (pick_events, e) refl;
        delivered = deliver_none (update s.m_buffer cn (s.m_buffer cn));
        ready = subst (Ready sender es later) (sym same) v;
        waits = subst (Waits es) (sym same) w;
      }

  -- One event, and those behind it.
  picked_one :
      (n : ℕ) (e : Event) (es : List Event) (later : ByteArray) (s : Inbox) (r : RingBuf)
      → s.connections.m_max_queue_size ≡ 0
      → pick_event (s.m_buffer cn) ≡ picked e r
      → (let s' = receive_event cn e (record s { m_buffer = update s.m_buffer cn r }) in
          Picked es later s' (pick_events n cn s'))
      → Picked (e ∷ es) later s (pick_events (suc n) cn s)
  unfolding pick_events
  picked_one n e es later s r room p rest = record {
    here = e ∷ rest.here;
    there = rest.there;
    split = ap (λ l. e ∷ l) rest.split;
    inbox = rest.inbox;
    ends = rw (pick_events, p) rest.ends;
    delivered =
        deliver_append
          (deliver_append (deliver_none {s = s} (update s.m_buffer cn r)) (deliver_one cn e room))
          rest.delivered;
    ready = rest.ready;
    waits = rest.waits;
  }

  pick_events_lem :
      (n : ℕ) (es : List Event) (later : ByteArray) (s : Inbox)
      → Ready sender es later (s.m_buffer cn)
      → All IsSent es
      → s.connections.m_max_queue_size ≡ 0
      → used (s.m_buffer cn) < n
      → Picked es later s (pick_events n cn s)
  pick_events_lem zero es later s v good room fuel = absurd (omega arith)
  pick_events_lem (suc n) [] later s v good room fuel = stops n [] later s v tt none_there
    where
      none_there : pick_event (s.m_buffer cn) ≡ nothing (s.m_buffer cn)
      none_there =
          unfold pick_event in
          rw
            (lt→ltb (used (s.m_buffer cn)) 2 (
              omega (
                arith,
                (length-contents v.valid).0,
                ap length v.held,
                length-append (contents (s.m_buffer cn)) later,
              )))
            refl
  pick_events_lem (suc n) (e ∷ es) later s v good room fuel =
      let (small, chars, ok) = good.0 in
      let len = length-pack ⦃host = sender⦄ e small in
      let whole_fits : (s.m_buffer cn).m_start + packed_size e + length (stream sender es)
          ≤ places (s.m_buffer cn) =
        omega (arith, v.fits, length-append (pack ⦃host = sender⦄ e) (stream sender es), len) in
      let count = length-contents v.valid in
      elim (dec_lt (used (s.m_buffer cn)) (packed_size e)) [
        | yes part ↦ stops n (e ∷ es) later s v part (
            pick_event-incomplete sender e later (stream sender es) v.valid v.held (omega arith)
              small part)
        | no whole ↦
            let held' =
              append-prefix (contents (s.m_buffer cn)) later (pack ⦃host = sender⦄ e)
                (stream sender es) v.held (omega (arith, len, count.0)) in
            let rest = held'.0 in
            let size : packed_size e + length rest ≡ used (s.m_buffer cn) = omega (
              arith,
              len,
              count.0,
              ap length held'.1,
              length-append (pack ⦃host = sender⦄ e) rest,
            ) in
            let (picks, valid, left) =
              pick_event-pack_at sender e rest v.valid held'.1 (omega arith) small chars ok in
            let r = record (s.m_buffer cn) {
              m_start = ((s.m_buffer cn).m_start + packed_size e) % places (s.m_buffer cn);
            } in
            let s' = receive_event cn e (record s { m_buffer = update s.m_buffer cn r }) in
            let same : s'.m_buffer cn ≡ r =
              ap (λ f. f cn)
                (m_buffer-receive_event cn (record s { m_buffer = update s.m_buffer cn r }) e)
              ∙ update_same s.m_buffer cn r in
            let ready : Ready sender es later r = record {
              valid = valid;
              held = ap (λ l. l ++ later) left ∙ held'.2;
              fits = omega (
                arith,
                mod-le ((s.m_buffer cn).m_start + packed_size e) (places (s.m_buffer cn)),
              );
              space =
                  omega (arith, v.space, length-append (pack ⦃host = sender⦄ e) (stream sender es));
            } in
            picked_one n e es later s r room picks (
              pick_events_lem n es later s' (subst (Ready sender es later) (sym same) ready) good.1
                ((deliver_one cn {s = record s { m_buffer = update s.m_buffer cn r }} e
                    room).unbounded
                  ∙ room)
                (omega (arith, ap used same, (length-contents valid).0, ap length left)))
      ]

  put-Ready :
      {r : RingBuf} (buf : ByteArray) (es : List Event) (later : ByteArray)
      → Ready sender es (buf ++ later) r
      → Ready sender es later (put r buf).0
  put-Ready {r} buf es later v =
      let total : used r + length buf ≤ length (stream sender es) = omega (
        arith,
        ap length v.held,
        length-append (contents r) (buf ++ later),
        length-append buf later,
        (length-contents v.valid).0,
      ) in
      let (valid, stored, _) = put_lem buf v.valid (omega (arith, v.space, v.valid.small)) in
      let (start, size) = put-m_start r buf in
      let (_, bytes) = stored (omega (arith, v.space)) in
      record {
        valid = valid;
        held = ap (λ l. l ++ later) bytes ∙ append_assoc (contents r) buf later ∙ v.held;
        fits = omega (arith, v.fits, start, size);
        space = omega (arith, v.space, size);
      }

  pub read_chunk_lem :
      (buf : ByteArray) (es : List Event) (later : ByteArray) (s : Inbox)
      → Ready sender es (buf ++ later) (s.m_buffer cn)
      → All IsSent es
      → s.connections.m_max_queue_size ≡ 0
      → Picked es later s (read_chunk cn buf s)
  unfolding read_chunk
  read_chunk_lem buf es later s v good room =
      let r = (put (s.m_buffer cn) buf).0 in
      let s' = record s { m_buffer = update s.m_buffer cn r } in
      let same : s'.m_buffer cn ≡ r = update_same s.m_buffer cn r in
      let ready = subst (Ready sender es later) (sym same) (put-Ready buf es later v) in
      let p =
        pick_events_lem (suc (used r)) es later s' ready good room (omega (arith, ap used same)) in
      record {
        here = p.here;
        there = p.there;
        split = p.split;
        inbox = p.inbox;
        ends = p.ends;
        delivered = deliver_append (deliver_none {s = s} s'.m_buffer) p.delivered;
        ready = p.ready;
        waits = p.waits;
      }
