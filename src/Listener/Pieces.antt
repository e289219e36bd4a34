-- ===== src/Listener/Pieces.antt =====
-- `read_connection` on a piece of what a connection sends, and what it leaves alone.
use sednl.Base.{
  ◌≡◌, refl, sym, ap, ◌∙◌, subst, ℕ, zero, suc, ◌==◌, false, List, [], ◌∷◌, ◌++◌, All, ByteArray,
  All-append_right, append_assoc,
}
use sednl.Bytes.Host.{Host}
use sednl.Event.Pack.{Event}
use sednl.RingBuf.Buffer.{RingBuf, Pick, picked, nothing, outside, exhausted, pick_event, put, used}
use sednl.Listener.Attach.{update}
use sednl.Listener.Receive.{
  Inbox, receive_event, Ended, ended, undefined, unfinished, pick_events, read_chunk, read_loop,
  LastCall, would_block,
}
use sednl.Listener.Delivery.{Delivered, deliver_none, deliver_append, receive_event_shape}
use sednl.Listener.Picking.{IsSent, Ready, Waits, joined, read_chunk_lem}

abbrev pub EndsWith : (Inbox → Type 0) → Ended → Type 0
EndsWith P (ended t) = P t
EndsWith P undefined = Unit
EndsWith P unfinished = Unit

-- What a change of the connection's buffer keeps, and an event that is received, the loops keep.
module _ ⦃host : Host⦄ (P : Inbox → Type 0) (cn : ℕ)
    (buffer : (s : Inbox) (r : RingBuf) → P s → P (record s { m_buffer = update s.m_buffer cn r }))
    (event : (e : Event) (s : Inbox) → P s → P (receive_event cn e s)) where
  pick_events-keeps : (n : ℕ) (s : Inbox) → P s → EndsWith P (pick_events n cn s)
  unfolding pick_events
  pick_events-keeps zero s h = tt
  pick_events-keeps (suc n) s h = by_pick (pick_event (s.m_buffer cn)) (λ t. pick_events-keeps n t)
    where
      by_pick :
          (p : Pick)
          → ((t : Inbox) → P t → EndsWith P (pick_events n cn t))
          → EndsWith P (elim p [
            | picked e r ↦
                pick_events n cn
                  (receive_event cn e (record s { m_buffer = update s.m_buffer cn r }))
            | nothing r ↦ ended (record s { m_buffer = update s.m_buffer cn r })
            | outside ↦ undefined
            | exhausted ↦ unfinished
          ])
      by_pick (picked e r) rec = rec _ (event e _ (buffer s r h))
      by_pick (nothing r) rec = buffer s r h
      by_pick outside rec = tt
      by_pick exhausted rec = tt

  read_chunk-keeps : (buf : ByteArray) (s : Inbox) → P s → EndsWith P (read_chunk cn buf s)
  unfolding read_chunk
  read_chunk-keeps buf s h =
      let r = (put (s.m_buffer cn) buf).0 in
      pick_events-keeps (suc (used r)) (record s { m_buffer = update s.m_buffer cn r })
        (buffer s r h)

  pub read_loop-keeps :
      (chunks : List ByteArray) (fd : ℕ) (s : Inbox)
      → P s
      → EndsWith P (read_loop chunks would_block fd cn s)
  unfolding read_loop
  read_loop-keeps [] fd s h = h
  read_loop-keeps (buf ∷ chunks) fd s h =
      by_end (read_chunk cn buf s) (λ t. read_loop-keeps chunks fd t) (read_chunk-keeps buf s h)
    where
      by_end :
          (end : Ended)
          → ((t : Inbox) → P t → EndsWith P (read_loop chunks would_block fd cn t))
          → EndsWith P end
          → EndsWith P (elim end [
            | ended t ↦ read_loop chunks would_block fd cn t
            | undefined ↦ undefined
            | unfinished ↦ unfinished
          ])
      by_end (ended t) rec k = rec t k
      by_end undefined rec k = tt
      by_end unfinished rec k = tt

-- The connections and the buffers of all but one of them are as they were.
pub record Apart (cn : ℕ) (s t : Inbox) : Type 0 where
  pub connections : t.connections ≡ s.connections
  pub others : (k : ℕ) → (k == cn) ≡ false → t.m_buffer k ≡ s.m_buffer k

module _ ⦃host : Host⦄ (cn : ℕ) where
  buffer-Apart :
      {s : Inbox} (t : Inbox) (r : RingBuf)
      → Apart cn s t
      → Apart cn s (record t { m_buffer = update t.m_buffer cn r })
  buffer-Apart t r a = record { connections = a.connections; others = λ k h. rw h (a.others k h) }

  receive_event-Apart :
      {s : Inbox} (e : Event) (t : Inbox) → Apart cn s t → Apart cn s (receive_event cn e t)
  receive_event-Apart e t a =
      let (q, w, p) = receive_event_shape cn t e in
      record {
        connections = ap (λ (u : Inbox). u.connections) p ∙ a.connections;
        others = λ k h. ap (λ (u : Inbox). u.m_buffer k) p ∙ a.others k h;
      }

  pub read_loop-Apart :
      (chunks : List ByteArray) (fd : ℕ) (s : Inbox) {t : Inbox}
      → read_loop chunks would_block fd cn s ≡ ended t
      → Apart cn s t
  read_loop-Apart chunks fd s e = subst (EndsWith (Apart cn s)) e (
      read_loop-keeps (Apart cn s) cn (λ t r. buffer-Apart t r) (λ e t. receive_event-Apart e t)
        chunks fd s (record { connections = refl; others = λ k h. refl }))

module _ ⦃host : Host⦄ (sender : Host) (cn : ℕ) where
  -- A piece has been read: its events are delivered, and the buffer is ready for what is to come.
  pub record Partly (chunks : List ByteArray) (es : List Event) (later : ByteArray) (s : Inbox)
      : Type 0 where
    pub here : List Event
    pub there : List Event
    pub split : es ≡ here ++ there
    pub inbox : Inbox
    pub ends :
        (last : LastCall) (fd : ℕ) → read_loop chunks last fd cn s ≡ read_loop [] last fd cn inbox
    pub delivered : Delivered cn here s inbox
    pub ready : Ready sender there later (inbox.m_buffer cn)
    pub waits : Waits there (inbox.m_buffer cn)

  pub read_piece :
      (chunks : List ByteArray) (es : List Event) (later : ByteArray) (s : Inbox)
      → Ready sender es (joined chunks ++ later) (s.m_buffer cn)
      → Waits es (s.m_buffer cn)
      → All IsSent es
      → s.connections.m_max_queue_size ≡ 0
      → Partly chunks es later s
  unfolding read_loop
  read_piece [] es later s v w good room = record {
    here = [];
    there = es;
    split = refl;
    inbox = s;
    ends = λ last fd. refl;
    delivered = deliver_none s.m_buffer;
    ready = v;
    waits = w;
  }
  read_piece (buf ∷ chunks) es later s v w good room =
      let v' : Ready sender es (buf ++ (joined chunks ++ later)) (s.m_buffer cn) =
        subst (λ l. Ready sender es l (s.m_buffer cn)) (append_assoc buf (joined chunks) later) v in
      let p = read_chunk_lem sender cn buf es (joined chunks ++ later) s v' good room in
      let good' : All IsSent p.there =
        All-append_right IsSent p.here p.there (subst (All IsSent) p.split good) in
      let rest =
        read_piece chunks p.there later p.inbox p.ready p.waits good'
          (p.delivered.unbounded ∙ room) in
      record {
        here = p.here ++ rest.here;
        there = rest.there;
        split =
            p.split
            ∙ ap (λ l. p.here ++ l) rest.split
            ∙ sym (append_assoc p.here rest.here rest.there);
        inbox = rest.inbox;
        ends = λ last fd. rw (read_loop, p.ends) (rest.ends last fd);
        delivered = deliver_append p.delivered rest.delivered;
        ready = rest.ready;
        waits = rest.waits;
      }
