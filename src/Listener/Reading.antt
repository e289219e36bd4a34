-- ===== src/Listener/Reading.antt =====
-- `read_connection` on the bytes of packed events, however the network cuts them.
use sednl.Base.{
  ◌≡◌, refl, sym, ap, ◌∙◌, subst, arith, ℕ, ◌+◌, ◌≤◌, some, List, [], ◌∷◌, ◌++◌, length, All,
  ByteArray, append-nil, All-append_right, length-append,
}
use sednl.Bytes.Host.{Host}
use sednl.Event.Pack.{Event, pack}
use sednl.Listener.Connections.{get_connection}
use sednl.RingBuf.Buffer.{RingBuf, used}
use sednl.RingBuf.Put.{IsValid, places, contents, length-contents}
use sednl.RingBuf.Pick.{length-pack}
use sednl.Listener.Picking.{stream, IsSent, Ready, Waits, joined}
use sednl.Listener.Pieces.{read_piece}
use sednl.Listener.Receive.{Inbox, ended, read_loop, LastCall, would_block, read_connection}
use sednl.Listener.Delivery.{Delivered}

module _ ⦃host : Host⦄ (sender : Host) (cn : ℕ) where
  -- A connection whose buffer is empty behind the delivered events.
  record Read (chunks : List ByteArray) (es : List Event) (fd : ℕ) (s : Inbox) : Type 0 where
    pub inbox : Inbox
    pub ends : (last : LastCall) → read_loop chunks last fd cn s ≡ read_loop [] last fd cn inbox
    pub delivered : Delivered cn es s inbox
    pub valid : IsValid (inbox.m_buffer cn)
    pub emptied : contents (inbox.m_buffer cn) ≡ []

  pub none_waiting :
      {r : RingBuf} (es : List Event)
      → Ready sender es [] r
      → Waits es r
      → All IsSent es
      → (es ≡ []) × (contents r ≡ [])
  none_waiting {r} [] v w good = (refl, sym (append-nil (contents r)) ∙ v.held)
  none_waiting {r} (e ∷ es) v w good = absurd (
      omega (
        arith,
        w,
        length-pack ⦃host = sender⦄ e good.0.0,
        ap length v.held,
        length-append (contents r) [],
        length-append (pack ⦃host = sender⦄ e) (stream sender es),
        (length-contents v.valid).0,
      ))

  read_loop_lem :
      (chunks : List ByteArray) (es : List Event) (fd : ℕ) (s : Inbox)
      → Ready sender es (joined chunks) (s.m_buffer cn)
      → Waits es (s.m_buffer cn)
      → All IsSent es
      → s.connections.m_max_queue_size ≡ 0
      → Read chunks es fd s
  read_loop_lem chunks es fd s v w good room =
      let v' : Ready sender es (joined chunks ++ []) (s.m_buffer cn) =
        subst (λ l. Ready sender es l (s.m_buffer cn)) (sym (append-nil (joined chunks))) v in
      let p = read_piece sender cn chunks es [] s v' w good room in
      let (none_left, empty) =
        none_waiting p.there p.ready p.waits
          (All-append_right IsSent p.here p.there (subst (All IsSent) p.split good)) in
      record {
        inbox = p.inbox;
        ends = λ last. p.ends last fd;
        delivered =
            subst (λ l. Delivered cn l s p.inbox)
              (sym (p.split ∙ ap (λ l. p.here ++ l) none_left ∙ append-nil p.here)) p.delivered;
        valid = p.ready.valid;
        emptied = empty;
      }

pub empty-Waits : (r : RingBuf) (es : List Event) → used r ≡ 0 → Waits es r
empty-Waits r [] h = tt
empty-Waits r (e ∷ es) h = omega (arith, h)

module _ ⦃host : Host⦄ where
  pub read_connection-found :
      (chunks : List ByteArray) (last : LastCall) (fd : ℕ) (s : Inbox) {cn : ℕ}
      → get_connection fd s.connections ≡ some cn
      → read_connection chunks last fd s ≡ read_loop chunks last fd cn s
  unfolding read_connection
  read_connection-found chunks last fd s found = rw (read_connection, found) refl

  -- However the network cuts the bytes of packed events, each of which can be sent: into an empty
  -- buffer in which they have room in one piece, and with queues without a bound, `read_connection`
  -- reads them to the last byte. Each event goes to the end of the queue of its name, in the order
  -- of sending, and its consumer is woken.
  read_connection-stream :
      (sender : Host) (cn fd : ℕ) (chunks : List ByteArray) (es : List Event) (s : Inbox)
      → get_connection fd s.connections ≡ some cn
      → IsValid (s.m_buffer cn)
      → contents (s.m_buffer cn) ≡ []
      → joined chunks ≡ stream sender es
      → (s.m_buffer cn).m_start + length (stream sender es) ≤ places (s.m_buffer cn)
      → length (stream sender es) ≤ (s.m_buffer cn).m_size
      → All IsSent es
      → s.connections.m_max_queue_size ≡ 0
      → (s' : Inbox) × (read_connection chunks would_block fd s ≡ ended s')
        × Delivered cn es s s'
        × (contents (s'.m_buffer cn) ≡ [])
  unfolding read_loop
  read_connection-stream sender cn fd chunks es s found v empty same fits space good room =
      let ready : Ready sender es (joined chunks) (s.m_buffer cn) = record {
        valid = v;
        held = ap (λ l. l ++ joined chunks) empty ∙ same;
        fits = fits;
        space = space;
      } in
      let read =
        read_loop_lem sender cn chunks es fd s ready
          (empty-Waits (s.m_buffer cn) es (omega (arith, (length-contents v).0, ap length empty)))
          good room in
      (
        read.inbox,
        read_connection-found chunks would_block fd s found ∙ read.ends would_block,
        read.delivered,
        read.emptied,
      )
