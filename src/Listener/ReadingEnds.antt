-- ===== src/Listener/ReadingEnds.antt =====
-- `read_connection` on any bytes: its loops end.
use sednl.Base.{
  ◌≡◌, ◌≢◌, sym, ap, subst, ◌∙◌, arith, ℕ, zero, suc, ◌<◌, ◌≤◌, some, List, [], ◌∷◌, length, All,
  ByteArray, IsByte,
}
use sednl.Bytes.Host.{Host}
use sednl.RingBuf.Buffer.{RingBuf, used, put, pick_event, picked, nothing, outside, exhausted, Pick}
use sednl.RingBuf.Put.{IsValid, put_lem}
use sednl.RingBuf.Ends.{Settles, pick_event-Settles, put-IsByte}
use sednl.RingBuf.Progress.{Leaves, pick_event-Leaves}
use sednl.Listener.Attach.{update}
use sednl.Listener.Connections.{get_connection}
use sednl.Listener.Receive.{
  Inbox, receive_event, Ended, ended, undefined, unfinished, pick_events, read_chunk, read_loop,
  LastCall, would_block, failed, closed, read_connection,
}
use sednl.Listener.Delivery.{m_buffer-receive_event}
use sednl.Listener.Picking.{update_same}
use sednl.Listener.Reading.{read_connection-found}

-- A valid buffer, with bytes in its storage.
abbrev Sane : RingBuf → Type 0
Sane r = IsValid r × All IsByte r.m_dt

-- What `recv` may give at once.
abbrev pub IsChunk : ByteArray → Type 0
IsChunk buf = (length buf ≤ 512) × All IsByte buf

-- The loop has ended with such a buffer, or with a read outside an array.
abbrev Sound : ℕ → Ended → Type 0
Sound cn (ended s) = Sane (s.m_buffer cn)
Sound cn undefined = Unit
Sound cn unfinished = zero ≡ suc zero

module _ ⦃host : Host⦄ (cn : ℕ) where
  pick_events-Sound :
      (n : ℕ) (s : Inbox)
      → Sane (s.m_buffer cn)
      → used (s.m_buffer cn) < n
      → Sound cn (pick_events n cn s)
  unfolding pick_events
  pick_events-Sound zero s v h = absurd (omega arith)
  pick_events-Sound (suc n) s v h =
      by_pick (pick_event (s.m_buffer cn)) (λ t v' h'. pick_events-Sound n t v' h')
        (pick_event-Leaves v.0) (pick_event-Settles v.0 v.1)
    where
      by_pick :
          (p : Pick)
          → ((t : Inbox)
              → Sane (t.m_buffer cn)
              → used (t.m_buffer cn) < n
              → Sound cn (pick_events n cn t))
          → Leaves (s.m_buffer cn) p
          → Settles p
          → Sound cn (elim p [
            | picked e r ↦
                pick_events n cn
                  (receive_event cn e (record s { m_buffer = update s.m_buffer cn r }))
            | nothing r ↦ ended (record s { m_buffer = update s.m_buffer cn r })
            | outside ↦ undefined
            | exhausted ↦ unfinished
          ])
      by_pick (picked e r) rec (valid, less) all =
          let s' = record s { m_buffer = update s.m_buffer cn r } in
          let same : r ≡ (receive_event cn e s').m_buffer cn =
            sym (ap (λ f. f cn) (m_buffer-receive_event cn s' e) ∙ update_same s.m_buffer cn r) in
          rec (receive_event cn e s') (subst Sane same (valid, all)) (omega (arith, ap used same))
      by_pick (nothing r) rec valid all =
          subst Sane (sym (update_same s.m_buffer cn r)) (valid, all)
      by_pick outside rec l all = tt
      by_pick exhausted rec l never = never

  read_chunk-Sound :
      (buf : ByteArray) (s : Inbox)
      → Sane (s.m_buffer cn)
      → IsChunk buf
      → Sound cn (read_chunk cn buf s)
  unfolding read_chunk
  read_chunk-Sound buf s v short =
      let r = (put (s.m_buffer cn) buf).0 in
      let same = update_same s.m_buffer cn r in
      pick_events-Sound (suc (used r)) (record s { m_buffer = update s.m_buffer cn r })
        (subst Sane (sym same) (
          (put_lem buf v.0 (omega (arith, short.0))).0,
          put-IsByte (s.m_buffer cn) buf v.1 short.1,
        ))
        (omega (arith, ap used same))

  read_loop-Sound :
      (chunks : List ByteArray) (last : LastCall) (fd : ℕ) (s : Inbox)
      → Sane (s.m_buffer cn)
      → All IsChunk chunks
      → Sound cn (read_loop chunks last fd cn s)
  unfolding read_loop
  read_loop-Sound [] would_block fd s v short = v
  read_loop-Sound [] failed fd s v short = v
  read_loop-Sound [] closed fd s v short = v
  read_loop-Sound (buf ∷ chunks) last fd s v short =
      by_end (read_chunk cn buf s) (λ t v'. read_loop-Sound chunks last fd t v' short.1)
        (read_chunk-Sound buf s v short.0)
    where
      by_end :
          (o : Ended)
          → ((t : Inbox) → Sane (t.m_buffer cn) → Sound cn (read_loop chunks last fd cn t))
          → Sound cn o
          → Sound cn (elim o [
            | ended s' ↦ read_loop chunks last fd cn s'
            | undefined ↦ undefined
            | unfinished ↦ unfinished
          ])
      by_end (ended s') rec v' = rec s' v'
      by_end undefined rec v' = tt
      by_end unfinished rec v' = v'

-- Where the descriptor has a connection with a valid buffer of bytes, `read_connection` ends on any
-- bytes: neither the bound on the rounds of the inner loop, which `pick_event` controls, is reached, nor
-- that on the loops of `is_valid`.
pub read_connection-ends :
    ⦃host : Host⦄ (cn fd : ℕ) (chunks : List ByteArray) (last : LastCall) (s : Inbox)
    → get_connection fd s.connections ≡ some cn
    → IsValid (s.m_buffer cn)
    → All IsByte (s.m_buffer cn).m_dt
    → All IsChunk chunks
    → read_connection chunks last fd s ≢ unfinished
read_connection-ends cn fd chunks last s found v bytes short e = absurd (
    omega (
      arith,
      subst (Sound cn) (sym (read_connection-found chunks last fd s found) ∙ e)
          (read_loop-Sound cn chunks last fd s (v, bytes) short),
    ))
