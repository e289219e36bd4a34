-- ===== src/Listener/Interleaved.antt =====
-- The event loop while several connections send at once.
use mathlib.Core.List.{map}
use sednl.Base.{
  ◌≡◌, refl, sym, ap, ◌∙◌, subst, arith, ℕ, true, false, Option, List, [], ◌∷◌, ◌++◌, length, All,
  append-nil, Name,
}
use sednl.Bytes.Host.{Host}
use sednl.Event.Pack.{Event}
use sednl.RingBuf.Buffer.{RingBuf}
use sednl.RingBuf.Put.{length-contents}
use sednl.Listener.Attach.{update, contains}
use sednl.Listener.Receive.{Inbox, ended, read_loop, would_block, link_of, receive_event}
use sednl.Listener.Delivery.{queue_of, named, is_awake, deliver_one}
use sednl.Listener.Pieces.{read_loop-keeps, EndsWith}
use sednl.Listener.Reading.{none_waiting, empty-Waits}
use sednl.Listener.Loop.{EventListener, looped, event_loop}
use sednl.Listener.Come.{Read, arrival, arrived, from, Come, contains_apart}
use sednl.Listener.Flow.{
  Sends, IsRead, Flow, read_first, ends_with, Flow-step, Come-step, read_step, from-foreign,
}

module _ ⦃host : Host⦄ where
  module _ (sender : ℕ → Host) (cns : List ℕ) where
    -- What each change of a buffer keeps, and each event that is received, the event loop keeps.
    module _ (P : Inbox → Type 0)
        (buffer : (cn : ℕ) (t : Inbox) (r : RingBuf)
          → P t
          → P (record t { m_buffer = update t.m_buffer cn r }))
        (event : (cn : ℕ) (e : Event) (t : Inbox)
          → t.connections.m_max_queue_size ≡ 0
          → P t
          → P (receive_event cn e t)) where
      -- The loop has ended, and all events of the connections have come, and no others.
      pub record AllCome (size : ℕ) (es : ℕ → List Event) (reads : List Read) (s : EventListener)
          : Type 0 where
        pub end : EventListener
        pub ends : event_loop size (map arrival reads) s ≡ looped end
        pub awake :
            (link : Option ℕ) → is_awake s.inbox link ≡ true → is_awake end.inbox link ≡ true
        pub come : (cn : ℕ) → contains cns cn ≡ true → Come (es cn) cn s.inbox end.inbox
        pub others :
            (cn : ℕ)
            → contains cns cn ≡ false
            → (name : Name) → from cn (queue_of end.inbox name) ≡ from cn (queue_of s.inbox name)
        pub keeps : P s.inbox → P end.inbox

      keeps_step :
          (r : Read) (s : EventListener) {inbox : Inbox}
          → s.inbox.connections.m_max_queue_size ≡ 0
          → read_loop r.chunks would_block r.fd r.cn s.inbox ≡ ended inbox
          → P s.inbox
          → P inbox
      keeps_step r s room e h =
          let Q : Inbox → Type 0 = λ t. (t.connections.m_max_queue_size ≡ 0) × P t in
          (subst (EndsWith Q) e (
            read_loop-keeps Q r.cn (λ t b q. (q.0, buffer r.cn t b q.1))
              (λ e t q. ((deliver_one r.cn e q.0).unbounded ∙ q.0, event r.cn e t q.0 q.1)) r.chunks
              r.fd s.inbox (room, h))).1

      pub all_come :
          (size : ℕ) (reads : List Read) (es : ℕ → List Event) (s : EventListener)
          → Flow sender cns es reads s
          → AllCome size es reads s
      unfolding event_loop
      all_come size [] es s f = record {
        end = s;
        ends = refl;
        awake = λ link h. h;
        come = λ cn m.
            let (ready, waits, sent) = f.stages cn m in
            let (none_left, empty) = none_waiting (sender cn) cn (es cn) ready waits sent in
            record {
              queues = λ name. sym (
                  ap (λ l. from cn (queue_of s.inbox name) ++ named cn name l) none_left
                  ∙ append-nil (from cn (queue_of s.inbox name)));
              woken =
                  subst (All (λ e. is_awake s.inbox (link_of s.inbox e.m_name) ≡ true))
                    (sym none_left) tt;
              emptied = empty;
            };
        others = λ cn m name. refl;
        keeps = λ h. h;
      }
      all_come size (r ∷ reads) es s f =
          let p = read_first sender cns r reads es s f in
          let rest =
            all_come size reads (update es r.cn p.there) (record s { inbox = p.inbox })
              (Flow-step sender cns r reads es s p f) in
          record {
            end = rest.end;
            ends =
                rw
                  (
                    read_step sender cns size r s f.known.0 (ends_with sender cns r reads es s p),
                    event_loop,
                  )
                  rest.ends;
            awake = λ link h. rest.awake link (p.delivered.awake link h);
            come = λ cn m.
                Come-step sender cns r reads es s p rest.end.inbox rest.awake cn (rest.come cn m);
            others = λ cn m name.
                rest.others cn m name
                ∙ from-foreign p.delivered cn name (contains_apart cns r.cn cn f.known.0.0 m);
            keeps = λ h. rest.keeps (keeps_step r s f.room (ends_with sender cns r reads es s p) h);
          }

    pub Flow-start :
        (reads : List Read) (es : ℕ → List Event) (s : EventListener)
        → ((cn : ℕ)
            → contains cns cn ≡ true
            → Sends (sender cn) (es cn) (arrived cn reads) (s.inbox.m_buffer cn))
        → All (IsRead cns s) reads
        → s.inbox.connections.m_max_queue_size ≡ 0
        → Flow sender cns es reads s
    Flow-start reads es s sends known room = record {
      stages = λ cn m.
          let v = sends cn m in
          (
            record {
              valid = v.valid;
              held = ap (λ l. l ++ arrived cn reads) v.emptied ∙ v.whole;
              fits = v.fits;
              space = v.space;
            },
            empty-Waits (s.inbox.m_buffer cn) (es cn)
                (omega (arith, (length-contents v.valid).0, ap length v.emptied)),
            v.sent,
          );
      room = room;
      known = known;
    }
