-- ===== src/Listener/Flow.antt =====
-- Several connections in the middle of what they send, and one read of the event loop.
use sednl.Base.{
  ◌≡◌, refl, sym, ap, ◌∙◌, subst, arith, ℕ, ◌+◌, ◌≤◌, ◌==◌, true, false, Option, some, List, [],
  ◌∷◌, ◌++◌, length, All, All-map, All-append, All-append_right, ByteArray, append_assoc,
  append-nil, if◌then◌else◌, Name,
}
use sednl.Bytes.Host.{Host}
use sednl.Event.Pack.{Event}
use sednl.RingBuf.Buffer.{RingBuf}
use sednl.RingBuf.Put.{IsValid, places, contents}
use sednl.Listener.Attach.{update, contains}
use sednl.Listener.Connections.{get_connection}
use sednl.Listener.Receive.{Inbox, ended, read_loop, would_block, link_of}
use sednl.Listener.Delivery.{queue_of, named, named-append, is_awake, Delivered}
use sednl.Listener.Picking.{stream, IsSent, Ready, Waits, joined, update_same}
use sednl.Listener.Pieces.{Partly, read_piece, read_loop-Apart}
use sednl.Listener.Reading.{read_connection-found}
use sednl.Listener.Accept.{is_server}
use sednl.Listener.Loop.{EventListener, looped, handle_event}
use sednl.Listener.Come.{Read, arrival, arrived, from, each, from-append, from-named, Come}

module _ {s u : Inbox} {k : ℕ} {here : List Event} (d : Delivered k here s u) where
  from-Delivered :
      (cn : ℕ) (name : Name)
      → from cn (queue_of u name)
        ≡ from cn (queue_of s name) ++ (if k == cn then named cn name here else [])
  from-Delivered cn name =
      ap (from cn) (d.queues name)
      ∙ from-append cn (queue_of s name) (named k name here)
      ∙ ap (λ l. from cn (queue_of s name) ++ l) (from-named cn k name here)

  pub from-foreign :
      (cn : ℕ) (name : Name)
      → (k == cn) ≡ false
      → from cn (queue_of u name) ≡ from cn (queue_of s name)
  from-foreign cn name apart =
      from-Delivered cn name
      ∙ ap (λ b. from cn (queue_of s name) ++ (if b then named cn name here else [])) apart
      ∙ append-nil (from cn (queue_of s name))

  linked :
      (t : Inbox) (es : List Event)
      → All (λ e. is_awake t (link_of u e.m_name) ≡ true) es
      → All (λ e. is_awake t (link_of s e.m_name) ≡ true) es
  linked t es =
      All-map (λ e. is_awake t (link_of u e.m_name) ≡ true)
        (λ e. is_awake t (link_of s e.m_name) ≡ true)
        (λ e h. ap (is_awake t) (sym (d.links e.m_name)) ∙ h) es

  Come-own :
      (t : Inbox) (es there : List Event)
      → es ≡ here ++ there
      → ((link : Option ℕ) → is_awake u link ≡ true → is_awake t link ≡ true)
      → Come there k u t
      → Come es k s t
  Come-own t es there split awake c =
      let self : (k == k) ≡ true = ground arith in
      subst (λ l. Come l k s t) (sym split)
        (record {
          queues = λ name.
              c.queues name
              ∙ ap (λ l. l ++ named k name there)
                  (from-Delivered k name
                    ∙ ap (λ b. from k (queue_of s name) ++ (if b then named k name here else []))
                        self)
              ∙ append_assoc (from k (queue_of s name)) (named k name here) (named k name there)
              ∙ ap (λ l. from k (queue_of s name) ++ l) (sym (named-append k name here there));
          woken =
              All-append (λ e. is_awake t (link_of s e.m_name) ≡ true) here there
                (All-map (λ e. is_awake u (link_of s e.m_name) ≡ true)
                  (λ e. is_awake t (link_of s e.m_name) ≡ true)
                  (λ e h. awake (link_of s e.m_name) h) here d.woken)
                (linked t there c.woken);
          emptied = c.emptied;
        })

  Come-other :
      (t : Inbox) (es : List Event) (cn : ℕ) → (k == cn) ≡ false → Come es cn u t → Come es cn s t
  Come-other t es cn apart c = record {
    queues = λ name. c.queues name ∙ ap (λ l. l ++ named cn name es) (from-foreign cn name apart);
    woken = linked t es c.woken;
    emptied = c.emptied;
  }

module _ ⦃host : Host⦄ where
  -- A connection whose buffer is empty sends these events, each of which can be sent, and all their
  -- bytes arrive. They have room in the buffer in one piece.
  pub record Sends (sender : Host) (es : List Event) (bytes : ByteArray) (r : RingBuf)
      : Type 0 where
    pub valid : IsValid r
    pub emptied : contents r ≡ []
    pub whole : bytes ≡ stream sender es
    pub fits : r.m_start + length (stream sender es) ≤ places r
    pub space : length (stream sender es) ≤ r.m_size
    pub sent : All IsSent es

  -- Each read is on the descriptor of one of the connections, and not on a server's.
  abbrev pub IsRead : List ℕ → EventListener → Read → Type 0
  IsRead cns s r =
      (contains cns r.cn ≡ true)
      × (get_connection r.fd s.inbox.connections ≡ some r.cn)
      × (is_server r.fd s.servers ≡ false)

  module _ (sender : ℕ → Host) (cns : List ℕ) where
    -- A connection in the middle of what it sends: its events and bytes that are to come.
    abbrev pub Stage : ℕ → List Event → ByteArray → RingBuf → Type 0
    Stage cn es bytes r = Ready (sender cn) es bytes r × Waits es r × All IsSent es

    pub record Flow (es : ℕ → List Event) (reads : List Read) (s : EventListener) : Type 0 where
      pub stages :
          (cn : ℕ)
          → contains cns cn ≡ true
          → Stage cn (es cn) (arrived cn reads) (s.inbox.m_buffer cn)
      pub room : s.inbox.connections.m_max_queue_size ≡ 0
      pub known : All (IsRead cns s) reads

    pub read_step :
        (size : ℕ) (r : Read) (s : EventListener) {inbox : Inbox}
        → IsRead cns s r
        → read_loop r.chunks would_block r.fd r.cn s.inbox ≡ ended inbox
        → handle_event size (arrival r) s ≡ looped (record s { inbox = inbox })
    unfolding handle_event
    read_step size r s (member, found, other) read =
        rw (other, read_connection-found r.chunks would_block r.fd s.inbox found, read) refl

    module _ (r : Read) (reads : List Read) (es : ℕ → List Event) (s : EventListener) where
      pub read_first :
          Flow es (r ∷ reads) s
          → Partly (sender r.cn) r.cn r.chunks (es r.cn) (arrived r.cn reads) s.inbox
      read_first f =
          let self : (r.cn == r.cn) ≡ true = ground arith in
          let (ready, waits, sent) = f.stages r.cn f.known.0.0 in
          read_piece (sender r.cn) r.cn r.chunks (es r.cn) (arrived r.cn reads) s.inbox
            (subst
              (λ b.
                Ready (sender r.cn) (es r.cn)
                  ((if b then joined r.chunks else []) ++ arrived r.cn reads)
                  (s.inbox.m_buffer r.cn))
              self ready)
            waits sent f.room

      module _ (p : Partly (sender r.cn) r.cn r.chunks (es r.cn) (arrived r.cn reads) s.inbox) where
        pub ends_with : read_loop r.chunks would_block r.fd r.cn s.inbox ≡ ended p.inbox
        unfolding read_loop
        ends_with = p.ends would_block r.fd

        pub Flow-step :
            Flow es (r ∷ reads) s
            → Flow (update es r.cn p.there) reads (record s { inbox = p.inbox })
        Flow-step f =
            let apart = read_loop-Apart r.cn r.chunks r.fd s.inbox ends_with in
            record {
              stages =
                  each
                    (λ k.
                      contains cns k ≡ true
                      → Stage k (update es r.cn p.there k) (arrived k reads) (p.inbox.m_buffer k))
                    r.cn
                    (λ m.
                      subst (λ l. Stage r.cn l (arrived r.cn reads) (p.inbox.m_buffer r.cn))
                        (sym (update_same es r.cn p.there))
                        (
                          p.ready,
                          p.waits,
                          All-append_right IsSent p.here p.there
                              (subst (All IsSent) p.split (f.stages r.cn m).2),
                        ))
                    (λ k other m.
                      let foreign : (r.cn == k) ≡ false = ground arith in
                      rw (other, apart.others k other)
                        (subst
                          (λ b.
                            Stage k (es k) ((if b then joined r.chunks else []) ++ arrived k reads)
                              (s.inbox.m_buffer k))
                          foreign (f.stages k m)));
              room = p.delivered.unbounded ∙ f.room;
              known =
                  All-map (IsRead cns s) (IsRead cns (record s { inbox = p.inbox }))
                    (λ q known.
                      (known.0, ap (get_connection q.fd) apart.connections ∙ known.1, known.2))
                    reads f.known.1;
            }

        -- The events that come later, behind those of this read.
        pub Come-step :
            (t : Inbox)
            → ((link : Option ℕ) → is_awake p.inbox link ≡ true → is_awake t link ≡ true)
            → (cn : ℕ) → Come (update es r.cn p.there cn) cn p.inbox t
            → Come (es cn) cn s.inbox t
        Come-step t awake =
            each (λ k. Come (update es r.cn p.there k) k p.inbox t → Come (es k) k s.inbox t) r.cn
              (λ c.
                Come-own p.delivered t (es r.cn) p.there p.split awake
                  (subst (λ l. Come l r.cn p.inbox t) (update_same es r.cn p.there) c))
              (λ k other c.
                let apart : (r.cn == k) ≡ false = ground arith in
                Come-other p.delivered t (es k) k apart (rw other at c))
