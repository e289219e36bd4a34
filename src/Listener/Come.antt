-- ===== src/Listener/Come.antt =====
-- What the reading of one connection leaves in an inbox that several connections share.
use mathlib.Core.Bool.{true≢false}
use sednl.Base.{
  ◌≡◌, refl, sym, ap, ◌∙◌, subst, arith, ℕ, ◌==◌, true, false, List, [], ◌∷◌, ◌++◌, All, ByteArray,
  if◌then◌else◌, Bool-cases, inl, inr, ==_iff, Name,
}
use sednl.Event.Pack.{Event}
use sednl.RingBuf.Put.{contents}
use sednl.Listener.Attach.{contains}
use sednl.Listener.Receive.{Inbox, CnEvent, would_block, link_of}
use sednl.Listener.Delivery.{queue_of, named, is_awake}
use sednl.Listener.Picking.{joined}
use sednl.Listener.Loop.{Arrival}

-- The poller reports bytes on the descriptor of a connection, and `recv` gives them in these pieces.
pub record Read : Type 0 where
  pub fd : ℕ
  pub cn : ℕ
  pub chunks : List ByteArray

abbrev pub arrival : Read → Arrival
arrival r = record {
  event = record { fd = r.fd; is_close = false; is_read = true };
  chunks = r.chunks;
  last = would_block;
  accepted = [];
}

-- What arrives of a connection, in one piece.
abbrev pub arrived : ℕ → List Read → ByteArray
arrived cn [] = []
arrived cn (r ∷ reads) = (if r.cn == cn then joined r.chunks else []) ++ arrived cn reads

-- The events of one connection in a queue.
abbrev pub from : ℕ → List CnEvent → List CnEvent
from cn [] = []
from cn ((k, e) ∷ queue) = let rest = from cn queue in if k == cn then (k, e) ∷ rest else rest

-- What holds at one number and at all others.
pub each {κ} : (P : ℕ → Type κ) (k : ℕ) → P k → ((n : ℕ) → (n == k) ≡ false → P n) → (n : ℕ) → P n
each P k here others n = elim (Bool-cases (n == k)) [
  | inl same ↦ subst P (sym ((==_iff n k).0 same)) here
  | inr other ↦ others n other
]

pub contains_apart :
    (cns : List ℕ) (k cn : ℕ) → contains cns k ≡ true → contains cns cn ≡ false → (k == cn) ≡ false
contains_apart cns k cn here absent = elim (Bool-cases (k == cn)) [
  | inl same ↦ absurd (true≢false (sym here ∙ ap (contains cns) ((==_iff k cn).0 same) ∙ absent))
  | inr other ↦ other
]

pub from-append : (cn : ℕ) (q r : List CnEvent) → from cn (q ++ r) ≡ from cn q ++ from cn r
from-append cn [] r = refl
from-append cn ((k, e) ∷ q) r = ground (arith, from-append cn q r)

pub from-named :
    (cn k : ℕ) (name : Name) (es : List Event)
    → from cn (named k name es) ≡ (if k == cn then named cn name es else [])
from-named cn k name [] = ground arith
from-named cn k name (e ∷ es) = ground (arith, from-named cn k name es)

-- All events of the connection have come, and stand in the queues in the order of sending.
pub record Come (es : List Event) (cn : ℕ) (s t : Inbox) : Type 0 where
  pub queues :
      (name : Name) → from cn (queue_of t name) ≡ from cn (queue_of s name) ++ named cn name es
  pub woken : All (λ e. is_awake t (link_of s e.m_name) ≡ true) es
  pub emptied : contents (t.m_buffer cn) ≡ []
