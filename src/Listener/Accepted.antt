-- ===== src/Listener/Accepted.antt =====
-- What `accept_connections` and `close_server` do to the listener.
use sednl.Base.{
  ◌≡◌, refl, sym, ap, ◌∙◌, arith, ℕ, ◌==◌, ltb, Bool, true, false, Option, none, some, List, [],
  ◌∷◌, if◌then◌else◌, Bool-cases, Option-cases, inl, inr, ==_iff, All,
}
use mathlib.Core.Option.{none-ne-some}
use sednl.Listener.Attach.{update, contains}
use sednl.Listener.Connections.{
  Connections, find_external, find_internal, get_connection, disconnect,
}
use sednl.Listener.Disconnect.{disconnect-accepted}
use sednl.Listener.Accept.{
  Accepting, Accepted, emplace, call_on_connect, create_connection, Accepts, accepts, aborted,
  accept_connections,
}

find_internal-emplace :
    (list : List (ℕ × ℕ)) (cfd cn k : ℕ)
    → find_internal list cfd ≡ none
    → find_internal (emplace list cfd cn) k ≡ (if cfd == k then some cn else find_internal list k)
unfolding find_internal emplace
find_internal-emplace [] cfd cn k h = refl
find_internal-emplace ((j, c) ∷ list) cfd cn k h =
    let apart : (j == cfd) ≡ false = ground arith in
    let rest : find_internal list cfd ≡ none = ground arith in
    let later = find_internal-emplace list cfd cn k rest in
    elim (Bool-cases (ltb cfd j)) [
      | inl below ↦ rw below refl
      | inr above ↦ rw above (ground (arith, later))
    ]

-- The connection at an address that is not attached does not matter to the attached ones.
find_external-update :
    (m_fd : ℕ → Option ℕ) (list : List ℕ) (cn fd : ℕ) (o : Option ℕ)
    → contains list cn ≡ false
    → find_external (update m_fd cn o) list fd ≡ find_external m_fd list fd
unfolding find_external contains
find_external-update m_fd [] cn fd o h = refl
find_external-update m_fd (x ∷ list) cn fd o h =
    let apart : (x == cn) ≡ false = ground arith in
    let rest : contains list cn ≡ false = ground arith in
    rw (apart, find_external-update m_fd list cn fd o rest) refl

connections-call_on_connect :
    (cn : ℕ) (t : Accepting) → (call_on_connect cn t).connections ≡ t.connections
unfolding call_on_connect
connections-call_on_connect cn t = elim (Option-cases t.m_on_connect_slot) [
  | inl e ↦ rw (call_on_connect, e) refl
  | inr (f, e) ↦ rw (call_on_connect, e) refl
]

-- What the steps of a new connection leave of the rest.
create_connection-connections :
    (size cfd cn : ℕ) (s : Accepting)
    → (create_connection size cfd cn s).connections ≡ record s.connections {
      m_internal_connections = emplace s.connections.m_internal_connections cfd cn;
      m_fd = update s.connections.m_fd cn (some cfd);
      m_connected = update s.connections.m_connected cn true;
    }
unfolding create_connection
create_connection-connections size cfd cn s = connections-call_on_connect cn _

get_connection-create :
    (size cfd cn k : ℕ) (s : Accepting)
    → find_external s.connections.m_fd s.connections.m_connections cfd ≡ none
    → find_internal s.connections.m_internal_connections cfd ≡ none
    → contains s.connections.m_connections cn ≡ false
    → get_connection k (create_connection size cfd cn s).connections
      ≡ (if cfd == k then some cn else get_connection k s.connections)
unfolding get_connection
get_connection-create size cfd cn k s outside inside apart =
    ap (get_connection k) (create_connection-connections size cfd cn s)
    ∙ ap (λ o. first o (find_internal (emplace s.connections.m_internal_connections cfd cn) k))
        (find_external-update s.connections.m_fd s.connections.m_connections cn k (some cfd) apart)
    ∙ ap (first (find_external s.connections.m_fd s.connections.m_connections k))
        (find_internal-emplace s.connections.m_internal_connections cfd cn k inside)
    ∙ by_key (cfd == k) refl
  where
    first : Option ℕ → Option ℕ → Option ℕ
    first o p = elim o [ some c ↦ some c | none ↦ p ]

    by_key :
        (b : Bool)
        → (cfd == k) ≡ b
        → first
            (find_external s.connections.m_fd s.connections.m_connections k)
            (if b then some cn else find_internal s.connections.m_internal_connections k)
          ≡ (if b
              then some cn
              else first
                  (find_external s.connections.m_fd s.connections.m_connections k)
                  (find_internal s.connections.m_internal_connections k))
    by_key true e =
        ap (λ o. first o (some cn))
          (ap (find_external s.connections.m_fd s.connections.m_connections)
              (sym ((==_iff cfd k).0 e))
            ∙ outside)
    by_key false e = refl

get_connection-none :
    (fd : ℕ) (c : Connections)
    → find_external c.m_fd c.m_connections fd ≡ none
    → find_internal c.m_internal_connections fd ≡ none
    → get_connection fd c ≡ none
unfolding get_connection
get_connection-none fd c outside inside = rw (get_connection, outside) inside

abbrev result_or : Accepting → Accepts → Accepting
result_or s (accepts t) = t
result_or s aborted = s

-- Each descriptor that `accept` gives is new to the listener when it comes, and can be set up.
abbrev pub AllNew : ℕ → List Accepted → Accepting → Type 0
AllNew size [] s = Unit
AllNew size (a ∷ list) s =
    (a.non_blocking ≡ true)
    × (a.polled ≡ true)
    × (find_external s.connections.m_fd s.connections.m_connections a.cfd ≡ none)
    × (find_internal s.connections.m_internal_connections a.cfd ≡ none)
    × (contains s.connections.m_connections a.address ≡ false)
    × AllNew size list (create_connection size a.cfd a.address s)

accept_connections-step :
    (size : ℕ) (a : Accepted) (list : List Accepted) (s : Accepting)
    → a.non_blocking ≡ true
    → a.polled ≡ true
    → find_internal s.connections.m_internal_connections a.cfd ≡ none
    → accept_connections size (a ∷ list) s
      ≡ accept_connections size list (create_connection size a.cfd a.address s)
unfolding accept_connections
accept_connections-step size a list s quick polled new = rw (quick, polled, new) refl

-- A connection that the listener has is one that it keeps, whatever is accepted.
accept_connections-keeps :
    (size : ℕ) (list : List Accepted) (s : Accepting) (k cn : ℕ)
    → AllNew size list s
    → get_connection k s.connections ≡ some cn
    → (t : Accepting) × (accept_connections size list s ≡ accepts t)
      × (get_connection k t.connections ≡ some cn)
accept_connections-keeps size [] s k cn new h = (s, unfold accept_connections in refl, h)
accept_connections-keeps size (a ∷ list) s k cn (quick, polled, outside, inside, apart, new) h =
    elim (Bool-cases (a.cfd == k)) [
      | inl e ↦ absurd (
          none-ne-some cn (
            sym (get_connection-none a.cfd s.connections outside inside)
            ∙ ap (λ i. get_connection i s.connections) ((==_iff a.cfd k).0 e)
            ∙ h))
      | inr e ↦
          let kept =
            get_connection-create size a.cfd a.address k s outside inside apart
            ∙ ap (λ b. if b then some a.address else get_connection k s.connections) e
            ∙ h in
          let (t, p, there) =
            accept_connections-keeps size list (create_connection size a.cfd a.address s) k cn new
              kept in
          (t, accept_connections-step size a list s quick polled inside ∙ p, there)
    ]

-- `accept_connections` takes every descriptor that `accept` gives, if each is new to the listener and
-- can be set up: afterwards the listener finds the new connection by it.
pub accept_connections-get_connection :
    (size : ℕ) (list : List Accepted) (s : Accepting)
    → AllNew size list s
    → (t : Accepting) × (accept_connections size list s ≡ accepts t)
      × All (λ a. get_connection a.cfd t.connections ≡ some a.address) list
accept_connections-get_connection size [] s new = (s, unfold accept_connections in refl, tt)
accept_connections-get_connection size (a ∷ list) s (quick, polled, outside, inside, apart, new) =
    let u = create_connection size a.cfd a.address s in
    let self : (a.cfd == a.cfd) ≡ true = ground arith in
    let made =
      get_connection-create size a.cfd a.address a.cfd s outside inside apart
      ∙ ap (λ b. if b then some a.address else get_connection a.cfd s.connections) self in
    let (t, p, rest) = accept_connections-get_connection size list u new in
    let (t', p', there) = accept_connections-keeps size list u a.cfd a.address new made in
    let same : t' ≡ t = ap (result_or t) (sym p' ∙ p) in
    (
      t,
      accept_connections-step size a list s quick polled inside ∙ p,
      (ap (λ v. get_connection a.cfd v.connections) (sym same) ∙ there, rest),
    )

-- A descriptor that the listener still has for a connection stops the program when `accept` gives it
-- again.
accept-known :
    (size : ℕ) (a : Accepted) (list : List Accepted) (s : Accepting) (cn : ℕ)
    → a.non_blocking ≡ true
    → a.polled ≡ true
    → find_internal s.connections.m_internal_connections a.cfd ≡ some cn
    → accept_connections size (a ∷ list) s ≡ aborted
unfolding accept_connections
accept-known size a list s cn quick polled known = rw (quick, polled, known) refl

-- While a connection is attached to the listener, one that it accepted disconnects, which closes its
-- descriptor. When `accept` gives the same descriptor again, the program stops at the assertion.
pub accept_connections-disconnect :
    (size : ℕ) (a : Accepted) (list : List Accepted) (s : Accepting) (cn x : ℕ) (attached : List ℕ)
    → s.connections.m_connections ≡ x ∷ attached
    → contains (x ∷ attached) cn ≡ false
    → find_internal s.connections.m_internal_connections a.cfd ≡ some cn
    → a.non_blocking ≡ true
    → a.polled ≡ true
    → accept_connections size (a ∷ list) (record s { connections = disconnect cn s.connections })
      ≡ aborted
accept_connections-disconnect size a list s cn x attached e absent known quick polled =
    accept-known size a list (record s { connections = disconnect cn s.connections }) cn quick
      polled
      (ap (λ l. find_internal l a.cfd) (disconnect-accepted cn x attached s.connections e absent).1
        ∙ known)
