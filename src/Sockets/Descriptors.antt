-- ===== src/Sockets/Descriptors.antt =====
-- Which descriptors `connect` leaves open.
use sednl.Base.{◌≡◌, ◌⊎◌, ℕ, Bool, true, Option, none, some, List, [], ◌∷◌, ◌++◌, zero, suc}
use sednl.Exceptions.{
  invalid_socket_address, cant_retrieve_host, bind_failed, cant_set_nonblocking, listen_failed,
  timed_out, connect_failed, Result, ok, thrown, fault, undefined,
}
use sednl.Sockets.Address.{Lookup, found, again}
use sednl.Sockets.Connect.{Socket, Failure, network, bad_alloc, Connect}

-- From `s` to `t`, all the sockets that were opened have been closed.
pub record AllClosed (s t : Socket) : Type 0 where
  pub tried : List ℕ
  pub opened_is : t.opened ≡ s.opened ++ tried
  pub closed_is : t.closed ≡ s.closed ++ tried
  pub m_fd_is : t.m_fd ≡ s.m_fd
  pub m_connected_is : t.m_connected ≡ s.m_connected

-- All but the last of them, `fd`; `m_fd` and `m_connected` are as given.
pub record AllButOne (fd : ℕ) (m_fd : Option ℕ) (m_connected : Bool) (s t : Socket) : Type 0 where
  pub tried : List ℕ
  pub opened_is : t.opened ≡ s.opened ++ (tried ++ (fd ∷ []))
  pub closed_is : t.closed ≡ s.closed ++ tried
  pub m_fd_is : t.m_fd ≡ m_fd
  pub m_connected_is : t.m_connected ≡ m_connected

-- The list that a first call of `getaddrinfo` gives is freed, and still used, if a second call fails
-- with `EAI_AGAIN`, or gives the same list.
abbrev pub Freed : Lookup → Lookup → Type 0
Freed first second = (p : ℕ) × (first ≡ found p) × ((second ≡ again) ⊎ (second ≡ found p))

-- How `connect` ends: with the socket that it leaves open in `m_fd`; with an exception and no socket
-- open; or, if a bound socket cannot be made non-blocking or listen, with an exception and that socket
-- open, which no object knows. Its behaviour is undefined only with a list that is freed.
abbrev pub Accounts : Lookup → Lookup → Socket → Result Failure Socket (Unit {0}) → Type 0
Accounts first second s (ok a t) = (fd : ℕ) × AllButOne fd (some fd) true s t
Accounts first second s (thrown bad_alloc t) = t ≡ s
Accounts first second s (thrown (network invalid_socket_address) t) = t ≡ s
Accounts first second s (thrown (network cant_retrieve_host) t) = t ≡ s
Accounts first second s (thrown (network bind_failed) t) = AllClosed s t
Accounts first second s (thrown (network cant_set_nonblocking) t) =
    (fd : ℕ) × AllButOne fd s.m_fd s.m_connected s t
Accounts first second s (thrown (network listen_failed) t) =
    (fd : ℕ) × AllButOne fd s.m_fd s.m_connected s t
Accounts first second s (fault undefined) = Freed first second
Accounts first second s _ = zero ≡ suc zero

-- How a client's `connect` ends: with the socket that it leaves open in `m_fd`, or with an exception
-- and no socket open. Its behaviour is undefined only with a list that is freed.
abbrev pub AccountsAll : Lookup → Lookup → Socket → Result Failure Socket (Unit {0}) → Type 0
AccountsAll first second s (ok a t) = (fd : ℕ) × AllButOne fd (some fd) true s t
AccountsAll first second s (thrown bad_alloc t) = t ≡ s
AccountsAll first second s (thrown (network invalid_socket_address) t) = t ≡ s
AccountsAll first second s (thrown (network cant_retrieve_host) t) = t ≡ s
AccountsAll first second s (thrown (network timed_out) t) = AllClosed s t
AccountsAll first second s (thrown (network connect_failed) t) = AllClosed s t
AccountsAll first second s (fault undefined) = Freed first second
AccountsAll first second s _ = zero ≡ suc zero

-- The loop over the addresses.
abbrev Tried : Socket → Option ℕ × Socket → Type 0
Tried s (none, t) = AllClosed s t
Tried s (some fd, t) = AllButOne fd s.m_fd s.m_connected s t
