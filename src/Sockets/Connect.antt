-- ===== src/Sockets/Connect.antt =====
-- `TCPServer::connect` and `TCPClient::connect`.
use sednl.Base.{
  ℕ, ◌==◌, Bool, true, false, not, Option, none, some, List, [], ◌∷◌, ◌++◌, if◌then◌else◌,
}
use sednl.Exceptions.{
  NetworkExceptionT, invalid_socket_address, bind_failed, cant_set_nonblocking, listen_failed,
  timed_out, connect_failed, cant_retrieve_host, M, ok, thrown, fault, undefined,
}
use sednl.Listener.Attach.{contains}
use sednl.Sockets.Address.{
  Lookup, Retrieved, retrieved, retrieve_addresses, SocketAddress, is_client_valid, is_server_valid,
}

-- The object's `m_connected` and `m_fd`, the descriptors that `socket` gave, and those closed.
pub record Socket : Type 0 where
  pub m_connected : Bool
  pub m_fd : Option ℕ
  pub opened : List ℕ
  pub closed : List ℕ

abbrev pub open_fd : ℕ → Socket → Socket
open_fd fd s = record s { opened = s.opened ++ (fd ∷ []) }

abbrev pub close_fd : ℕ → Socket → Socket
close_fd fd s = record s { closed = s.closed ++ (fd ∷ []) }

-- An address, by what `socket` gives for it, and whether this socket can be bound or connected.
abbrev pub Candidate : Type 0
Candidate = Option ℕ × Bool

-- The loop over the addresses: the descriptor that it ends with, if any.
unfoldable pub try_addresses : List Candidate → Socket → Option ℕ × Socket
try_addresses [] s = (none, s)
try_addresses ((none, usable) ∷ addrs) s = try_addresses addrs s
try_addresses ((some fd, usable) ∷ addrs) s =
    let rest = try_addresses addrs (close_fd fd (open_fd fd s)) in
    if usable then (some fd, open_fd fd s) else rest

-- What `connect` throws.
pub data Failure : Type 0 where
  network : NetworkExceptionT → Failure
  bad_alloc : Failure

abbrev pub Connect : Type 0
Connect = M Failure Socket (Unit {0})

-- `retrieve_addresses`, over what `getaddrinfo` gives, and what follows it, for the list of addresses
-- that `addrs` points to. `none` is a null pointer, which ends a loop over addresses at once. A list
-- that `freeaddrinfo` has got is not there any more.
unfoldable pub with_addresses : Lookup → Lookup → (Option ℕ → Connect) → Connect
unfolding retrieve_addresses contains
with_addresses first second body s = elim (retrieve_addresses first second) [
  | Retrieved.bad_alloc r ↦ thrown bad_alloc s
  | Retrieved.cant_retrieve_host r ↦ thrown (network cant_retrieve_host) s
  | retrieved r ↦ elim r.addrs [
    | none ↦ body none s
    | some p ↦ if contains r.freed p then fault undefined else body (some p) s
  ]
]

-- What a server does with the socket that is bound: whether `set_non_blocking` and `listen` succeed.
unfoldable pub start_listening : Bool → Bool → ℕ → Connect
start_listening non_blocking listens fd s =
    if not non_blocking
    then thrown (network cant_set_nonblocking) s
    else if not listens
    then thrown (network listen_failed) s
    else ok tt (record s { m_connected = true; m_fd = some fd })

-- `list` gives the candidates of a list of addresses.
abbrev pub at_pointer {ℓ} : {A : Type ℓ} → (ℕ → List A) → Option ℕ → List A
at_pointer list none = []
at_pointer list (some p) = list p

-- `connect` behind `retrieve_addresses`.
unfoldable pub bind_and_listen : List Candidate → Bool → Bool → Connect
unfolding try_addresses start_listening
bind_and_listen addrs non_blocking listens s =
    let (fd, t) = try_addresses addrs s in
    elim fd [
      | none ↦ thrown (network bind_failed) t
      | some fd ↦ start_listening non_blocking listens fd t
    ]

unfoldable pub server_connect :
    SocketAddress → Lookup → Lookup → (ℕ → List Candidate) → Bool → Bool → Connect
unfolding with_addresses bind_and_listen is_server_valid
server_connect socket_address first second list non_blocking listens s =
    if not (is_server_valid socket_address)
    then thrown (network invalid_socket_address) s
    else with_addresses first second
        (λ addrs. bind_and_listen (at_pointer list addrs) non_blocking listens) s

-- What `::connect` gives for a socket, `select` on it, and the error that `getsockopt` then reports,
-- if it does.
pub data Connecting : Type 0 where
  connected in_progress refused : Connecting

pub data Waiting : Type 0 where
  ready out_of_time select_failed : Waiting

pub record Attempt : Type 0 where
  pub socket : Option ℕ
  pub set_non_blocking : Bool
  pub connect_result : Connecting
  pub select_result : Waiting
  pub so_error : Option ℕ

unfoldable pub blocking_connect : Attempt → Bool
blocking_connect a = elim a.connect_result [
  | connected ↦ true
  | in_progress ↦ false
  | refused ↦ false
]

unfoldable pub wait_for_connect : Attempt → Bool
wait_for_connect a = elim a.select_result [
  | out_of_time ↦ false
  | select_failed ↦ false
  | ready ↦ elim a.so_error [ none ↦ false | some so_error ↦ so_error == 0 ]
]

unfoldable pub non_blocking_connect : Attempt → Bool
unfolding wait_for_connect
non_blocking_connect a = if not a.set_non_blocking then false else elim a.connect_result [
  | connected ↦ true
  | in_progress ↦ wait_for_connect a
  | refused ↦ false
]

-- `blocking` tells that the timeout is 0 or -1.
unfoldable pub candidates : Bool → List Attempt → List Candidate
unfolding blocking_connect non_blocking_connect
candidates blocking [] = []
candidates blocking (a ∷ attempts) =
    (a.socket, if blocking then blocking_connect a else non_blocking_connect a)
    ∷ candidates blocking attempts

-- `connect` behind `retrieve_addresses`.
unfoldable pub connect_to : List Attempt → Bool → Connect
unfolding try_addresses candidates
connect_to attempts blocking s =
    let (fd, t) = try_addresses (candidates blocking attempts) s in
    elim fd [
      | none ↦
          if not blocking then thrown (network timed_out) t else thrown (network connect_failed) t
      | some fd ↦ ok tt (record t { m_connected = true; m_fd = some fd })
    ]

unfoldable pub client_connect :
    SocketAddress → Lookup → Lookup → (ℕ → List Attempt) → Bool → Connect
unfolding with_addresses connect_to is_client_valid
client_connect socket_address first second list blocking s =
    if not (is_client_valid socket_address)
    then thrown (network invalid_socket_address) s
    else with_addresses first second (λ addrs. connect_to (at_pointer list addrs) blocking) s

-- `unsafe_disconnect` of a server.
unfoldable pub server_disconnect : Socket → Socket
server_disconnect s =
    if s.m_connected
    then (elim s.m_fd [
      | none ↦ record s { m_connected = false }
      | some fd ↦ record (close_fd fd s) { m_fd = none; m_connected = false }
    ])
    else s
