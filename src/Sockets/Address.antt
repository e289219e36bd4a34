-- ===== src/Sockets/Address.antt =====
-- `SocketAddress`, and `retrieve_addresses` over what `getaddrinfo` gives.
use sednl.Base.{ℕ, Bool, true, false, not, ◌&&◌, Option, none, some, List, [], ◌∷◌, ◌++◌, Name}

pub record SocketAddress : Type 0 where
  pub m_port : ℕ
  pub m_name : Name
  pub m_empty : Bool

-- The three constructors.
abbrev pub no_address : SocketAddress
no_address = record { m_port = 0; m_name = []; m_empty = true }

abbrev pub port_address : ℕ → SocketAddress
port_address port = record { m_port = port; m_name = []; m_empty = false }

abbrev pub named_address : ℕ → Name → SocketAddress
named_address port server_name = record { m_port = port; m_name = server_name; m_empty = false }

abbrev pub is_empty : Name → Bool
is_empty [] = true
is_empty (c ∷ name) = false

unfoldable pub is_client_valid : SocketAddress → Bool
is_client_valid a = not (is_empty a.m_name) && not a.m_empty

unfoldable pub is_server_valid : SocketAddress → Bool
is_server_valid a = not a.m_empty

-- A call of `getaddrinfo`: the address of the list that it allocates, or an error. An error leaves
-- `addrs` as it is.
pub data Lookup : Type 0 where
  found : ℕ → Lookup
  memory again failing : Lookup

-- `addrs`, what `resources_keeper` holds, and the lists given to `freeaddrinfo`.
pub record Retrieval : Type 0 where
  pub addrs : Option ℕ
  pub keeper : Option ℕ
  pub freed : List ℕ

pub data Retrieved : Type 0 where
  retrieved : Retrieval → Retrieved
  bad_alloc cant_retrieve_host : Retrieval → Retrieved

-- The deleter.
abbrev pub free : Option ℕ → Retrieval → Retrieval
free none s = s
free (some p) s = record s { freed = s.freed ++ (p ∷ []) }

-- The end of a round: the keepers are swapped, and the one of the round frees what it now holds.
unfoldable pub keep : Retrieval → Retrieval
keep s = free s.keeper (record s { keeper = s.addrs })

-- One round of the loop. What throws frees `addrs`, which the keeper of the round holds.
-- `should_try_again` stays `true`, in both rounds.
unfoldable pub lookup_round : Lookup → Retrieval → Retrieved
unfolding keep
lookup_round (found p) s = retrieved (keep (record s { addrs = some p }))
lookup_round again s = retrieved (keep s)
lookup_round memory s = bad_alloc (free s.addrs s)
lookup_round failing s = cant_retrieve_host (free s.addrs s)

-- The two rounds.
unfoldable pub retrieve_addresses : Lookup → Lookup → Retrieved
unfolding lookup_round
retrieve_addresses first second =
    elim (lookup_round first (record { addrs = none; keeper = none; freed = [] })) [
      | retrieved s ↦ lookup_round second s
      | bad_alloc s ↦ bad_alloc s
      | cant_retrieve_host s ↦ cant_retrieve_host s
    ]
