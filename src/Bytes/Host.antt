-- ===== src/Bytes/Host.antt =====
-- The machine that runs the library: how it lays words out in memory, and the C library's
-- conversions between host and network order, which are not part of the repository.
use sednl.Base.{ℕ, ◌+◌, ◌*◌, ◌/◌, ◌%◌, ◌^◌, ◌≡◌, Bool, List, [], ◌∷◌, IsU16, IsU32, if◌then◌else◌}

-- Both exchange the first byte with the last, and so on inwards.
abbrev pub swap_16 : ℕ → ℕ
swap_16 x = x % 2 ^ 8 * 2 ^ 8 + x / 2 ^ 8

abbrev pub swap_32 : ℕ → ℕ
swap_32 x =
    x % 2 ^ 8 * 2 ^ 24 + x / 2 ^ 8 % 2 ^ 8 * 2 ^ 16 + x / 2 ^ 16 % 2 ^ 8 * 2 ^ 8 + x / 2 ^ 24

pub record Host : Type 0 where
  pub big_endian : Bool
  pub htons : ℕ → ℕ
  pub ntohs : ℕ → ℕ
  pub htonl : ℕ → ℕ
  pub ntohl : ℕ → ℕ
  pub htons_order : (x : ℕ) → IsU16 x → htons x ≡ (if big_endian then x else swap_16 x)
  pub ntohs_order : (x : ℕ) → IsU16 x → ntohs x ≡ (if big_endian then x else swap_16 x)
  pub htonl_order : (x : ℕ) → IsU32 x → htonl x ≡ (if big_endian then x else swap_32 x)
  pub ntohl_order : (x : ℕ) → IsU32 x → ntohl x ≡ (if big_endian then x else swap_32 x)

module _ ⦃host : Host⦄ where
  -- The bytes of a word in memory, and the word that given bytes make.
  abbrev pub store_16 : ℕ → List ℕ
  store_16 x = if host.big_endian then x / 2 ^ 8 ∷ x % 2 ^ 8 ∷ [] else x % 2 ^ 8 ∷ x / 2 ^ 8 ∷ []

  abbrev pub load_16 : ℕ → ℕ → ℕ
  load_16 a b = if host.big_endian then a * 2 ^ 8 + b else b * 2 ^ 8 + a

  abbrev pub store_32 : ℕ → List ℕ
  store_32 x =
      if host.big_endian
      then x / 2 ^ 24 ∷ x / 2 ^ 16 % 2 ^ 8 ∷ x / 2 ^ 8 % 2 ^ 8 ∷ x % 2 ^ 8 ∷ []
      else x % 2 ^ 8 ∷ x / 2 ^ 8 % 2 ^ 8 ∷ x / 2 ^ 16 % 2 ^ 8 ∷ x / 2 ^ 24 ∷ []

  abbrev pub load_32 : ℕ → ℕ → ℕ → ℕ → ℕ
  load_32 a b c d =
      if host.big_endian
      then a * 2 ^ 24 + b * 2 ^ 16 + c * 2 ^ 8 + d
      else d * 2 ^ 24 + c * 2 ^ 16 + b * 2 ^ 8 + a

  -- A 64-bit word seen as an array of two 32-bit blocks, and the word that two blocks make.
  abbrev pub blocks : ℕ → ℕ × ℕ
  blocks v = if host.big_endian then (v / 2 ^ 32, v % 2 ^ 32) else (v % 2 ^ 32, v / 2 ^ 32)

  abbrev pub from_blocks : ℕ → ℕ → ℕ
  from_blocks a b = if host.big_endian then a * 2 ^ 32 + b else b * 2 ^ 32 + a

  -- The first byte of the memory of a 64-bit word.
  abbrev pub first_byte : ℕ → ℕ
  first_byte v = if host.big_endian then v / 2 ^ 56 else v % 2 ^ 8
