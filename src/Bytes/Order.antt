-- ===== src/Bytes/Order.antt =====
-- The functions of SocketHelp.hpp that write words to a byte array and read them back.
use sednl.Base.{
  ℕ, ◌==◌, Bool, Option, none, some, ◌++◌, ByteArray, get_elem?, add_u32, if◌then◌else◌,
}
use sednl.Bytes.Host.{Host, store_16, load_16, store_32, load_32, blocks, from_blocks, first_byte}

infixl 5 ◌>>=◌
abbrev pub ◌>>=◌ {ℓ κ} : {A : Type ℓ} {B : Type κ} → Option A → (A → Option B) → Option B
none >>= f = none
some a >>= f = f a

-- `none` is a read outside the array.
unfoldable pub front_8 : ℕ → ByteArray → Option ℕ
front_8 index bytes = get_elem? bytes index

module _ ⦃host : Host⦄ where
  unfoldable pub is_big_endian : Bool
  is_big_endian = first_byte 1 == 0

  unfoldable pub bytes_swap : ℕ → ℕ
  bytes_swap v = let (a, b) = blocks v in from_blocks b a

  unfoldable pub push_16 : ByteArray → ℕ → ByteArray
  push_16 bytes dt = bytes ++ store_16 (host.htons dt)

  unfoldable pub front_16 : ℕ → ByteArray → Option ℕ
  front_16 index bytes = do
    a ← get_elem? bytes index
    b ← get_elem? bytes (add_u32 index 1)
    some (host.ntohs (load_16 a b))

  unfoldable pub push_32 : ByteArray → ℕ → ByteArray
  push_32 bytes dt = bytes ++ store_32 (host.htonl dt)

  unfoldable pub front_32 : ℕ → ByteArray → Option ℕ
  front_32 index bytes = do
    a ← get_elem? bytes index
    b ← get_elem? bytes (add_u32 index 1)
    c ← get_elem? bytes (add_u32 index 2)
    d ← get_elem? bytes (add_u32 index 3)
    some (host.ntohl (load_32 a b c d))

  unfoldable pub push_64 : ByteArray → ℕ → ByteArray
  unfolding is_big_endian bytes_swap
  push_64 bytes dt =
      let (a, b) = blocks (if is_big_endian then dt else bytes_swap dt) in
      push_32 (push_32 bytes a) b

  unfoldable pub front_64 : ℕ → ByteArray → Option ℕ
  unfolding is_big_endian bytes_swap
  front_64 index bytes = do
    a ← front_32 index bytes
    b ← front_32 (add_u32 index 4) bytes
    let dt = from_blocks a b
    some (if is_big_endian then dt else bytes_swap dt)
