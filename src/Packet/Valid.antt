-- ===== src/Packet/Valid.antt =====
-- `Packet::is_valid` and `Packet::valid_next_item` of Packet.cpp: the check of a packet that comes
-- from the network.
use sednl.Base.{
  ℕ, zero, suc, ◌+◌, ◌*◌, ◌%◌, ◌^◌, ◌==◌, ltb, not, ◌&&◌, ByteArray, if◌then◌else◌, length,
  get_elem?, add_u32, dec_u32, Option, none, some, true, false,
}
use sednl.Bytes.Host.{Host}
use sednl.Bytes.Order.{front_16}
use sednl.Packet.Types.{PacketType, unknown, scalar, string, object, array, cast_type, size_of}

-- `accept` and `reject` are the source's `true` and `false`. `outside` is a read outside the packet,
-- of which C++ promises nothing; `exhausted` is no C++ behaviour, but the model's bound on a loop.
pub data Verdict (A : Type 0) : Type 0 where
  accept : A → Verdict A
  reject outside exhausted : Verdict A

infixl 5 ◌>>=◌
abbrev pub ◌>>=◌ : {A B : Type 0} → Verdict A → (A → Verdict B) → Verdict B
accept a >>= f = f a
reject >>= f = reject
outside >>= f = outside
exhausted >>= f = exhausted

abbrev pub fetch : Option ℕ → Verdict ℕ
fetch none = outside
fetch (some b) = accept b

-- `while (m_data[i] != '\0' && i < size) i++;`
unfoldable pub skip_string : ℕ → ByteArray → ℕ → ℕ → Verdict ℕ
skip_string zero d size i = exhausted
skip_string (suc fuel) d size i = elim (get_elem? d i) [
  | none ↦ outside
  | some b ↦ elim (not (b == 0) && ltb i size) [
    | true ↦ skip_string fuel d size (add_u32 i 1)
    | false ↦ accept i
  ]
]

-- The loop over the fields of an object, on the rounds left. `step` is `valid_next_item`.
unfoldable pub valid_items : (ℕ → Verdict ℕ) → ℕ → ℕ → Verdict ℕ
valid_items step zero i = accept i
valid_items step (suc n) i = elim (step i) [
  | accept j ↦ valid_items step n (add_u32 j 1)
  | reject ↦ reject
  | outside ↦ outside
  | exhausted ↦ exhausted
]

module _ ⦃host : Host⦄ where
  -- The `switch` of `valid_next_item`. `m_data.size() + 1` rounds are enough for a string.
  unfoldable pub valid_typed : (ℕ → Verdict ℕ) → ByteArray → ℕ → PacketType → ℕ → Verdict ℕ
  unfolding skip_string valid_items
  valid_typed step d size unknown i = reject
  valid_typed step d size (scalar s) i = accept (add_u32 i (size_of s))
  valid_typed step d size string i = do
    j ← skip_string (suc (length d)) d size (add_u32 i 1)
    if j == size then reject else accept j
  valid_typed step d size object i =
      let k = add_u32 i 1 in
      if ltb (length d) (k + 1)
      then reject
      else (do n ← fetch (get_elem? d k); j ← valid_items step n (add_u32 k 1); accept (dec_u32 j))
  valid_typed step d size (array s) i =
      let k = add_u32 i 1 in
      if ltb size (k + 2)
      then reject
      else (do n ← fetch (front_16 k d); accept (dec_u32 (add_u32 (add_u32 k 2) (n * size_of s))))

  -- `valid_next_item`, with a bound on the depth of objects within objects.
  unfoldable pub valid_next_item : ℕ → ByteArray → ℕ → ℕ → Verdict ℕ
  unfolding valid_typed cast_type
  valid_next_item zero d size i = exhausted
  valid_next_item (suc fuel) d size i = elim (get_elem? d i) [
    | none ↦ outside
    | some b ↦ valid_typed (valid_next_item fuel d size) d size (cast_type b) i
  ]

  -- The loop of `is_valid`, and its last test.
  unfoldable pub valid_loop : ℕ → ByteArray → ℕ → ℕ → Verdict (Unit {0})
  unfolding valid_next_item
  valid_loop zero d size i = exhausted
  valid_loop (suc fuel) d size i = elim (ltb i size) [
    | false ↦ if i == size then accept tt else reject
    | true ↦ elim (valid_next_item (suc (length d)) d size i) [
      | accept j ↦ valid_loop fuel d size (add_u32 j 1)
      | reject ↦ reject
      | outside ↦ outside
      | exhausted ↦ exhausted
    ]
  ]

  -- Each round takes a byte at least.
  unfoldable pub is_valid : ByteArray → Verdict (Unit {0})
  unfolding valid_loop
  is_valid d = valid_loop (suc (length d)) d (length d % 2 ^ 32) 0
