-- ===== src/Packet/Read.antt =====
-- Reading: `PacketReader` of Packet.cpp and Packet.ipp. A read outside the packet is undefined.
use sednl.Base.{
  ℕ, zero, suc, ◌==◌, leb, not, ◌||◌, List, [], ◌∷◌, ◌++◌, ByteArray, if◌then◌else◌, length,
  get_elem?, add_u32, Option, none, some, Bool, true, false,
}
use sednl.Exceptions.{
  Scalar, int8, int16, int32, int64, uint8, uint16, uint32, uint64, float, double, PacketExceptionT,
  wrong_sized_object, empty_object, scalar_expected, array_expected, string_expected,
  object_expected, unknown_type, M, ok, thrown, fault, ◌>>=◌, ◌>>◌, pure, throw, undefined,
  out_of_fuel, get, access,
}
use sednl.Bytes.Host.{Host}
use sednl.Bytes.Order.{front_8, front_16, front_32, front_64}
use sednl.Packet.Types.{
  PacketType, unknown, scalar, string, object, array, type_code, cast_type, size_of, Value, number,
  text, numbers, object_of, Values, nil, cons,
}
use sednl.Packet.Write.{number_of_args}

-- `m_p` stands for the packet that the source's pointer names.
pub record PacketReader : Type 0 where
  pub m_p : ByteArray
  pub m_idx : ℕ

abbrev pub Reader {κ} : Type κ → Type κ
Reader A = M PacketExceptionT PacketReader A

-- `PacketReader(p)`.
abbrev pub reader_of : ByteArray → PacketReader
reader_of p = record { m_p = p; m_idx = 0 }

abbrev pub at_end : PacketReader → Bool
at_end r = leb (length r.m_p) r.m_idx

-- `operator bool`.
unfoldable pub has_next : PacketReader → Bool
has_next r = not (leb (length r.m_p) r.m_idx)

-- The byte at the current index.
abbrev pub peek : Reader ℕ
peek r = access (get_elem? r.m_p r.m_idx) r

-- `m_idx += n`.
abbrev pub skip : ℕ → Reader (Unit {0})
skip n r = ok tt (record r { m_idx = add_u32 r.m_idx n })

-- `next_type` gives `Unknown` at the end of the packet.
unfoldable pub next_type : Reader PacketType
unfolding has_next cast_type
next_type r = if has_next r then (peek >>= λ b. pure (cast_type b)) r else ok unknown r

-- What `exception_by_type` throws: it names the type that was found.
unfoldable pub exception_by_type : PacketType → PacketExceptionT
exception_by_type (scalar s) = scalar_expected s
exception_by_type (array s) = array_expected s
exception_by_type string = string_expected
exception_by_type object = object_expected
exception_by_type unknown = unknown_type

-- `if (type != packet_type) exception_by_type(type); m_idx++;`
unfoldable pub expect : Bool → ℕ → Reader (Unit {0})
unfolding exception_by_type cast_type
expect fits b = if fits then skip 1 else throw (exception_by_type (cast_type b))

-- `read_object_header` past `next_type`: the checks of the type and of the length byte.
unfoldable pub check_length : ℕ → ℕ → Reader (Unit {0})
check_length n obj_length =
    if obj_length == 0
    then throw empty_object
    else if not (obj_length == n)
    then throw wrong_sized_object
    else skip 2

unfoldable pub check_header : ℕ → PacketType → Reader (Unit {0})
unfolding check_length
check_header n t r =
    if not (type_code t == type_code object)
    then thrown object_expected r
    else (access (get_elem? r.m_p (add_u32 r.m_idx 1)) >>= check_length n) r

-- `read_object_header`.
unfoldable pub read_object_header : ℕ → Reader (Unit {0})
unfolding next_type check_header
read_object_header n = next_type >>= check_header n

-- The common head of the overloads of `operator>>`: at the end of the packet the variable keeps its
-- value, and another type byte than those that fit throws.
unfoldable pub read_typed {κ} : {A : Type κ} → (ℕ → Bool) → A → Reader A → Reader A
unfolding expect
read_typed fits old rest r = if at_end r then ok old r else (do b ← peek; expect (fits b) b; rest) r

-- The loop of `operator>> <std::string>`, with a bound on its rounds.
unfoldable pub read_chars : ℕ → ByteArray → Reader ByteArray
read_chars zero out r = fault out_of_fuel
read_chars (suc fuel) out r = elim (get_elem? r.m_p r.m_idx) [
  | none ↦ fault undefined
  | some b ↦ elim (b == 0) [
    | true ↦ ok out r
    | false ↦ read_chars fuel (out ++ (b ∷ [])) (record r { m_idx = add_u32 r.m_idx 1 })
  ]
]

-- The characters of a string and the step over its terminator.
unfoldable pub take_string : Reader ByteArray
unfolding read_chars
take_string r = (do out ← read_chars (suc (length r.m_p)) []; skip 1; pure out) r

-- `operator>> <std::string>`.
unfoldable pub read_string : ByteArray → Reader ByteArray
unfolding read_typed take_string
read_string old = read_typed (λ b. b == type_code string) old take_string

-- `read_as_object` works on a copy of the reader, and keeps the old one if something throws.
abbrev pub on_copy {κ} : {A : Type κ} → Reader A → Reader A
on_copy m r = elim (m r) [ ok a r' ↦ ok a r' | thrown e r' ↦ thrown e r | fault x ↦ fault x ]

module _ ⦃host : Host⦄ where
  -- The `__front_8` … `__front_64` that the overload for a kind of number calls.
  unfoldable pub front_scalar : Scalar → ℕ → ByteArray → Option ℕ
  front_scalar int8 i d = front_8 i d
  front_scalar uint8 i d = front_8 i d
  front_scalar int16 i d = front_16 i d
  front_scalar uint16 i d = front_16 i d
  front_scalar int32 i d = front_32 i d
  front_scalar uint32 i d = front_32 i d
  front_scalar float i d = front_32 i d
  front_scalar int64 i d = front_64 i d
  front_scalar uint64 i d = front_64 i d
  front_scalar double i d = front_64 i d

  -- `auto t = fct(m_idx, m_data); m_idx += sizeof(type);`
  unfoldable pub take_scalar : Scalar → Reader ℕ
  unfolding front_scalar
  take_scalar s = do r ← get; t ← access (front_scalar s r.m_idx r.m_p); skip (size_of s); pure t

  -- The macro `__read`.
  unfoldable pub read_number : Scalar → ℕ → Reader ℕ
  unfolding read_typed take_scalar
  read_number s old = read_typed (λ b. b == type_code (scalar s)) old (take_scalar s)

  -- `operator>> <char>` takes signed and unsigned bytes.
  unfoldable pub read_char : ℕ → Reader ℕ
  unfolding read_typed take_scalar
  read_char old =
      read_typed (λ b. b == type_code (scalar int8) || b == type_code (scalar uint8)) old
        (take_scalar int8)

  -- `for (int i = 0; i < length; i++)`, on the rounds left.
  unfoldable pub take_scalars : Scalar → ℕ → Reader (List ℕ)
  unfolding take_scalar
  take_scalars s zero = pure []
  take_scalars s (suc n) = do t ← take_scalar s; ts ← take_scalars s n; pure (t ∷ ts)

  -- The length of an array and its elements.
  unfoldable pub read_elements : Scalar → Reader (List ℕ)
  unfolding take_scalars
  read_elements s = do n ← take_scalar uint16; take_scalars s n

  -- The macro `__read_array`.
  unfoldable pub read_array : Scalar → List ℕ → Reader (List ℕ)
  unfolding read_typed read_elements
  read_array s old = read_typed (λ b. b == type_code (array s)) old (read_elements s)

  -- `operator>>` for `std::vector<char>` takes arrays of signed and of unsigned bytes.
  unfoldable pub read_char_array : List ℕ → Reader (List ℕ)
  unfolding read_typed read_elements
  read_char_array old =
      read_typed (λ b. b == type_code (array int8) || b == type_code (array uint8)) old
        (read_elements int8)

  unfoldable mutual
    -- `operator>>` by the type of the variable that it fills, given with the value that it holds.
    pub read : Value → Reader Value
    read (number s old) = read_number s old >>= λ x. pure (number s x)
    read (text old) = read_string old >>= λ x. pure (text x)
    read (numbers s old) = read_array s old >>= λ x. pure (numbers s x)
    read (object_of olds) =
        on_copy (read_object_header (number_of_args olds) >> read_from_packet olds) >>= λ vs.
        pure (object_of vs)

    pub read_from_packet : Values → Reader Values
    read_from_packet nil = pure nil
    read_from_packet (cons old olds) = do v ← read old; vs ← read_from_packet olds; pure (cons v vs)
