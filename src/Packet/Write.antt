-- ===== src/Packet/Write.antt =====
-- Writing: the `operator<<` overloads, `write_object_header` and `write_to_packet` of Packet.cpp and
-- Packet.ipp. A packet is its `m_data`, and `std::bad_alloc` is not modelled.
use sednl.Base.{
  ℕ, ◌+◌, ◌%◌, ◌^◌, ◌==◌, ltb, not, List, [], ◌∷◌, ◌++◌, ByteArray, if◌then◌else◌, length,
}
use sednl.Exceptions.{
  Scalar, int8, int16, int32, int64, uint8, uint16, uint32, uint64, float, double, PacketExceptionT,
  wrong_array, empty_object, M, ok, ◌>>◌, pure, throw, fail, aborted, undefined,
}
use sednl.Bytes.Host.{Host}
use sednl.Bytes.Order.{push_16, push_32, push_64}
use sednl.Packet.Types.{
  scalar, string, object, array, type_code, Value, number, text, numbers, object_of, Values, nil,
  cons,
}

abbrev pub Writer : Type 0
Writer = M PacketExceptionT ByteArray (Unit {0})

pub push_back : ℕ → Writer
push_back b d = ok tt (d ++ (b ∷ []))

-- `write_object_header`. `assert` stops the program.
unfoldable pub write_object_header : ℕ → Writer
unfolding push_back
write_object_header n =
    if ltb n 256
    then (if n == 0
        then throw empty_object
        else (push_back (type_code object) >> push_back (n % 2 ^ 8)))
    else fail aborted

-- The loop over a C string. The list is the memory from the pointer on.
unfoldable pub write_chars : List ℕ → Writer
unfolding push_back
write_chars [] d = fail undefined d
write_chars (c ∷ cs) d =
    let rest = write_chars cs (d ++ (c ∷ [])) in if c == 0 then push_back 0 d else rest

unfoldable pub write_c_str : List ℕ → Writer
unfolding write_chars push_back
write_c_str dt = push_back (type_code string) >> write_chars dt

-- `operator<< <std::string>`: `c_str()` is the string and a terminator.
unfoldable pub write_string : ByteArray → Writer
unfolding write_c_str
write_string dt = write_c_str (dt ++ (0 ∷ []))

-- `number_of_args` counts in `unsigned short`.
unfoldable pub number_of_args : Values → ℕ
number_of_args nil = 0
number_of_args (cons v vs) = (1 + number_of_args vs) % 2 ^ 16

module _ ⦃host : Host⦄ where
  -- The `__push_8` … `__push_64` that the overload for a kind of number calls.
  unfoldable pub push_scalar : Scalar → ByteArray → ℕ → ByteArray
  push_scalar int8 d x = d ++ (x ∷ [])
  push_scalar uint8 d x = d ++ (x ∷ [])
  push_scalar int16 d x = push_16 d x
  push_scalar uint16 d x = push_16 d x
  push_scalar int32 d x = push_32 d x
  push_scalar uint32 d x = push_32 d x
  push_scalar float d x = push_32 d x
  push_scalar int64 d x = push_64 d x
  push_scalar uint64 d x = push_64 d x
  push_scalar double d x = push_64 d x

  unfoldable pub write_number : Scalar → ℕ → Writer
  unfolding push_scalar push_back
  write_number s dt = push_back (type_code (scalar s)) >> λ d. ok tt (push_scalar s d dt)

  -- `for (auto elm : dt) fct(m_data, elm);`
  unfoldable pub push_all : Scalar → List ℕ → ByteArray → ByteArray
  unfolding push_scalar
  push_all s [] d = d
  push_all s (x ∷ xs) d = push_all s xs (push_scalar s d x)

  -- The macro `__array`.
  unfoldable pub write_array : Scalar → List ℕ → Writer
  unfolding push_all push_back
  write_array s dt =
      if not (length dt % 2 ^ 16 == length dt)
      then throw wrong_array
      else (push_back (type_code (array s))
          >> (λ d. ok tt (push_all s dt (push_16 d (length dt % 2 ^ 16)))))

  unfoldable mutual
    -- `operator<<` by the type of its argument. An object is written by `write_as_object`.
    pub write : Value → Writer
    write (number s x) = write_number s x
    write (text s) = write_string s
    write (numbers s xs) = write_array s xs
    write (object_of vs) = write_object_header (number_of_args vs) >> write_to_packet vs

    pub write_to_packet : Values → Writer
    write_to_packet nil = pure tt
    write_to_packet (cons v vs) = write v >> write_to_packet vs

  unfoldable pub write_as_object : Values → Writer
  unfolding write
  write_as_object vs = write_object_header (number_of_args vs) >> write_to_packet vs
