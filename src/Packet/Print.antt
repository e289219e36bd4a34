-- ===== src/Packet/Print.antt =====
-- Printing: `type_to_string`, `show_array`, `output_one` and `operator<<` of a packet, in Packet.cpp,
-- and `operator<<` of an event, in Event.cpp. How a stream of the standard library prints a number is
-- a parameter. The counter `i` stays below the number of bytes, so it does not overflow its `int`.
use sednl.Base.{
  ℕ, zero, suc, ◌+◌, Bool, true, false, List, [], ◌∷◌, ◌++◌, ByteArray, if◌then◌else◌, length,
  get_elem?, add_u32, codes,
}
use sednl.Exceptions.{
  Scalar, int8, int16, int32, int64, uint8, uint16, uint32, uint64, float, double, PacketExceptionT,
  Result, M, ok, thrown, fault, ◌>>=◌, ◌>>◌, pure, fail, out_of_fuel, get, access,
}
use sednl.Bytes.Host.{Host}
use sednl.Event.Pack.{Event}
use sednl.Packet.Types.{PacketType, unknown, scalar, string, object, array}
use sednl.Packet.Read.{
  PacketReader, Reader, reader_of, has_next, next_type, skip, read_number, read_string, read_array,
}

-- `os << n` for an `int` and for each type of number, a float or double by its bit pattern.
pub record Ostream : Type 0 where
  pub show_int : ℕ → ByteArray
  pub show_scalar : Scalar → ℕ → ByteArray

unfoldable pub type_to_string : PacketType → ByteArray
type_to_string (scalar int8) = codes "Int8"
type_to_string (scalar int16) = codes "Int16"
type_to_string (scalar int32) = codes "Int32"
type_to_string (scalar int64) = codes "Int64"
type_to_string (scalar uint8) = codes "UInt8"
type_to_string (scalar uint16) = codes "UInt16"
type_to_string (scalar uint32) = codes "UInt32"
type_to_string (scalar uint64) = codes "UInt64"
type_to_string (scalar float) = codes "Float"
type_to_string (scalar double) = codes "Double"
type_to_string string = codes "String"
type_to_string object = codes "Object"
type_to_string (array int8) = codes "ArrayInt8"
type_to_string (array int16) = codes "ArrayInt16"
type_to_string (array int32) = codes "ArrayInt32"
type_to_string (array int64) = codes "ArrayInt64"
type_to_string (array uint8) = codes "ArrayUInt8"
type_to_string (array uint16) = codes "ArrayUInt16"
type_to_string (array uint32) = codes "ArrayUInt32"
type_to_string (array uint64) = codes "ArrayUInt64"
type_to_string (array float) = codes "ArrayFloat"
type_to_string (array double) = codes "ArrayDouble"
type_to_string unknown = codes "Unknown"

-- A reader with the counter of `output_one` and what has been printed.
pub record Printer : Type 0 where
  pub reader : PacketReader
  pub i : ℕ
  pub os : ByteArray

abbrev pub Printing {κ} : Type κ → Type κ
Printing A = M PacketExceptionT Printer A

-- `os << text`.
abbrev pub print : ByteArray → Printing (Unit {0})
print t s = ok tt (record s { os = s.os ++ t })

-- A step of the reader.
abbrev pub reading {κ} : {A : Type κ} → Reader A → Printing A
reading m s = elim (m s.reader) [
  | ok a r ↦ ok a (record s { reader = r })
  | thrown e r ↦ thrown e (record s { reader = r })
  | fault x ↦ fault x
]

-- The loop over the fields of an object. `field` is `output_one` itself.
unfoldable pub output_fields : Printing Bool → ℕ → Printing Bool
output_fields field zero = pure true
output_fields field (suc n) =
    field >>= λ shown. if shown then print (codes ", ") >> output_fields field n else pure false

unfoldable pub output_object : Printing Bool → Printing Bool
unfolding output_fields
output_object field = do
  print (codes "{ ")
  s ← get
  obj_length ← access (get_elem? s.reader.m_p (add_u32 s.reader.m_idx 1))
  reading (skip 2)
  shown ← output_fields field obj_length
  if shown then print (codes " }") >> pure true else pure false

module _ (stream : Ostream) where
  open stream use {show_int, show_scalar}

  -- `os << type_to_string(type) << "_" << i << " : "`.
  abbrev pub label : PacketType → ℕ → ByteArray
  label t n = type_to_string t ++ (codes "_" ++ (show_int n ++ codes " : "))

  abbrev pub elements : Scalar → List ℕ → ByteArray
  elements s [] = []
  elements s (x ∷ xs) = show_scalar s x ++ (codes ", " ++ elements s xs)

  unfoldable pub show_array : Scalar → List ℕ → ByteArray
  show_array s xs = codes "{ " ++ (elements s xs ++ codes " }")

  module _ ⦃host : Host⦄ where
    -- The cases of `output_one`.
    unfoldable pub output_typed : Printing Bool → PacketType → Printing Bool
    unfolding read_number read_string read_array output_object show_array
    output_typed field unknown = pure false
    output_typed field (scalar s) = do
      v ← reading (read_number s 0)
      print (show_scalar s v)
      pure true
    output_typed field string = do v ← reading (read_string []); print v; pure true
    output_typed field object = output_object field
    output_typed field (array s) = do
      v ← reading (read_array s [])
      print (show_array s v)
      pure true

    -- `i++` and the label.
    unfoldable pub announce : PacketType → Printing (Unit {0})
    unfolding type_to_string
    announce t s = ok tt (record s { i = s.i + 1; os = s.os ++ label t (s.i + 1) })

    -- On fuel, which bounds the depth of objects within objects.
    unfoldable pub output_one : ℕ → Printing Bool
    unfolding next_type announce output_typed
    output_one zero = fail out_of_fuel
    output_one (suc fuel) = do t ← reading next_type; announce t; output_typed (output_one fuel) t

    -- `while (r)`, in at most so many rounds.
    unfoldable pub output_loop : ℕ → ℕ → Printing (Unit {0})
    unfolding output_one has_next
    output_loop fuel zero s = fault out_of_fuel
    output_loop fuel (suc n) s =
        let round : Printing (Unit {0}) = output_one fuel >>= λ shown.
        if shown
        then print (codes ", ") >> output_loop fuel n
        else print (codes " CORRUPTED ---") in
        if has_next s.reader then round s else print (codes "}") s

    -- `os << packet`.
    unfoldable pub output_packet :
        ByteArray → ByteArray → Result PacketExceptionT Printer (Unit {0})
    unfolding output_loop
    output_packet p os =
        (print (codes "{ ") >> output_loop (suc (length p)) (suc (length p)))
          (record { reader = reader_of p; i = 0; os = os })

    -- `os << event`.
    unfoldable pub output_event : Event → ByteArray → Result PacketExceptionT Printer (Unit {0})
    unfolding output_packet
    output_event e os =
        output_packet e.m_packet (os ++ (codes "name : \"" ++ (e.m_name ++ codes "\", packet : ")))
