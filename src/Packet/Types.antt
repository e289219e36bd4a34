-- ===== src/Packet/Types.antt =====
-- `Packet::Type` and `Packet` of include/SEDNL/Packet.hpp.
use sednl.Base.{ℕ, ◌==◌, ◌≡◌, refl, ◌≢◌, List, ByteArray, if◌then◌else◌, arith}
use sednl.Exceptions.{
  Scalar, int8, int16, int32, int64, uint8, uint16, uint32, uint64, float, double,
}

-- `scalar int8` is the source's `Int8`, `array int8` its `ArrayInt8`, and so on.
pub data PacketType : Type 0 where
  unknown : PacketType
  scalar : Scalar → PacketType
  string object : PacketType
  array : Scalar → PacketType

-- The byte of an enumerator.
abbrev pub type_code : PacketType → ℕ
type_code unknown = 0x00
type_code (scalar int8) = 0x01
type_code (scalar int16) = 0x02
type_code (scalar int32) = 0x03
type_code (scalar int64) = 0x04
type_code (scalar uint8) = 0x05
type_code (scalar uint16) = 0x06
type_code (scalar uint32) = 0x07
type_code (scalar uint64) = 0x08
type_code (scalar float) = 0x10
type_code (scalar double) = 0x11
type_code string = 0x20
type_code object = 0x40
type_code (array int8) = 0x81
type_code (array int16) = 0x82
type_code (array int32) = 0x83
type_code (array int64) = 0x84
type_code (array uint8) = 0x85
type_code (array uint16) = 0x86
type_code (array uint32) = 0x87
type_code (array uint64) = 0x88
type_code (array float) = 0x90
type_code (array double) = 0x91

-- `static_cast<Packet::Type>(byte)`. A byte that is no enumerator goes where each `switch` of the
-- source sends it: to its `default`, like `Unknown`.
unfoldable pub cast_type : ℕ → PacketType
cast_type b =
    if b == 0x01
    then scalar int8
    else if b == 0x02
    then scalar int16
    else if b == 0x03
    then scalar int32
    else if b == 0x04
    then scalar int64
    else if b == 0x05
    then scalar uint8
    else if b == 0x06
    then scalar uint16
    else if b == 0x07
    then scalar uint32
    else if b == 0x08
    then scalar uint64
    else if b == 0x10
    then scalar float
    else if b == 0x11
    then scalar double
    else if b == 0x20
    then string
    else if b == 0x40
    then object
    else if b == 0x81
    then array int8
    else if b == 0x82
    then array int16
    else if b == 0x83
    then array int32
    else if b == 0x84
    then array int64
    else if b == 0x85
    then array uint8
    else if b == 0x86
    then array uint16
    else if b == 0x87
    then array uint32
    else if b == 0x88
    then array uint64
    else if b == 0x90
    then array float
    else if b == 0x91
    then array double
    else unknown

-- `sizeof`.
abbrev pub size_of : Scalar → ℕ
size_of int8 = 1
size_of int16 = 2
size_of int32 = 4
size_of int64 = 8
size_of uint8 = 1
size_of uint16 = 2
size_of uint32 = 4
size_of uint64 = 8
size_of float = 4
size_of double = 8

-- A value as the program holds it. A signed or floating number is its bit pattern, which is what
-- the source's casts store. `text` is a string without its terminator, `object` the fields of an
-- instance of a serializable class.
mutual
  pub data Value : Type 0 where
    number : Scalar → ℕ → Value
    text : ByteArray → Value
    numbers : Scalar → List ℕ → Value
    object_of : Values → Value

  pub data Values : Type 0 where
    nil : Values
    cons : Value → Values → Values

pub cast_type-type_code : (t : PacketType) → cast_type (type_code t) ≡ t
unfolding cast_type
cast_type-type_code unknown = refl
cast_type-type_code (scalar int8) = refl
cast_type-type_code (scalar int16) = refl
cast_type-type_code (scalar int32) = refl
cast_type-type_code (scalar int64) = refl
cast_type-type_code (scalar uint8) = refl
cast_type-type_code (scalar uint16) = refl
cast_type-type_code (scalar uint32) = refl
cast_type-type_code (scalar uint64) = refl
cast_type-type_code (scalar float) = refl
cast_type-type_code (scalar double) = refl
cast_type-type_code string = refl
cast_type-type_code object = refl
cast_type-type_code (array int8) = refl
cast_type-type_code (array int16) = refl
cast_type-type_code (array int32) = refl
cast_type-type_code (array int64) = refl
cast_type-type_code (array uint8) = refl
cast_type-type_code (array uint16) = refl
cast_type-type_code (array uint32) = refl
cast_type-type_code (array uint64) = refl
cast_type-type_code (array float) = refl
cast_type-type_code (array double) = refl

pub type_code-cast_type : (b : ℕ) → cast_type b ≢ unknown → type_code (cast_type b) ≡ b
unfolding cast_type
type_code-cast_type b h = ground arith
