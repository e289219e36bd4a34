-- ===== src/Packet/Format.antt =====
-- The format of a packet: what each value is written as, whatever the host.
use sednl.Base.{ℕ, suc, ◌^◌, ◌<◌, ◌≢◌, List, [], ◌∷◌, ◌++◌, ByteArray, length, All}
use sednl.Exceptions.{
  Scalar, int8, int16, int32, int64, uint8, uint16, uint32, uint64, float, double,
}
use sednl.Bytes.Wire.{be_16, be_32, be_64}
use sednl.Packet.Types.{
  scalar, string, object, array, type_code, size_of, Value, number, text, numbers, object_of,
  Values, nil, cons,
}

-- A number's bytes, the highest first.
abbrev pub encode_scalar : Scalar → ℕ → ByteArray
encode_scalar int8 x = x ∷ []
encode_scalar uint8 x = x ∷ []
encode_scalar int16 x = be_16 x
encode_scalar uint16 x = be_16 x
encode_scalar int32 x = be_32 x
encode_scalar uint32 x = be_32 x
encode_scalar float x = be_32 x
encode_scalar int64 x = be_64 x
encode_scalar uint64 x = be_64 x
encode_scalar double x = be_64 x

abbrev pub encode_scalars : Scalar → List ℕ → ByteArray
encode_scalars s [] = []
encode_scalars s (x ∷ xs) = encode_scalar s x ++ encode_scalars s xs

abbrev pub count : Values → ℕ
count nil = 0
count (cons v vs) = suc (count vs)

unfoldable mutual
  pub encode : Value → ByteArray
  encode (number s x) = type_code (scalar s) ∷ encode_scalar s x
  encode (text s) = type_code string ∷ (s ++ (0 ∷ []))
  encode (numbers s xs) = type_code (array s) ∷ (be_16 (length xs) ++ encode_scalars s xs)
  encode (object_of vs) = type_code object ∷ count vs ∷ encode_all vs

  pub encode_all : Values → ByteArray
  encode_all nil = []
  encode_all (cons v vs) = encode v ++ encode_all vs

-- A value of its C++ type: a number within its width, a string of non-null characters, an array of
-- at most 65535 numbers, an object of at most 255 fields.
abbrev pub Within : Scalar → ℕ → Type 0
Within s x = x < 256 ^ size_of s

abbrev pub IsChar : ℕ → Type 0
IsChar c = (c ≢ 0) × (c < 256)

abbrev mutual
  pub IsItem : Value → Type 0
  IsItem (number s x) = Within s x
  IsItem (text s) = All IsChar s
  IsItem (numbers s xs) = (length xs < 2 ^ 16) × All (Within s) xs
  IsItem (object_of vs) = (count vs < 256) × AllItems vs

  pub AllItems : Values → Type 0
  AllItems nil = Unit
  AllItems (cons v vs) = IsItem v × AllItems vs

-- Every object in the value has a field, as `write_object_header` demands.
abbrev mutual
  pub HasFields : Value → Type 0
  HasFields (number s x) = Unit
  HasFields (text s) = Unit
  HasFields (numbers s xs) = Unit
  HasFields (object_of vs) = (0 < count vs) × AllHaveFields vs

  pub AllHaveFields : Values → Type 0
  AllHaveFields nil = Unit
  AllHaveFields (cons v vs) = HasFields v × AllHaveFields vs
