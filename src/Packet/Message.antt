-- ===== src/Packet/Message.antt =====
-- What the exception says that reading throws where another type stands.
use sednl.Base.{
  ◌≡◌, ◌≢◌, refl, ap, ◌∙◌, ℕ, ◌==◌, false, some, ◌++◌, ByteArray, get_elem?, codes, arith,
}
use sednl.Exceptions.{
  PacketExceptionT, thrown, int8, int16, int32, int64, uint8, uint16, uint32, uint64, float, double,
}
use sednl.Exceptions.What.{what_packet}
use sednl.Bytes.Host.{Host}
use sednl.Packet.Types.{
  PacketType, unknown, scalar, string, object, array, type_code, cast_type, type_code-cast_type,
  Value, number, text, numbers, object_of,
}
use sednl.Packet.Read.{exception_by_type, read}
use sednl.Packet.ReadParts.{at}
use sednl.Packet.Print.{type_to_string}
use sednl.Packet.Mismatch.{type_of, mismatch, read-mismatch}

-- The article of the source before the name of a type.
abbrev pub article : PacketType → ByteArray
article (scalar float) = codes "a "
article (scalar double) = codes "a "
article (array float) = codes "a "
article (array double) = codes "a "
article string = codes "a "
article _ = codes "an "

abbrev pub next_is : PacketType → ByteArray
next_is t =
    codes "The next element of this packet is " ++ (article t ++ (type_to_string t ++ codes "."))

what-exception_by_type :
    (t : PacketType) → t ≢ unknown → what_packet (exception_by_type t) ≡ next_is t
unfolding what_packet exception_by_type type_to_string
what-exception_by_type unknown h = absurd (h refl)
what-exception_by_type (scalar int8) h = refl
what-exception_by_type (scalar int16) h = refl
what-exception_by_type (scalar int32) h = refl
what-exception_by_type (scalar int64) h = refl
what-exception_by_type (scalar uint8) h = refl
what-exception_by_type (scalar uint16) h = refl
what-exception_by_type (scalar uint32) h = refl
what-exception_by_type (scalar uint64) h = refl
what-exception_by_type (scalar float) h = refl
what-exception_by_type (scalar double) h = refl
what-exception_by_type string h = refl
what-exception_by_type object h = refl
what-exception_by_type (array int8) h = refl
what-exception_by_type (array int16) h = refl
what-exception_by_type (array int32) h = refl
what-exception_by_type (array int64) h = refl
what-exception_by_type (array uint8) h = refl
what-exception_by_type (array uint16) h = refl
what-exception_by_type (array uint32) h = refl
what-exception_by_type (array uint64) h = refl
what-exception_by_type (array float) h = refl
what-exception_by_type (array double) h = refl

-- The type that the text names.
abbrev pub named_type : Value → ℕ → PacketType
named_type (number s x) b = cast_type b
named_type (text s) b = cast_type b
named_type (numbers s xs) b = cast_type b
named_type (object_of vs) b = object

what-mismatch :
    (d : Value) (b : ℕ)
    → cast_type b ≢ unknown
    → what_packet (mismatch d b) ≡ next_is (named_type d b)
unfolding exception_by_type
what-mismatch (number s x) b h = what-exception_by_type (cast_type b) h
what-mismatch (text s) b h = what-exception_by_type (cast_type b) h
what-mismatch (numbers s xs) b h = what-exception_by_type (cast_type b) h
what-mismatch (object_of vs) b h = what-exception_by_type object (λ e. cc e)

named_type-object :
    (d : Value) (b : ℕ)
    → (b == type_code (type_of d)) ≡ false
    → cast_type b ≢ unknown
    → type_of d ≡ object
    → named_type d b ≢ cast_type b
named_type-object (number s x) b other known e = absurd (cc e)
named_type-object (text s) b other known e = absurd (cc e)
named_type-object (numbers s xs) b other known e = absurd (cc e)
named_type-object (object_of vs) b other known e = λ same.
    let found : 0x40 ≡ b = ap type_code same ∙ type_code-cast_type b known in ground (arith, found)

named_type-other : (d : Value) (b : ℕ) → type_of d ≢ object → named_type d b ≡ cast_type b
named_type-other (number s x) b h = refl
named_type-other (text s) b h = refl
named_type-other (numbers s xs) b h = refl
named_type-other (object_of vs) b h = absurd (h refl)

module _ ⦃host : Host⦄ where
  -- Where another type of value stands than the variable's, the text of the exception that reading
  -- throws says what is next in the packet: rightly the type that stands there, but for an object
  -- variable always `Object`, which is not there.
  pub read-mismatch_what :
      (d : Value) (p : ByteArray) (i b : ℕ)
      → get_elem? p i ≡ some b
      → (b == type_code (type_of d)) ≡ false
      → cast_type b ≢ unknown
      → (e : PacketExceptionT) × (read d (at p i) ≡ thrown e (at p i))
        × (what_packet e ≡ next_is (named_type d b))
        × (type_of d ≡ object → named_type d b ≢ cast_type b)
        × (type_of d ≢ object → named_type d b ≡ cast_type b)
  read-mismatch_what d p i b here other known = (
    mismatch d b,
    read-mismatch d p i b here other,
    what-mismatch d b known,
    named_type-object d b other known,
    named_type-other d b,
  )
