-- ===== src/Packet/Mismatch.antt =====
-- Reading where the packet has another type, or has ended.
use sednl.Base.{
  ℕ, ◌==◌, ◌≡◌, ◌≤◌, refl, ◌∙◌, Bool, true, false, some, get_elem?, get_elem?-some, ByteArray,
  length, leb, arith,
}
use sednl.Exceptions.{
  PacketExceptionT, Result, >>=-ok, >>=-thrown, ok, thrown, object_expected, ◌>>◌,
}
use sednl.Bytes.Host.{Host}
use sednl.Packet.Types.{
  PacketType, unknown, scalar, string, object, array, type_code, cast_type, Value, number, text,
  numbers, object_of, Values,
}
use sednl.Packet.Write.{number_of_args}
use sednl.Packet.Read.{
  read_from_packet, take_scalar, take_string, read_elements, PacketReader, Reader, has_next,
  next_type, exception_by_type, expect, check_header, read_object_header, read_typed, read_number,
  read_string, read_array, read, on_copy,
}
use sednl.Packet.ReadParts.{at}

-- The type byte that a variable asks for.
abbrev pub type_of : Value → PacketType
type_of (number s x) = scalar s
type_of (text s) = string
type_of (numbers s xs) = array s
type_of (object_of vs) = object

-- An object is refused in its own way; else the exception is named after the type found.
abbrev pub mismatch : Value → ℕ → PacketExceptionT
mismatch (number s x) b = exception_by_type (cast_type b)
mismatch (text s) b = exception_by_type (cast_type b)
mismatch (numbers s xs) b = exception_by_type (cast_type b)
mismatch (object_of vs) b = object_expected

abbrev pub at_end_result : Value → PacketReader → Result PacketExceptionT PacketReader Value
at_end_result (number s x) r = ok (number s x) r
at_end_result (text s) r = ok (text s) r
at_end_result (numbers s xs) r = ok (numbers s xs) r
at_end_result (object_of vs) r = thrown object_expected r

read_typed-other :
    {A : Type 0} (fits : ℕ → Bool) (old : A) (rest : Reader A) (p : ByteArray) (i b : ℕ)
    → get_elem? p i ≡ some b
    → fits b ≡ false
    → read_typed fits old rest (at p i) ≡ thrown (exception_by_type (cast_type b)) (at p i)
unfolding read_typed expect
read_typed-other fits old rest p i b here other =
    let more : leb (length p) i ≡ false = ground (arith, (get_elem?-some p i here).1) in
    rw (more, here) (rw other refl)

read_typed-at_end :
    {A : Type 0} (fits : ℕ → Bool) (old : A) (rest : Reader A) (p : ByteArray) (i : ℕ)
    → length p ≤ i
    → read_typed fits old rest (at p i) ≡ ok old (at p i)
unfolding read_typed
read_typed-at_end fits old rest p i end =
    let over : leb (length p) i ≡ true = ground arith in rw over refl

other_code : (b : ℕ) → (b == 0x40) ≡ false → (type_code (cast_type b) == 0x40) ≡ false
unfolding cast_type
other_code b h = ground arith

next_type-here :
    (p : ByteArray) (i b : ℕ)
    → get_elem? p i ≡ some b
    → next_type (at p i) ≡ ok (cast_type b) (at p i)
unfolding next_type has_next
next_type-here p i b here = ground (arith, (get_elem?-some p i here).1)

next_type-at_end : (p : ByteArray) (i : ℕ) → length p ≤ i → next_type (at p i) ≡ ok unknown (at p i)
unfolding next_type has_next
next_type-at_end p i end = ground arith

header-other :
    (n : ℕ) (p : ByteArray) (i b : ℕ)
    → get_elem? p i ≡ some b
    → (b == 0x40) ≡ false
    → read_object_header n (at p i) ≡ thrown object_expected (at p i)
unfolding read_object_header check_header
header-other n p i b here other =
    >>=-ok next_type (check_header n) (at p i) (next_type-here p i b here)
    ∙ rw (other_code b other) refl

header-at_end :
    (n : ℕ) (p : ByteArray) (i : ℕ)
    → length p ≤ i
    → read_object_header n (at p i) ≡ thrown object_expected (at p i)
unfolding read_object_header check_header
header-at_end n p i end = >>=-ok next_type (check_header n) (at p i) (next_type-at_end p i end)

on_copy-thrown :
    {A : Type 0} (m : Reader A) (r : PacketReader) {e : PacketExceptionT} {r' : PacketReader}
    → m r ≡ thrown e r'
    → on_copy m r ≡ thrown e r
on_copy-thrown m r h = rw (h, on_copy) refl

module _ ⦃host : Host⦄ where
  object-refused :
      (vs : Values) (r : PacketReader)
      → read_object_header (number_of_args vs) r ≡ thrown object_expected r
      → read (object_of vs) r ≡ thrown object_expected r
  unfolding read
  object-refused vs r h =
      let header = read_object_header (number_of_args vs) in
      >>=-thrown (on_copy (header >> read_from_packet vs)) _ r (
        on_copy-thrown (header >> read_from_packet vs) r
          (>>=-thrown header (λ _. read_from_packet vs) r h))

  -- Where another type byte stands than the variable's, reading throws, and the reader stays where it
  -- is. For an object the exception is `ObjectExpected`, for any other variable it is named after the
  -- type that was found.
  pub read-mismatch :
      (d : Value) (p : ByteArray) (i b : ℕ)
      → get_elem? p i ≡ some b
      → (b == type_code (type_of d)) ≡ false
      → read d (at p i) ≡ thrown (mismatch d b) (at p i)
  unfolding read read_number read_string read_array read_object_header next_type has_next
      check_header
  read-mismatch (number s x) p i b here other =
      >>=-thrown (read_number s x) _ (at p i)
        (read_typed-other (λ c. c == type_code (scalar s)) x (take_scalar s) p i b here other)
  read-mismatch (text s) p i b here other =
      >>=-thrown (read_string s) _ (at p i)
        (read_typed-other (λ c. c == type_code string) s take_string p i b here other)
  read-mismatch (numbers s xs) p i b here other =
      >>=-thrown (read_array s xs) _ (at p i)
        (read_typed-other (λ c. c == type_code (array s)) xs (read_elements s) p i b here other)
  read-mismatch (object_of vs) p i b here other =
      object-refused vs (at p i) (header-other (number_of_args vs) p i b here other)

  -- At the end of a packet, a variable keeps its value and nothing is thrown, except for an object,
  -- which is refused with `ObjectExpected`.
  read-at_end :
      (d : Value) (p : ByteArray) (i : ℕ)
      → length p ≤ i
      → read d (at p i) ≡ at_end_result d (at p i)
  unfolding read read_number read_string read_array read_object_header next_type has_next
      check_header
  read-at_end (number s x) p i end =
      >>=-ok (read_number s x) _ (at p i)
        (read_typed-at_end (λ c. c == type_code (scalar s)) x (take_scalar s) p i end)
  read-at_end (text s) p i end =
      >>=-ok (read_string s) _ (at p i)
        (read_typed-at_end (λ c. c == type_code string) s take_string p i end)
  read-at_end (numbers s xs) p i end =
      >>=-ok (read_array s xs) _ (at p i)
        (read_typed-at_end (λ c. c == type_code (array s)) xs (read_elements s) p i end)
  read-at_end (object_of vs) p i end =
      object-refused vs (at p i) (header-at_end (number_of_args vs) p i end)
