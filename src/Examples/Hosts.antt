-- ===== src/Examples/Hosts.antt =====
-- A host of either byte order, with the C library's conversions written out, and test data.
use sednl.Base.{[], ◌∷◌, ByteArray, true, false, refl}
use sednl.Bytes.Host.{Host, swap_16, swap_32}
use sednl.Exceptions.{uint16, int8}
use sednl.Packet.Types.{number, text, numbers, object_of, Values, nil, cons}
use sednl.Event.Pack.{Event}

abbrev pub little : Host
little = record {
  big_endian = false;
  htons = swap_16;
  ntohs = swap_16;
  htonl = swap_32;
  ntohl = swap_32;
  htons_order = λ x h. refl;
  ntohs_order = λ x h. refl;
  htonl_order = λ x h. refl;
  ntohl_order = λ x h. refl;
}

abbrev pub big : Host
big = record {
  big_endian = true;
  htons = λ x. x;
  ntohs = λ x. x;
  htonl = λ x. x;
  ntohl = λ x. x;
  htons_order = λ x h. refl;
  ntohs_order = λ x h. refl;
  htonl_order = λ x h. refl;
  ntohl_order = λ x h. refl;
}

-- `make_packet((UInt16) 258, "hi", object)`, and its bytes.
abbrev pub three_values : Values
three_values =
    cons (number uint16 258)
      (cons (text (104 ∷ 105 ∷ [])) (cons (object_of (cons (numbers int8 (7 ∷ 255 ∷ [])) nil)) nil))

abbrev pub three_bytes : ByteArray
three_bytes = 6 ∷ 1 ∷ 2 ∷ 0x20 ∷ 104 ∷ 105 ∷ 0 ∷ 0x40 ∷ 1 ∷ 0x81 ∷ 0 ∷ 2 ∷ 7 ∷ 255 ∷ []

-- Variables to read them into.
abbrev pub three_variables : Values
three_variables =
    cons (number uint16 0) (cons (text []) (cons (object_of (cons (numbers int8 []) nil)) nil))

-- `Event("abc", make_packet((Int8) 5))`.
abbrev pub abc : Event
abc = record { m_name = 97 ∷ 98 ∷ 99 ∷ []; m_packet = 1 ∷ 5 ∷ [] }
