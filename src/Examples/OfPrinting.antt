-- ===== src/Examples/OfPrinting.antt =====
-- Printing.
use sednl.Base.{codes, ◌+◌, ◌≡◌, refl, [], ◌∷◌, ByteArray}
use sednl.Exceptions.{Result, PacketExceptionT, ok, int8}
use sednl.Bytes.Host.{Host}
use sednl.Bytes.Order.{front_8}
use sednl.Packet.Types.{type_code, object, string, scalar}
use sednl.Packet.Print.{Ostream, Printer, output_packet, output_event}
use sednl.Examples.Hosts.{little}

instance abbrev host : Host
host = little

-- One digit for each number.
abbrev digits : Ostream
digits = record { show_int = λ n. (48 + n) ∷ []; show_scalar = λ s n. (48 + n) ∷ [] }

abbrev packet : ByteArray
packet =
    type_code object
    ∷ 2
    ∷ type_code (scalar int8)
    ∷ 7
    ∷ type_code string
    ∷ b'h'
    ∷ b'i'
    ∷ 0
    ∷ type_code (scalar int8)
    ∷ 9
    ∷ []

abbrev os_of : Result PacketExceptionT Printer (Unit {0}) → ByteArray
os_of (ok _ s) = s.os
os_of _ = []

packet-output :
    os_of (output_packet digits packet [])
    ≡ codes "{ Object_1 : { Int8_2 : 7, String_3 : hi,  }, Int8_4 : 9, }"
unfolding output_packet front_8
packet-output = refl

event-output :
    os_of (
      output_event digits
        (record { m_name = b'e' ∷ []; m_packet = type_code (scalar int8) ∷ 9 ∷ [] })
        [])
    ≡ codes "name : \"e\", packet : { Int8_1 : 9, }"
unfolding output_event front_8
event-output = refl

corrupted : os_of (output_packet digits (0 ∷ []) []) ≡ codes "{ Unknown_1 :  CORRUPTED ---"
unfolding output_packet front_8
corrupted = refl
