-- ===== src/Examples/OfPacket.antt =====
-- Packets.
use sednl.Base.{◌<◌, ◌↔◌, ◌^◌, ◌≡◌, refl, arith, [], ◌∷◌, ◌++◌, length}
use sednl.Exceptions.{ok, thrown, fault, uint16, int8, empty_object, aborted}
use sednl.Bytes.Host.{Host}
use sednl.Packet.Types.{text, object_of, Values}
use sednl.Packet.Write.{write, write_to_packet}
use sednl.Packet.Encode.{write-encode, write_to_packet-encode_all, write_object_limits}
use sednl.Packet.Format.{encode, encode_all, AllItems, count}
use sednl.Packet.Read.{read, read_from_packet, reader_of}
use sednl.Packet.ReadParts.{at}
use sednl.Packet.RoundTrip.{
  read_from_packet-write_to_packet, SameTypes, same_cons, same_nil, same_number, same_text,
  same_numbers, same_object,
}
use sednl.Packet.ReadTypes.{Stands, read_from_packet-typed}
use sednl.Packet.Valid.{is_valid, accept}
use sednl.Packet.ValidIff.{is_valid_iff}
use sednl.Packet.Valid.{outside, exhausted}
use sednl.Packet.ValidReads.{is_valid_ends, is_valid-unterminated}
use sednl.Packet.Message.{next_is, read-mismatch_what}
use sednl.Exceptions.What.{what_packet}
use sednl.Packet.Types.{type_code, string, object, scalar, cast_type, number}
use sednl.Exceptions.{PacketExceptionT}
use sednl.Base.{◌≢◌}
use sednl.Examples.Hosts.{little, big, three_values, three_bytes, three_variables}

instance abbrev host : Host
host = little

small : length three_bytes < 2 ^ 31
small = omega arith

items : AllItems three_values
items = ground arith

same : SameTypes three_variables three_values
same = same_cons (same_number uint16) (
    same_cons same_text (same_cons (same_object (same_cons (same_numbers int8) same_nil)) same_nil))

written : write_to_packet ⦃host = big⦄ three_values [] ≡ ok tt three_bytes
unfolding write_to_packet encode
written = write_to_packet-encode_all ⦃host = big⦄ three_values [] items (ground arith)

write-encode_example :
    write (text (104 ∷ 105 ∷ [])) (9 ∷ []) ≡ ok tt ((9 ∷ []) ++ encode (text (104 ∷ 105 ∷ [])))
write-encode_example = write-encode (text (104 ∷ 105 ∷ [])) (9 ∷ []) (ground arith) tt

write_object_limits_example :
    (count three_values ≡ 0 → write (object_of three_values) [] ≡ thrown empty_object [])
    × (255 < 3 → write (object_of three_values) [] ≡ fault aborted)
    × (0 < 3
        → 3 < 256
        → write (object_of three_values) [] ≡ ok tt ([] ++ encode (object_of three_values)))
write_object_limits_example = write_object_limits three_values [] (omega arith) items (ground arith)

read_from_packet-write_to_packet_example :
    read_from_packet three_variables (reader_of three_bytes)
    ≡ ok three_values (at three_bytes (length three_bytes))
read_from_packet-write_to_packet_example =
    read_from_packet-write_to_packet big little three_bytes same items (ground arith) written
      (omega arith)

is_valid_iff_example :
    (is_valid three_bytes ≡ accept tt)
    ↔ ((vs : Values) × AllItems vs × (three_bytes ≡ encode_all vs))
is_valid_iff_example = is_valid_iff three_bytes small (ground arith)

is_valid_ends_example : is_valid three_bytes ≢ exhausted
is_valid_ends_example = is_valid_ends three_bytes small (ground arith)

is_valid-unterminated_example : is_valid (type_code string ∷ 104 ∷ 105 ∷ []) ≡ outside
is_valid-unterminated_example = is_valid-unterminated (104 ∷ 105 ∷ []) (omega arith) (ground arith)

read-mismatch_what_example :
    (e : PacketExceptionT) × (read (number int8 4) (at three_bytes 3) ≡ thrown e (at three_bytes 3))
    × (what_packet e ≡ next_is string)
    × (scalar int8 ≡ object → string ≢ string)
    × (scalar int8 ≢ object → string ≡ string)
unfolding cast_type
read-mismatch_what_example =
    read-mismatch_what (number int8 4) three_bytes 3 0x20 refl refl (λ e. cc e)

read_from_packet-typed_example :
    Stands three_bytes three_variables three_values 0 (length three_bytes)
    × SameTypes three_variables three_values
    × AllItems three_values
    × ((at three_bytes (length three_bytes)).m_p ≡ three_bytes)
read_from_packet-typed_example =
    read_from_packet-typed three_bytes (ground arith) three_variables three_values 0
      (at three_bytes (length three_bytes)) (ground arith)
      (read_from_packet-write_to_packet big little three_bytes same items (ground arith) written
        (omega arith))
