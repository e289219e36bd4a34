-- ===== src/Event/Pack.antt =====
-- `Event`, `Event::get_header` and `Event::pack`.
use sednl.Base.{◌+◌, ◌%◌, ◌^◌, [], ◌∷◌, ◌++◌, ByteArray, length}
use sednl.Bytes.Host.{Host}
use sednl.Bytes.Order.{push_16}

pub record Event : Type 0 where
  pub m_name : ByteArray
  pub m_packet : ByteArray

module _ ⦃host : Host⦄ where
  -- The length is a `UInt16`, whatever the event's size.
  unfoldable pub get_header : Event → ByteArray
  get_header e =
      let n = (length e.m_packet + length e.m_name + 1 + 2) % 2 ^ 16 in
      (push_16 [] n ++ e.m_name) ++ (0 ∷ [])

  unfoldable pub pack : Event → ByteArray
  unfolding get_header
  pack e = get_header e ++ e.m_packet
