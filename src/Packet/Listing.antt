-- ===== src/Packet/Listing.antt =====
-- The text of a packet, as a function of its values.
use sednl.Base.{codes, ℕ, suc, ◌+◌, [], ◌++◌, ByteArray}
use sednl.Packet.Types.{
  scalar, string, object, array, Value, number, text, numbers, object_of, Values, nil, cons,
}
use sednl.Packet.Print.{Ostream, label, show_array}

-- How many items a value is: itself, and those in its fields.
abbrev mutual
  pub items : Value → ℕ
  items (number s x) = 1
  items (text s) = 1
  items (numbers s xs) = 1
  items (object_of vs) = suc (all_items vs)

  pub all_items : Values → ℕ
  all_items nil = 0
  all_items (cons v vs) = items v + all_items vs

module _ (stream : Ostream) where
  open stream use {show_scalar}

  -- The text of a value, behind `n` items: a label with its type and its number, and its content.
  abbrev mutual
    pub text_of : ℕ → Value → ByteArray
    text_of n (number s x) = label stream (scalar s) (n + 1) ++ show_scalar s x
    text_of n (text s) = label stream string (n + 1) ++ s
    text_of n (numbers s xs) = label stream (array s) (n + 1) ++ show_array stream s xs
    text_of n (object_of vs) =
        label stream object (n + 1) ++ (codes "{ " ++ (texts_of (n + 1) vs ++ codes " }"))

    pub texts_of : ℕ → Values → ByteArray
    texts_of n nil = []
    texts_of n (cons v vs) = text_of n v ++ (codes ", " ++ texts_of (n + items v) vs)

  abbrev pub text_of_packet : Values → ByteArray
  text_of_packet vs = codes "{ " ++ (texts_of 0 vs ++ codes "}")
