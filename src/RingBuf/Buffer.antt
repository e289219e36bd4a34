-- ===== src/RingBuf/Buffer.antt =====
-- `RingBuf` and its member functions. `new` is taken to succeed.
use sednl.Base.{
  ℕ, zero, suc, ◌+◌, ◌%◌, ◌==◌, ltb, leb, List, [], ◌∷◌, ByteArray, if◌then◌else◌, length,
  get_elem?, set, replicate, add_u32, sub_u32, Bool, true, false, Option, none, some,
}
use sednl.Bytes.Host.{Host, load_16}
use sednl.Packet.Valid.{Verdict, accept, is_valid}
use sednl.Event.Pack.{Event}

pub record RingBuf : Type 0 where
  pub m_dt : ByteArray
  pub m_size : ℕ
  pub m_start : ℕ
  pub m_end : ℕ

-- The constructor. `new UInt8[]` leaves its bytes undetermined; the model takes them from `fill`.
unfoldable pub make : (fill : ℕ) → ℕ → RingBuf
make fill size = record {
  m_dt = replicate (add_u32 size 1) fill;
  m_size = size;
  m_start = 0;
  m_end = 0;
}

-- The number of bytes in the buffer, `RingBuf::length`.
unfoldable pub used : RingBuf → ℕ
used r =
    if leb r.m_start r.m_end
    then sub_u32 r.m_end r.m_start
    else add_u32 (sub_u32 (add_u32 r.m_size 1) r.m_start) r.m_end

unfoldable pub reset : RingBuf → RingBuf
reset r = record r { m_start = r.m_end }

-- `ROUND`.
abbrev pub round : RingBuf → ℕ → ℕ
round r pos = pos % add_u32 r.m_size 1

-- One round of the loop of `put`. A write outside `m_dt` would change nothing here; no valid buffer
-- makes one.
unfoldable pub put_byte : RingBuf → ℕ → RingBuf
put_byte r c = record r { m_dt = set r.m_dt r.m_end c; m_end = round r (add_u32 r.m_end 1) }

unfoldable pub put_loop : RingBuf → List ℕ → RingBuf
unfolding put_byte
put_loop r [] = r
put_loop r (c ∷ cs) = put_loop (put_byte r c) cs

-- `put`, on the `length` bytes that `string` points to.
unfoldable pub put : RingBuf → List ℕ → RingBuf × Bool
put r s = if ltb r.m_size (add_u32 (used r) (length s)) then (r, false) else (put_loop r s, true)

-- What `pick_event` returns: the event if it is `true`, and the buffer. `outside` is a read outside
-- `m_dt` or the packet, `exhausted` the bound of `is_valid`, which is not reached.
pub data Pick : Type 0 where
  picked : Event → RingBuf → Pick
  nothing : RingBuf → Pick
  outside exhausted : Pick

infixl 5 ◌>>=◌
abbrev pub ◌>>=◌ : {A : Type 0} → Option A → (A → Pick) → Pick
none >>= f = outside
some a >>= f = f a

-- The loop over the name: its bytes, and `dt_idx` and `remaining` after it. The argument is
-- `remaining`; nothing wraps `dt_idx` at the end of `m_dt`.
unfoldable pub name_loop : ByteArray → ℕ → ℕ → Option (ByteArray × ℕ × ℕ)
name_loop dt zero dt_idx = some ([], dt_idx, zero)
name_loop dt (suc n) dt_idx =
    let rest = name_loop dt n (add_u32 dt_idx 1) in
    elim (get_elem? dt dt_idx) [
      | none ↦ none
      | some b ↦ elim (b == 0) [
        | true ↦ some ([], dt_idx, suc n)
        | false ↦ elim rest [
          | none ↦ none
          | some (name, i, remaining) ↦ some (b ∷ name, i, remaining)
        ]
      ]
    ]

-- The loop over the content, which ends with `remaining` at 0.
unfoldable pub content_loop : ByteArray → ℕ → ℕ → Option (ByteArray × ℕ)
content_loop dt zero dt_idx = some ([], dt_idx)
content_loop dt (suc n) dt_idx = elim (get_elem? dt dt_idx) [
  | none ↦ none
  | some b ↦ elim (content_loop dt n (add_u32 dt_idx 1)) [
    | none ↦ none
    | some (bytes, i) ↦ some (b ∷ bytes, i)
  ]
]

module _ ⦃host : Host⦄ where
  -- The end of `pick_event`. An invalid packet stays in the buffer.
  unfoldable pub finish : RingBuf → ByteArray → ByteArray × ℕ → Pick
  unfolding is_valid
  finish r name (content, dt_idx) = elim (is_valid content) [
    | accept _ ↦
        picked (record { m_name = name; m_packet = content })
          (record r { m_start = round r dt_idx })
    | Verdict.reject ↦ nothing r
    | Verdict.outside ↦ outside
    | Verdict.exhausted ↦ exhausted
  ]

  -- `pick_event` past the loop over the name.
  unfoldable pub pick_content : RingBuf → ℕ → ByteArray × ℕ × ℕ → Pick
  unfolding finish content_loop
  pick_content r packet_length (name, dt_idx, remaining) =
      if remaining == 0
      then nothing (record r { m_start = round r (add_u32 r.m_start packet_length) })
      else (content_loop r.m_dt (sub_u32 remaining 1) (add_u32 dt_idx 1) >>= finish r name)

  -- `pick_event` past the length of the packet, which is at least 3.
  unfoldable pub pick_sized : RingBuf → ℕ → Pick
  unfolding used name_loop pick_content
  pick_sized r packet_length =
      if ltb (used r) packet_length
      then nothing r
      else (name_loop r.m_dt (sub_u32 packet_length 2) (round r (r.m_start + 2))
          >>= pick_content r packet_length)

  unfoldable pub pick_event : RingBuf → Pick
  unfolding used pick_sized
  pick_event r =
      if ltb (used r) 2
      then nothing r
      else (get_elem? r.m_dt r.m_start >>= λ a. get_elem? r.m_dt (add_u32 r.m_start 1) >>= λ b.
          let packet_length = host.ntohs (load_16 a b) in
          pick_sized r (if ltb packet_length 3 then 3 else packet_length))
