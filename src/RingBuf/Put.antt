-- ===== src/RingBuf/Put.antt =====
-- `put`, `length` and `reset` against a bounded queue of bytes.
use sednl.Base.{
  ℕ, suc, ◌+◌, ◌-◌, ◌%◌, ◌^◌, ◌≤◌, ◌<◌, ◌≡◌, refl, ap, ◌∙◌, sym, List, [], ◌∷◌, ◌++◌, ByteArray,
  arith, length, set, get_or, get_or-set_self, length-set, append_assoc, append-nil, true, false,
  ltb, length-replicate, add_u32, Bool-cases, inl, inr, ◌⊎◌,
}
use native.Mathlib.Nat.{mod-add-mod, mod-eq_of_lt, mod-eq-sub-mod}
use native.Mathlib.Decide.{dec_lt}
use sednl.RingBuf.Buffer.{RingBuf, make, used, reset, put_byte, put_loop, put}
use sednl.RingBuf.Window.{window, length-window, window-snoc, window-set}

-- One place more than `size()`, so that a full buffer differs from an empty one.
abbrev pub places : RingBuf → ℕ
places r = suc r.m_size

pub record IsValid (r : RingBuf) : Type 0 where
  pub storage : length r.m_dt ≡ places r
  pub start_in : r.m_start < places r
  pub end_in : r.m_end < places r
  pub small : r.m_size < 2 ^ 31

-- The bytes in the buffer, the oldest first.
unfoldable pub contents : RingBuf → ByteArray
contents r = window r.m_dt (places r) r.m_start (used r)

used_cases :
    {r : RingBuf}
    → IsValid r
    → ((r.m_start ≤ r.m_end) × (r.m_start + used r ≡ r.m_end))
      ⊎ ((r.m_end < r.m_start) × (r.m_start + used r ≡ r.m_end + places r))
unfolding used
used_cases v = ground arith

mod-once : (p x e : ℕ) → e < p → x ≡ e + p → e ≡ x % p
mod-once p x e h eq = omega (
  arith,
  mod-eq-sub-mod {n = x} {m = p} (omega arith),
  mod-eq_of_lt {n = x - p} {m = p} (omega arith),
)

-- The length counts the steps from the start to the end, and is at most the size.
pub used_lem :
    {r : RingBuf} → IsValid r → (used r ≤ r.m_size) × (r.m_end ≡ (r.m_start + used r) % places r)
used_lem {r} v = elim (used_cases v) [
  | inl (le, e) ↦
      (omega (arith, v.end_in), sym (ap (λ k. k % places r) e ∙ mod-eq_of_lt (v.end_in)))
  | inr (lt, e) ↦
      (omega (arith, v.start_in), mod-once (places r) (r.m_start + used r) r.m_end v.end_in e)
]

-- Where the end stands tells the length.
pub used_of_end :
    {r : RingBuf} (n : ℕ)
    → IsValid r
    → n ≤ r.m_size
    → r.m_end ≡ (r.m_start + n) % places r
    → used r ≡ n
used_of_end {r} n v le e = elim (dec_lt (r.m_start + n) (places r)) [
  | yes below ↦
      let stop : r.m_end ≡ r.m_start + n = e ∙ mod-eq_of_lt below in omega (arith, used_cases v)
  | no above ↦
      let once : r.m_start + n - places r ≡ (r.m_start + n) % places r =
        mod-once (places r) (r.m_start + n) (r.m_start + n - places r) (omega (arith, v.start_in))
          (omega arith) in
      omega (arith, used_cases v)
]

-- The buffer's length is the number of its bytes, and at most its size.
pub length-contents :
    {r : RingBuf} → IsValid r → (length (contents r) ≡ used r) × (used r ≤ r.m_size)
unfolding contents
length-contents {r} v = (length-window r.m_dt (places r) r.m_start (used r), (used_lem v).0)

-- A new buffer is valid and empty.
pub make-IsValid :
    (fill size : ℕ) → size < 2 ^ 31 → IsValid (make fill size) × (contents (make fill size) ≡ [])
unfolding make contents used
make-IsValid fill size h = (
  record {
    storage = omega (arith, length-replicate (add_u32 size 1) fill);
    start_in = omega arith;
    end_in = omega arith;
    small = h;
  },
  refl,
)

-- `reset` keeps a buffer valid, and empties it.
reset-IsValid : {r : RingBuf} → IsValid r → IsValid (reset r) × (contents (reset r) ≡ [])
unfolding reset contents
reset-IsValid {r} v =
    (record { storage = v.storage; start_in = v.end_in; end_in = v.end_in; small = v.small }, empty)
  where
    none_left : used (reset r) ≡ 0
    none_left = unfold used in ground arith

    empty : contents (reset r) ≡ []
    empty = ap (window r.m_dt (places r) r.m_end) none_left

put_byte-IsValid : {r : RingBuf} (c : ℕ) → IsValid r → IsValid (put_byte r c)
unfolding put_byte
put_byte-IsValid {r} c v = ground (arith, length-set r.m_dt r.m_end c)

put_byte_end :
    {r : RingBuf} (c : ℕ) → IsValid r → (put_byte r c).m_end ≡ (r.m_start + suc (used r)) % places r
unfolding put_byte
put_byte_end {r} c v =
    let step : add_u32 r.m_end 1 ≡ r.m_end + 1 = omega (arith, v.small) in
    let size : add_u32 r.m_size 1 ≡ places r = omega (arith, v.small) in
    let plain : add_u32 r.m_end 1 % add_u32 r.m_size 1 ≡ (r.m_end + 1) % places r =
      rw (step, size) in
    let shift : r.m_start + used r + 1 ≡ r.m_start + suc (used r) = omega arith in
    plain
    ∙ ap (λ k. (k + 1) % places r) ((used_lem v).1)
    ∙ mod-add-mod _ (places r) 1
    ∙ ap (λ k. k % places r) shift

put_byte_lem :
    {r : RingBuf} (c : ℕ)
    → IsValid r
    → used r < r.m_size
    → (used (put_byte r c) ≡ suc (used r)) × (contents (put_byte r c) ≡ contents r ++ (c ∷ []))
unfolding contents put_byte
put_byte_lem {r} c v room = (
  more,
  ap (window dt' (places r) r.m_start) more
      ∙ window-snoc dt' (places r) r.m_start (used r) v.start_in
      ∙ cc (kept, last),
)
  where
    dt' : ByteArray
    dt' = (put_byte r c).m_dt

    more : used (put_byte r c) ≡ suc (used r)
    more = used_of_end (suc (used r)) (put_byte-IsValid c v) room (put_byte_end c v)

    at_end : (r.m_start + used r + 0) % places r ≡ r.m_end
    at_end = ap (λ k. k % places r) (omega arith) ∙ sym ((used_lem v).1)

    kept : window dt' (places r) r.m_start (used r) ≡ window r.m_dt (places r) r.m_start (used r)
    kept =
        (ap (λ k. window (set r.m_dt k c) (places r) r.m_start (used r)) (sym at_end)
          ∙ window-set r.m_dt (places r) r.m_start (used r) 0 c v.start_in (omega arith))

    last : get_or dt' ((r.m_start + used r) % places r) 0 ≡ c
    last =
        (ap (λ k. get_or (set r.m_dt r.m_end c) k 0) (sym ((used_lem v).1))
          ∙ get_or-set_self r.m_dt r.m_end c 0 (omega (arith, v.storage, v.end_in)))

put_loop_lem :
    (s : List ℕ) (r : RingBuf)
    → IsValid r
    → used r + length s ≤ r.m_size
    → IsValid (put_loop r s) × (contents (put_loop r s) ≡ contents r ++ s)
unfolding put_loop
put_loop_lem [] r v room = (v, sym (append-nil (contents r)))
put_loop_lem (c ∷ s) r v room =
    let (more, held) = put_byte_lem c v (omega arith) in
    let fits : used (put_byte r c) + length s ≤ r.m_size =
      unfold put_byte in (omega (arith, more)) in
    let (v', held') = put_loop_lem s (put_byte r c) (put_byte-IsValid c v) fits in
    (v', held' ∙ ap (λ t. t ++ s) held ∙ append_assoc (contents r) (c ∷ []) s)

-- `put` appends the string if the buffer has room for all of it. Else it returns `false` and leaves
-- the buffer as it was. It keeps the buffer valid.
pub put_lem :
    {r : RingBuf} (s : List ℕ)
    → IsValid r
    → length s < 2 ^ 31
    → IsValid (put r s).0
      × (used r + length s ≤ r.m_size
          → ((put r s).1 ≡ true) × (contents (put r s).0 ≡ contents r ++ s))
      × (r.m_size < used r + length s → put r s ≡ (r, false))
unfolding put
put_lem {r} s v short =
    let (bound, end) = used_lem v in
    let sum : add_u32 (used r) (length s) ≡ used r + length s = omega (arith, bound, v.small) in
    elim (Bool-cases (ltb r.m_size (used r + length s))) [
      | inl full ↦ (rw (sum, full) v, λ le. absurd (ground arith), λ _. rw (sum, full))
      | inr room ↦
          let fits : used r + length s ≤ r.m_size = ground arith in
          let (valid, held) = put_loop_lem s r v fits in
          (rw (sum, room) valid, λ _. rw (sum, room) (refl, held), λ h. absurd (omega arith))
    ]

put_loop-m_start :
    (r : RingBuf) (s : List ℕ)
    → ((put_loop r s).m_start ≡ r.m_start) × ((put_loop r s).m_size ≡ r.m_size)
unfolding put_loop put_byte
put_loop-m_start r [] = (refl, refl)
put_loop-m_start r (c ∷ cs) = put_loop-m_start (put_byte r c) cs

pub put-m_start :
    (r : RingBuf) (s : List ℕ) → ((put r s).0.m_start ≡ r.m_start) × ((put r s).0.m_size ≡ r.m_size)
unfolding put
put-m_start r s = elim (Bool-cases (ltb r.m_size (add_u32 (used r) (length s)))) [
  | inl full ↦ rw full (refl, refl)
  | inr room ↦ rw room (put_loop-m_start r s)
]
