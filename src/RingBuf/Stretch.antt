-- ===== src/RingBuf/Stretch.antt =====
-- The loops of `pick_event`, and the bytes at the front of the buffer.
use sednl.Base.{
  ℕ, zero, suc, ◌+◌, ◌-◌, ◌%◌, ◌^◌, ◌≤◌, ◌<◌, ◌≡◌, ap, ◌∙◌, sym, [], ◌∷◌, ◌++◌, ByteArray, arith,
  length, All, some, add_u32, drop, drop-cons, length-append, append-cancel, ne→==_false,
}
use native.Mathlib.Nat.{mod-add-mod}
use sednl.Packet.Format.{IsChar}
use sednl.RingBuf.Buffer.{RingBuf, used, name_loop, content_loop}
use sednl.RingBuf.Window.{window, length-window, window-add, drop-window}
use sednl.RingBuf.Put.{IsValid, places, contents, length-contents, used_lem, used_of_end}

pub name_loop_lem :
    (dt name : ByteArray) (n i : ℕ) (t : ByteArray)
    → All IsChar name
    → length name < n
    → i + n < 2 ^ 32
    → drop i dt ≡ name ++ (0 ∷ t)
    → name_loop dt n i ≡ some (name, i + length name, n - length name)
unfolding name_loop
name_loop_lem dt name zero i t h f small e = absurd (omega arith)
name_loop_lem dt [] (suc n) i t h f small e = rw ((drop-cons dt i e).0, name_loop) (ground arith)
name_loop_lem dt (c ∷ name) (suc n) i t h f small e =
    let (here, next) = drop-cons dt i e in
    let step : add_u32 i 1 ≡ i + 1 = omega arith in
    let rest = name_loop_lem dt name n (i + 1) t h.1 (omega arith) (omega arith) next in
    rw (here, name_loop) (rw (ne→==_false c 0 h.0.0, step, rest) (ground arith))

pub content_loop_lem :
    (dt bytes : ByteArray) (i : ℕ) (t : ByteArray)
    → i + length bytes < 2 ^ 32
    → drop i dt ≡ bytes ++ t
    → content_loop dt (length bytes) i ≡ some (bytes, i + length bytes)
unfolding content_loop
content_loop_lem dt [] i t small e = ground arith
content_loop_lem dt (c ∷ bytes) i t small e =
    let (here, next) = drop-cons dt i e in
    let step : add_u32 i 1 ≡ i + 1 = omega arith in
    let rest = content_loop_lem dt bytes (i + 1) t (omega arith) next in
    rw (here, content_loop) (rw (step, rest) (ground arith))

-- The first bytes of the buffer stand in one piece, if the storage does not end within them.
pub stretch :
    {r : RingBuf} (ys zs : ByteArray)
    → IsValid r
    → contents r ≡ ys ++ zs
    → r.m_start + length ys ≤ places r
    → drop r.m_start r.m_dt ≡ ys ++ drop (r.m_start + length ys) r.m_dt
unfolding contents
stretch {r} ys zs v e fits =
    let all : used r ≡ length ys + length zs =
      sym (length-contents v).0 ∙ ap length e ∙ length-append ys zs in
    let split =
      sym (window-add r.m_dt (places r) r.m_start (length ys) (length zs) v.start_in)
      ∙ ap (window r.m_dt (places r) r.m_start) (sym all)
      ∙ e in
    let (front, _) =
      append-cancel (window r.m_dt (places r) r.m_start (length ys)) ys
        (length-window r.m_dt (places r) r.m_start (length ys)) split in
    drop-window r.m_dt (places r) r.m_start (length ys) (omega (arith, v.storage)) fits
    ∙ ap (λ l. l ++ drop (r.m_start + length ys) r.m_dt) front

-- The buffer after its first bytes have been taken.
pub taken :
    {r : RingBuf} (ys zs : ByteArray)
    → IsValid r
    → contents r ≡ ys ++ zs
    → IsValid (record r { m_start = (r.m_start + length ys) % places r })
      × (contents (record r { m_start = (r.m_start + length ys) % places r }) ≡ zs)
unfolding contents
taken {r} ys zs v e = (valid, ap (window r.m_dt (places r) start) left ∙ back)
  where
    start : ℕ
    start = (r.m_start + length ys) % places r

    all : used r ≡ length ys + length zs
    all = sym (length-contents v).0 ∙ ap length e ∙ length-append ys zs

    valid : IsValid (record r { m_start = start })
    valid = record {
      storage = v.storage;
      start_in = omega arith;
      end_in = v.end_in;
      small = v.small;
    }

    end : r.m_end ≡ (start + length zs) % places r
    end =
        (used_lem v).1
        ∙ ap (λ k. (r.m_start + k) % places r) all
        ∙ ap (λ k. k % places r) (omega arith)
        ∙ sym (mod-add-mod (r.m_start + length ys) (places r) (length zs))

    left : used (record r { m_start = start }) ≡ length zs
    left = used_of_end (length zs) valid (omega (arith, used_lem v, all)) end

    split :
        window r.m_dt (places r) r.m_start (length ys) ++ window r.m_dt (places r) start (length zs)
        ≡ ys ++ zs
    split =
        sym (window-add r.m_dt (places r) r.m_start (length ys) (length zs) v.start_in)
        ∙ ap (window r.m_dt (places r) r.m_start) (sym all)
        ∙ e

    back : window r.m_dt (places r) start (length zs) ≡ zs
    back =
        (append-cancel (window r.m_dt (places r) r.m_start (length ys)) ys
          (length-window r.m_dt (places r) r.m_start (length ys)) split).1
