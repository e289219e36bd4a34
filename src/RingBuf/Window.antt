-- ===== src/RingBuf/Window.antt =====
-- The bytes that a stretch of the circular array holds.
use sednl.Base.{
  ℕ, zero, suc, ◌+◌, ◌-◌, ◌%◌, ◌≤◌, ◌<◌, ◌≡◌, ◌≢◌, refl, ap, ◌∙◌, sym, [], ◌∷◌, ◌++◌, ByteArray,
  arith, length, set, get_or, get_or-set_ne, drop, get_elem?-eq-get_or, get_elem?-some,
}
use native.Mathlib.Nat.{mod-add-mod, mod-eq_of_lt, mod-eq-sub-mod}
use native.Mathlib.Decide.{dec_lt}

-- The `n` bytes from index `h` on, in an array of `places` places whose end is followed by its start.
abbrev pub window : ByteArray → ℕ → ℕ → ℕ → ByteArray
window dt places h zero = []
window dt places h (suc n) = get_or dt h 0 ∷ window dt places ((h + 1) % places) n

pub length-window : (dt : ByteArray) (places h n : ℕ) → length (window dt places h n) ≡ n
length-window dt places h zero = refl
length-window dt places h (suc n) = ap suc (length-window dt places ((h + 1) % places) n)

pub turn : (places h n : ℕ) → ((h + 1) % places + n) % places ≡ (h + suc n) % places
turn places h n = rw mod-add-mod (ap (λ k. k % places) (omega arith))

round_self : (places h : ℕ) → h < places → (h + 0) % places ≡ h
round_self places h hh = ap (λ k. k % places) (omega arith) ∙ mod-eq_of_lt hh

-- Fewer than `places` steps from `h` lead elsewhere.
elsewhere : (places h k : ℕ) → h < places → suc k < places → h ≢ (h + suc k) % places
elsewhere places h k hh hk = elim (dec_lt (h + suc k) places) [
  | yes p ↦ omega (arith, mod-eq_of_lt p)
  | no p ↦ omega (
    arith,
    mod-eq-sub-mod {n = h + suc k} {m = places} (omega arith),
    mod-eq_of_lt {n = h + suc k - places} {m = places} (omega arith),
  )
]

-- A window is followed by the byte `n` places on.
pub window-snoc :
    (dt : ByteArray) (places h n : ℕ)
    → h < places
    → window dt places h (suc n) ≡ window dt places h n ++ (get_or dt ((h + n) % places) 0 ∷ [])
window-snoc dt places h zero hh = ap (λ k. get_or dt k 0 ∷ []) (sym (round_self places h hh))
window-snoc dt places h (suc n) hh =
    ap (λ w. get_or dt h 0 ∷ w)
      (window-snoc dt places ((h + 1) % places) n (omega arith)
        ∙ ap (λ k. window dt places ((h + 1) % places) n ++ (get_or dt k 0 ∷ [])) (turn places h n))

-- A write `t` places behind a window, within one turn, does not touch it.
pub window-set :
    (dt : ByteArray) (places h n t c : ℕ)
    → h < places
    → n + t < places
    → window (set dt ((h + n + t) % places) c) places h n ≡ window dt places h n
window-set dt places h zero t c hh small = refl
window-set dt places h (suc n) t c hh small =
    let away : (h + suc n + t) % places ≢ h = λ e.
      elsewhere places h (n + t) hh (omega arith) (sym e ∙ ap (λ k. k % places) (omega arith)) in
    let shift : (h + suc n + t) % places ≡ ((h + 1) % places + n + t) % places =
      ap (λ k. k % places) (omega arith)
      ∙ sym (turn places h (n + t))
      ∙ ap (λ k. k % places) (omega arith) in
    rw (get_or-set_ne dt c 0 away) (
      ap (λ w. get_or dt h 0 ∷ w)
        (ap (λ k. window (set dt k c) places ((h + 1) % places) n) shift
          ∙ window-set dt places ((h + 1) % places) n t c (omega arith) (omega arith)))

pub window-add :
    (dt : ByteArray) (places h m n : ℕ)
    → h < places
    → window dt places h (m + n) ≡ window dt places h m ++ window dt places ((h + m) % places) n
window-add dt places h zero n hh =
    ap (window dt places h) (omega arith)
    ∙ ap (λ k. window dt places k n) (sym (round_self places h hh))
window-add dt places h (suc m) n hh =
    let next = (h + 1) % places in
    let shift : suc m + n ≡ suc (m + n) = omega arith in
    ap (window dt places h) shift
    ∙ ap (λ w. get_or dt h 0 ∷ w)
        (window-add dt places next m n (omega arith)
          ∙ ap (λ k. window dt places next m ++ window dt places k n) (turn places h m))

straight :
    (dt : ByteArray) (places h n : ℕ)
    → h + suc n ≤ places
    → window dt places ((h + 1) % places) n ≡ window dt places (h + 1) n
straight dt places h zero fits = refl
straight dt places h (suc n) fits =
    ap (λ k. window dt places k (suc n)) (mod-eq_of_lt {n = h + 1} {m = places} (omega arith))

-- A window that does not reach the end of the array is a stretch of it.
pub drop-window :
    (dt : ByteArray) (places h n : ℕ)
    → places ≤ length dt
    → h + n ≤ places
    → drop h dt ≡ window dt places h n ++ drop (h + n) dt
drop-window dt places h zero size fits = ap (λ k. drop k dt) (omega arith)
drop-window dt places h (suc n) size fits =
    let from = (get_elem?-some dt h (get_elem?-eq-get_or dt h 0 (omega arith))).0 in
    let shift : suc h ≡ h + 1 = omega arith in
    let rest = drop-window dt places (h + 1) n size (omega arith) in
    from
    ∙ ap (λ t. get_or dt h 0 ∷ t)
        (ap (λ k. drop k dt) shift
          ∙ rest
          ∙ ap (λ k. window dt places (h + 1) n ++ drop k dt) (omega arith)
          ∙ ap (λ w. w ++ drop (h + suc n) dt) (sym (straight dt places h n fits)))
