-- ===== src/Connection/SendLoop.antt =====
-- The loop of `send`, round by round.
use sednl.Base.{
  ℕ, zero, suc, ◌+◌, ◌-◌, ◌%◌, ◌^◌, ◌==◌, ◌≡◌, ◌≢◌, ◌≤◌, ◌<◌, ◌⊎◌, inl, inr, ap, subst, sym, ◌∙◌,
  ltb, [], ◌++◌, ByteArray, length, take, drop, none, some, true, Bool-cases, Option-cases, arith,
  append_assoc, append-nil, take-append-drop, drop-drop, length-drop, drop-eq_nil, take-add,
}
use native.Mathlib.Decide.{dec_lt}
use sednl.Exceptions.{send_failed, ok, thrown, fault}
use sednl.Connection.Send.{
  SystemSend, TakesOffered, tmp_count_of, taken_of, Stream, Sending, send_loop, after_loop,
}
use sednl.Connection.SendRounds.{send_loop-some, send_loop-zero, send_loop-none, send_loop-all}

module _ (os : SystemSend) where
  pub send_loop-repeats :
      (fuel n : ℕ) (bytes : ByteArray) (s : Stream)
      → length bytes < 2 ^ 63
      → suc n < length bytes
      → os s.calls (length bytes) ≡ some (suc n)
      → os (suc s.calls) (length bytes - suc n) ≡ none
      → os (suc (suc s.calls)) (length bytes - n) ≡ some (length bytes - n)
      → send_loop os (suc (suc (suc (suc fuel)))) bytes 0 1 s
        ≡ ok
            (length bytes, length bytes - n)
            (record {
              bytes = (s.bytes ++ take (suc n) bytes) ++ drop n bytes;
              calls = suc (suc (suc s.calls));
            })
  send_loop-repeats fuel n bytes s small part first second third =
      let s₁ : Stream = record { bytes = s.bytes ++ take (suc n) bytes; calls = suc s.calls } in
      let s₂ : Stream = record { bytes = s₁.bytes ++ []; calls = suc s₁.calls } in
      let back : (0 + suc n + (2 ^ 64 - 1)) % 2 ^ 64 ≡ n = omega arith in
      let end : n + (length bytes - n) ≡ length bytes = omega arith in
      let rest : take (length bytes - n) (drop n bytes) ≡ drop n bytes =
        sym (append-nil (take (length bytes - n) (drop n bytes)))
        ∙ ap (λ l. take (length bytes - n) (drop n bytes) ++ l)
            (sym
              (drop-eq_nil (drop n bytes) (length bytes - n) (omega (arith, length-drop n bytes))))
        ∙ take-append-drop (length bytes - n) (drop n bytes) in
      send_loop-some os (suc (suc (suc fuel))) bytes 0 1 (suc n) s small (omega arith) (omega arith)
        (omega arith) (ap (os s.calls) (omega arith) ∙ first)
      ∙ send_loop-none os (suc (suc fuel)) bytes (0 + suc n) (suc n) s₁ (omega arith)
          (ap (os (suc s.calls)) (omega arith) ∙ second)
      ∙ ap (λ k. send_loop os (suc (suc fuel)) bytes k (2 ^ 64 - 1) s₂) back
      ∙ send_loop-some os (suc fuel) bytes n (2 ^ 64 - 1) (length bytes - n) s₂ small (omega arith)
          (omega arith) (omega arith) third
      ∙ ap
          (λ k. send_loop os (suc fuel) bytes k (length bytes - n) (record {
            bytes = s₂.bytes ++ take (length bytes - n) (drop n bytes);
            calls = suc s₂.calls;
          }))
          end
      ∙ send_loop-all os fuel bytes (length bytes - n) _
      ∙ ap (λ l. ok (length bytes, length bytes - n) (record { bytes = l; calls = suc s₂.calls }))
          (ap (λ l. l ++ take (length bytes - n) (drop n bytes)) (append-nil s₁.bytes)
            ∙ ap (λ l. s₁.bytes ++ l) rest)

  -- What the loop ends with, if the system reports no error.
  unfoldable pub Ends : ByteArray → Stream → ℕ → Sending (ℕ × ℕ) → Type 0
  Ends bytes s count r =
      ((calls tmp : ℕ) × (r
          ≡ ok (length bytes, tmp) (record { bytes = s.bytes ++ drop count bytes; calls = calls })))
      ⊎ ((calls n : ℕ) × (count + n < length bytes)
          × (r
              ≡ ok (count + n, 0)
                  (record { bytes = s.bytes ++ take n (drop count bytes); calls = calls })))

  Ends-later :
      (bytes : ByteArray) (s : Stream) (count n : ℕ) (r : Sending (ℕ × ℕ))
      → Ends bytes
          (record { bytes = s.bytes ++ take n (drop count bytes); calls = suc s.calls })
          (count + n)
          r
      → Ends bytes s count r
  unfolding Ends
  Ends-later bytes s count n r (inl (calls, tmp, e)) = inl (
    calls,
    tmp,
    e
        ∙ ap (λ l. ok (length bytes, tmp) (record { bytes = l; calls = calls }))
            (append_assoc s.bytes (take n (drop count bytes)) (drop (count + n) bytes)
              ∙ ap (λ l. s.bytes ++ l)
                  (ap (λ l. take n (drop count bytes) ++ l) (sym (drop-drop bytes count n))
                    ∙ take-append-drop n (drop count bytes))),
  )
  Ends-later bytes s count n r (inr (calls, m, lt, e)) = inr (
    calls,
    n + m,
    omega arith,
    e
        ∙ ap
            (λ k.
              ok (k, 0)
                (record {
                  bytes = (s.bytes ++ take n (drop count bytes)) ++ take m (drop (count + n) bytes);
                  calls = calls;
                }))
            (omega arith)
        ∙ ap (λ l. ok (count + (n + m), 0) (record { bytes = l; calls = calls }))
            (append_assoc s.bytes (take n (drop count bytes)) (take m (drop (count + n) bytes))
              ∙ ap (λ l. s.bytes ++ l)
                  (ap (λ l. take n (drop count bytes) ++ take m l) (sym (drop-drop bytes count n))
                    ∙ sym (take-add n m (drop count bytes)))),
  )

  pub send_loop-Ends :
      (fuel : ℕ) (bytes : ByteArray) (count tmp : ℕ) (s : Stream)
      → TakesOffered os
      → ((calls offered : ℕ) → os calls offered ≢ none)
      → length bytes < 2 ^ 63
      → count ≤ length bytes
      → length bytes < fuel + count
      → Ends bytes s count (send_loop os fuel bytes count tmp s)
  send_loop-Ends zero bytes count tmp s takes fine small le enough = absurd (omega arith)
  send_loop-Ends (suc fuel) bytes count tmp s takes fine small le enough =
      elim (dec_lt count (length bytes)) [
        | no all ↦
            let end : length bytes ≡ count = omega arith in
            unfold Ends in
            inl (
              s.calls,
              tmp,
              ap (λ k. send_loop os (suc fuel) bytes k tmp s) (sym end)
                  ∙ send_loop-all os fuel bytes tmp s
                  ∙ ap (λ l. ok (length bytes, tmp) (record { bytes = l; calls = s.calls }))
                      (sym (
                        ap (λ l. s.bytes ++ l) (drop-eq_nil bytes count (omega arith))
                        ∙ append-nil s.bytes)),
            )
        | yes more ↦ elim (Option-cases (os s.calls (length bytes - count))) [
          | inl failed ↦ absurd (fine s.calls (length bytes - count) failed)
          | inr (zero, got) ↦
              unfold Ends in
              inr (
                suc s.calls,
                0,
                omega arith,
                send_loop-zero os fuel bytes count tmp s more small got
                    ∙ ap (λ k. ok (k, 0) (record { bytes = s.bytes ++ []; calls = suc s.calls }))
                        (omega arith),
              )
          | inr (suc n, got) ↦
              let some_bytes = takes s.calls (length bytes - count) (suc n) got in
              let s' : Stream = record {
                bytes = s.bytes ++ take (suc n) (drop count bytes);
                calls = suc s.calls;
              } in
              let step =
                send_loop-some os fuel bytes count tmp (suc n) s small more (omega arith) some_bytes
                  got in
              let rest =
                send_loop-Ends fuel bytes (count + suc n) (suc n) s' takes fine small (omega arith)
                  (omega arith) in
              subst (Ends bytes s count) (sym step) (Ends-later bytes s count (suc n) _ rest)
        ]
      ]

  -- Behind the loop, all is sent or the last call took nothing.
  unfoldable pub Stops : ByteArray → Sending (ℕ × ℕ) → Type 0
  Stops bytes (ok (count, tmp) s) = (length bytes ≡ count) ⊎ (tmp ≡ 0)
  Stops bytes (thrown x s) = zero ≡ suc zero
  Stops bytes (fault x) = Unit

  pub send_loop-Stops :
      (fuel : ℕ) (bytes : ByteArray) (count tmp : ℕ) (s : Stream)
      → Stops bytes (send_loop os fuel bytes count tmp s)
  unfolding send_loop Stops
  send_loop-Stops zero bytes count tmp s = tt
  send_loop-Stops (suc fuel) bytes count tmp s =
      let r = os s.calls (length bytes - count) in
      let s' : Stream = record {
        bytes = s.bytes ++ taken_of r (drop count bytes);
        calls = suc s.calls;
      } in
      let rest =
        send_loop-Stops fuel bytes ((count + tmp_count_of r) % 2 ^ 64) (tmp_count_of r) s' in
      elim (Bool-cases (length bytes == count)) [
        | inl all ↦ rw all (inl (ground (arith, all)))
        | inr more ↦ elim (Bool-cases (ltb (length bytes) count)) [
          | inl over ↦ rw (more, over) tt
          | inr inside ↦ elim (Bool-cases (ltb 0 (tmp_count_of r))) [
            | inl positive ↦ rw (more, inside, positive) rest
            | inr idle ↦ rw (more, inside, idle) (inr (ground (arith, idle)))
          ]
        ]
      ]

  pub after_loop-never_failed :
      (bytes : ByteArray) (r : Sending (ℕ × ℕ)) (s' : Stream)
      → Stops bytes r
      → after_loop os bytes r ≢ thrown send_failed s'
  unfolding Stops
  after_loop-never_failed bytes (ok (count, tmp) s) s' (inl all) e =
      let all' : (length bytes == count) ≡ true = ground arith in cc (rw all' at e)
  after_loop-never_failed bytes (ok (count, tmp) s) s' (inr idle) e = ground (arith, idle, e)
  after_loop-never_failed bytes (thrown x s) s' stops e = omega (arith, stops)
  after_loop-never_failed bytes (fault x) s' stops e = cc e
