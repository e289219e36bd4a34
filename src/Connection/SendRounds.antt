-- ===== src/Connection/SendRounds.antt =====
-- One round of the loop of `send`, by what the system takes.
use sednl.Base.{
  ℕ, suc, ◌+◌, ◌-◌, ◌%◌, ◌^◌, ◌==◌, ◌≡◌, ◌≤◌, ◌<◌, refl, ap, ltb, [], ◌++◌, ByteArray, length, take,
  drop, none, some, true, false, arith,
}
use sednl.Exceptions.{ok, fault, undefined}
use sednl.Connection.Send.{SystemSend, Stream, send_loop}

module _ (os : SystemSend) where
  -- One round: the data is not all taken, and the system takes `n` bytes.
  pub send_loop-some :
      (fuel : ℕ) (bytes : ByteArray) (count tmp n : ℕ) (s : Stream)
      → length bytes < 2 ^ 63
      → count < length bytes
      → 0 < n
      → n ≤ length bytes - count
      → os s.calls (length bytes - count) ≡ some n
      → send_loop os (suc fuel) bytes count tmp s
        ≡ send_loop os fuel bytes
            (count + n)
            n
            (record { bytes = s.bytes ++ take n (drop count bytes); calls = suc s.calls })
  unfolding send_loop
  send_loop-some fuel bytes count tmp n s small more some_bytes le got =
      let left : (length bytes == count) ≡ false = ground arith in
      let inside : ltb (length bytes) count ≡ false = ground arith in
      let word : n % 2 ^ 64 ≡ n = omega arith in
      let next : (count + n) % 2 ^ 64 ≡ count + n = omega arith in
      let positive : ltb 0 n ≡ true = ground arith in
      rw (left, inside, got) (rw (word, next, positive))

  pub send_loop-zero :
      (fuel : ℕ) (bytes : ByteArray) (count tmp : ℕ) (s : Stream)
      → count < length bytes
      → length bytes < 2 ^ 63
      → os s.calls (length bytes - count) ≡ some 0
      → send_loop os (suc fuel) bytes count tmp s
        ≡ ok (count, 0) (record { bytes = s.bytes ++ []; calls = suc s.calls })
  unfolding send_loop
  send_loop-zero fuel bytes count tmp s more small got =
      let left : (length bytes == count) ≡ false = ground arith in
      let inside : ltb (length bytes) count ≡ false = ground arith in
      let next : (count + 0) % 2 ^ 64 ≡ count = omega arith in
      rw (left, inside, got)
        (ap (λ l. ok (count, 0) (record { bytes = l; calls = suc s.calls })) refl)

  pub send_loop-none :
      (fuel : ℕ) (bytes : ByteArray) (count tmp : ℕ) (s : Stream)
      → count < length bytes
      → os s.calls (length bytes - count) ≡ none
      → send_loop os (suc fuel) bytes count tmp s
        ≡ send_loop os fuel bytes
            ((count + (2 ^ 64 - 1)) % 2 ^ 64)
            (2 ^ 64 - 1)
            (record { bytes = s.bytes ++ []; calls = suc s.calls })
  unfolding send_loop
  send_loop-none fuel bytes count tmp s more got =
      let left : (length bytes == count) ≡ false = ground arith in
      let inside : ltb (length bytes) count ≡ false = ground arith in rw (left, inside, got)

  pub send_loop-over :
      (fuel : ℕ) (bytes : ByteArray) (count tmp : ℕ) (s : Stream)
      → length bytes < count
      → send_loop os (suc fuel) bytes count tmp s ≡ fault undefined
  unfolding send_loop
  send_loop-over fuel bytes count tmp s over =
      let left : (length bytes == count) ≡ false = ground arith in
      let outside : ltb (length bytes) count ≡ true = ground arith in rw (left, outside)

  pub send_loop-all :
      (fuel : ℕ) (bytes : ByteArray) (tmp : ℕ) (s : Stream)
      → send_loop os (suc fuel) bytes (length bytes) tmp s ≡ ok (length bytes, tmp) s
  unfolding send_loop
  send_loop-all fuel bytes tmp s =
      let left : (length bytes == length bytes) ≡ true = ground arith in rw left
