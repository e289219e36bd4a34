-- ===== src/Connection/SendRuns.antt =====
-- How `send` ends, by what the system's `::send` returns.
use sednl.Base.{
  ℕ, suc, ◌+◌, ◌-◌, ◌%◌, ◌^◌, ◌==◌, ◌≡◌, ◌≢◌, ◌<◌, ◌⊎◌, inl, inr, refl, ap, ◌∙◌, [], ◌++◌, length,
  take, drop, none, some, true, false, arith,
}
use sednl.Exceptions.{empty_send, send_failed, ok, thrown, fault, undefined}
use sednl.Bytes.Host.{Host}
use sednl.Event.Pack.{Event, pack}
use sednl.Connection.Send.{SystemSend, TakesOffered, Stream, send_loop, after_loop, send}
use sednl.Connection.SendRounds.{send_loop-none, send_loop-over}
use sednl.Connection.SendLoop.{
  send_loop-repeats, Ends, send_loop-Ends, send_loop-Stops, after_loop-never_failed,
}

module _ ⦃host : Host⦄ (os : SystemSend) where
  -- If the system reports no error, and never takes more bytes than it is offered, `send` ends after at
  -- most one call for each byte. Either the event has gone out whole, or the system took nothing in the
  -- last call: then `EmptySend` is thrown, and a proper prefix of the event has gone out.
  pub send-pack :
      (e : Event) (s : Stream)
      → TakesOffered os
      → ((calls offered : ℕ) → os calls offered ≢ none)
      → length (pack e) < 2 ^ 63
      → ((calls : ℕ) × (send os (suc (length (pack e))) e s
            ≡ ok tt (record { bytes = s.bytes ++ pack e; calls = calls })))
        ⊎ ((calls n : ℕ) × (n < length (pack e))
            × (send os (suc (length (pack e))) e s
                ≡ thrown empty_send (record { bytes = s.bytes ++ take n (pack e); calls = calls })))
  unfolding send Ends
  send-pack e s takes fine small =
      let ends =
        send_loop-Ends os (suc (length (pack e))) (pack e) 0 1 s takes fine small (omega arith)
          (omega arith) in
      elim ends [
        | inl (calls, tmp, r) ↦ inl (calls, ap (after_loop os (pack e)) r ∙ ground arith)
        | inr (calls, n, lt, r) ↦
            let part : (length (pack e) == 0 + n) ≡ false = ground arith in
            inr (calls, n, omega arith, ap (after_loop os (pack e)) r ∙ rw part refl)
      ]

  -- `SendFailed` is never thrown, whatever the system reports.
  pub send-never_failed :
      (fuel : ℕ) (e : Event) (s s' : Stream) → send os fuel e s ≢ thrown send_failed s'
  unfolding send
  send-never_failed fuel e s s' r =
      after_loop-never_failed os (pack e) (send_loop os fuel (pack e) 0 1 s) s'
        (send_loop-Stops os fuel (pack e) 0 1 s) r

  -- If the very first call fails, `count` wraps to the largest number, and the next call offers memory
  -- outside the event.
  send-first_call_fails :
      (fuel : ℕ) (e : Event) (s : Stream)
      → length (pack e) < 2 ^ 63
      → 0 < length (pack e)
      → os s.calls (length (pack e)) ≡ none
      → send os (suc (suc fuel)) e s ≡ fault undefined
  unfolding send
  send-first_call_fails fuel e s small some_bytes failed =
      let failed' : os s.calls (length (pack e) - 0) ≡ none =
        ap (os s.calls) (omega arith) ∙ failed in
      ap (after_loop os (pack e)) (
        send_loop-none os (suc fuel) (pack e) 0 1 s some_bytes failed'
        ∙ send_loop-over os fuel (pack e) ((0 + (2 ^ 64 - 1)) % 2 ^ 64) (2 ^ 64 - 1)
            (record { bytes = s.bytes ++ []; calls = suc s.calls }) (omega arith))

  -- If the system takes `n + 1` bytes, then reports an error, and then takes all that it is offered,
  -- `send` returns without an exception, and the last of these bytes has gone out twice.
  pub send-repeats_byte :
      (fuel n : ℕ) (e : Event) (s : Stream)
      → length (pack e) < 2 ^ 63
      → suc n < length (pack e)
      → os s.calls (length (pack e)) ≡ some (suc n)
      → os (suc s.calls) (length (pack e) - suc n) ≡ none
      → os (suc (suc s.calls)) (length (pack e) - n) ≡ some (length (pack e) - n)
      → send os (suc (suc (suc (suc fuel)))) e s
        ≡ ok tt (record {
          bytes = (s.bytes ++ take (suc n) (pack e)) ++ drop n (pack e);
          calls = suc (suc (suc s.calls));
        })
  unfolding send
  send-repeats_byte fuel n e s small part first second third =
      let all : (length (pack e) == length (pack e)) ≡ true = ground arith in
      ap (after_loop os (pack e))
        (send_loop-repeats os fuel n (pack e) s small part first second third)
      ∙ rw all refl
