-- ===== src/Connection/Send.antt =====
-- `Connection::send`. The system's `::send` is a parameter of the model.
use sednl.Base.{
  ℕ, zero, suc, ◌+◌, ◌-◌, ◌%◌, ◌^◌, ◌==◌, ◌≡◌, ◌≤◌, ltb, [], ◌++◌, ByteArray, if◌then◌else◌, length,
  take, drop, Option, none, some,
}
use sednl.Exceptions.{
  NetworkExceptionT, empty_send, send_failed, Result, ok, thrown, fault, undefined, out_of_fuel,
}
use sednl.Bytes.Host.{Host}
use sednl.Event.Pack.{Event, pack}

-- `::send`, by the number of calls before and the number of bytes offered: how many of them it took,
-- or `none` for the error -1.
abbrev pub SystemSend : Type 0
SystemSend = ℕ → ℕ → Option ℕ

-- What the manual of `::send` says of its result: no more than was offered.
abbrev pub TakesOffered : SystemSend → Type 0
TakesOffered os = (calls offered n : ℕ) → os calls offered ≡ some n → n ≤ offered

-- `unsigned long tmp_count = ::send(...)`.
abbrev pub tmp_count_of : Option ℕ → ℕ
tmp_count_of none = 2 ^ 64 - 1
tmp_count_of (some n) = n % 2 ^ 64

-- What the system took of the bytes that were offered.
abbrev pub taken_of : Option ℕ → ByteArray → ByteArray
taken_of none offered = []
taken_of (some n) offered = take n offered

-- The bytes that the system has taken, in order, and the number of calls of `::send`.
pub record Stream : Type 0 where
  pub bytes : ByteArray
  pub calls : ℕ

abbrev pub Sending : Type 0 → Type 0
Sending A = Result NetworkExceptionT Stream A

module _ (os : SystemSend) where
  -- The loop: `count` and `tmp_count` after it. `data.size() - count` wraps, and a call that offers
  -- bytes outside `data` is undefined.
  unfoldable pub send_loop : ℕ → ByteArray → ℕ → ℕ → Stream → Sending (ℕ × ℕ)
  send_loop zero bytes count tmp_count s = fault out_of_fuel
  send_loop (suc fuel) bytes count tmp_count s =
      if length bytes == count
      then ok (count, tmp_count) s
      else if ltb (length bytes) count
      then fault undefined
      else (let r = os s.calls (length bytes - count) in
          let s' : Stream = record {
            bytes = s.bytes ++ taken_of r (drop count bytes);
            calls = suc s.calls;
          } in
          let rest = send_loop fuel bytes ((count + tmp_count_of r) % 2 ^ 64) (tmp_count_of r) s' in
          if ltb 0 (tmp_count_of r) then rest else ok (count, tmp_count_of r) s')

  -- What `send` does behind the loop.
  abbrev pub after_loop : ByteArray → Sending (ℕ × ℕ) → Sending (Unit {0})
  after_loop bytes (ok (count, tmp_count) s) =
      if length bytes == count
      then ok tt s
      else if tmp_count == 0
      then thrown empty_send s
      else thrown send_failed s
  after_loop bytes (thrown e s) = thrown e s
  after_loop bytes (fault x) = fault x

  -- `send`, with a bound on the calls of `::send`.
  unfoldable pub send : ⦃host : Host⦄ → ℕ → Event → Stream → Sending (Unit {0})
  unfolding send_loop pack
  send fuel e s = after_loop (pack e) (send_loop fuel (pack e) 0 1 s)
