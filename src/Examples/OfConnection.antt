-- ===== src/Examples/OfConnection.antt =====
-- Connections.
use sednl.Base.{
  ℕ, zero, suc, ◌<◌, ◌≡◌, ◌≢◌, ◌⊎◌, refl, arith, [], ◌∷◌, ◌++◌, length, take, drop, none, some,
}
use sednl.Exceptions.{ok, thrown, empty_send, send_failed}
use sednl.Bytes.Host.{Host}
use sednl.Bytes.Order.{push_16}
use sednl.Event.Pack.{pack, get_header}
use sednl.Connection.UserData.{no_user_data, int, char}
use sednl.Connection.UserView.{
  perform_all, perform_all_view, perform_all-no_user_data, put_data, ask, release,
}
use sednl.Connection.Send.{SystemSend, TakesOffered, Stream, send}
use sednl.Connection.SendRuns.{send-pack, send-never_failed, send-repeats_byte}
use sednl.Examples.Hosts.{little, abc}

instance abbrev host : Host
host = little

abbrev start : Stream
start = record { bytes = []; calls = 0 }

-- A system that takes one byte at a time, one whose calls all fail, and one whose second call fails
-- after a first of five bytes.
abbrev bytewise : SystemSend
bytewise calls zero = some 0
bytewise calls (suc offered) = some 1

abbrev broken_line : SystemSend
broken_line calls offered = none

abbrev hiccup : SystemSend
hiccup zero offered = some 5
hiccup (suc zero) offered = none
hiccup (suc (suc calls)) offered = some offered

bytewise-TakesOffered : TakesOffered bytewise
bytewise-TakesOffered calls zero n e = ground arith
bytewise-TakesOffered calls (suc offered) n e = ground arith

bytewise_fine : (calls offered : ℕ) → bytewise calls offered ≢ none
bytewise_fine calls zero e = cc e
bytewise_fine calls (suc offered) e = cc e

length-abc : length (pack abc) ≡ 8
unfolding pack get_header push_16
length-abc = refl

perform_all-no_user_data_example :
    perform_all (put_data int 5 ∷ ask char ∷ release ∷ put_data char 7 ∷ ask char ∷ []) no_user_data
    ≡ perform_all_view (put_data int 5 ∷ ask char ∷ release ∷ put_data char 7 ∷ ask char ∷ []) none
perform_all-no_user_data_example =
    perform_all-no_user_data (put_data int 5 ∷ ask char ∷ release ∷ put_data char 7 ∷ ask char ∷ [])

send-pack_example :
    ((calls : ℕ) × (send bytewise (suc (length (pack abc))) abc start
        ≡ ok tt (record { bytes = [] ++ pack abc; calls = calls })))
    ⊎ ((calls n : ℕ) × (n < length (pack abc))
        × (send bytewise (suc (length (pack abc))) abc start
            ≡ thrown empty_send (record { bytes = [] ++ take n (pack abc); calls = calls })))
send-pack_example =
    send-pack bytewise abc start bytewise-TakesOffered bytewise_fine (omega (arith, length-abc))

send-never_failed_example : send broken_line 9 abc start ≢ thrown send_failed start
send-never_failed_example = send-never_failed broken_line 9 abc start start

send-repeats_byte_example :
    send hiccup 9 abc start
    ≡ ok tt (record { bytes = ([] ++ take 5 (pack abc)) ++ drop 4 (pack abc); calls = 3 })
send-repeats_byte_example =
    send-repeats_byte hiccup 5 4 abc start (omega (arith, length-abc)) (omega (arith, length-abc))
      refl refl refl
