-- ===== src/Examples/OfRingBuf.antt =====
-- The ring buffer and the events in it.
use sednl.Base.{◌+◌, ◌≤◌, ◌<◌, ◌≡◌, refl, arith, [], ◌∷◌, ◌++◌, true, false}
use sednl.Bytes.Host.{Host}
use sednl.Bytes.Order.{push_16}
use sednl.Event.Pack.{Event, get_header, pack}
use sednl.Packet.Valid.{is_valid, accept, reject}
use sednl.RingBuf.Buffer.{RingBuf, make, used, put, pick_event, picked, nothing, outside}
use sednl.RingBuf.Put.{IsValid, contents, make-IsValid, put_lem}
use sednl.RingBuf.Pick.{pick_event-pack, pick_event-invalid, pick_event-last_place}
use sednl.Examples.Hosts.{little, big, abc}

instance abbrev host : Host
host = little

-- A buffer of eight places that holds the event, from place 0 on.
abbrev filled : RingBuf
filled = record {
  m_dt = 0 ∷ 8 ∷ 97 ∷ 98 ∷ 99 ∷ 0 ∷ 1 ∷ 5 ∷ 9 ∷ [];
  m_size = 8;
  m_start = 0;
  m_end = 8;
}

filled-IsValid : IsValid filled
filled-IsValid = record {
  storage = refl;
  start_in = omega arith;
  end_in = omega arith;
  small = omega arith;
}

-- The same with a byte in the packet that is no type.
abbrev spoiled : RingBuf
spoiled = record filled { m_dt = 0 ∷ 8 ∷ 97 ∷ 98 ∷ 99 ∷ 0 ∷ 0 ∷ 5 ∷ 9 ∷ [] }

abbrev spoiled_event : Event
spoiled_event = record abc { m_packet = 0 ∷ 5 ∷ [] }

spoiled-IsValid : IsValid spoiled
spoiled-IsValid = record {
  storage = refl;
  start_in = omega arith;
  end_in = omega arith;
  small = omega arith;
}

-- The same from the last place on.
abbrev turned : RingBuf
turned = record {
  m_dt = 8 ∷ 97 ∷ 98 ∷ 99 ∷ 0 ∷ 1 ∷ 5 ∷ 9 ∷ 0 ∷ [];
  m_size = 8;
  m_start = 8;
  m_end = 7;
}

turned-IsValid : IsValid turned
turned-IsValid = record {
  storage = refl;
  start_in = omega arith;
  end_in = omega arith;
  small = omega arith;
}

filled-contents : contents filled ≡ pack ⦃host = big⦄ abc ++ []
unfolding contents used pack get_header push_16
filled-contents = refl

spoiled-contents : contents spoiled ≡ pack ⦃host = big⦄ spoiled_event ++ []
unfolding contents used pack get_header push_16
spoiled-contents = refl

abc_accept : is_valid abc.m_packet ≡ accept tt
unfolding is_valid
abc_accept = refl

spoiled_reject : is_valid spoiled_event.m_packet ≡ reject
unfolding is_valid
spoiled_reject = refl

used-turned : used turned ≡ 8
unfolding used
used-turned = refl

put_lem_example :
    IsValid (put (make 0 30) (7 ∷ 8 ∷ [])).0
    × (used (make 0 30) + 2 ≤ 30
        → ((put (make 0 30) (7 ∷ 8 ∷ [])).1 ≡ true)
          × (contents (put (make 0 30) (7 ∷ 8 ∷ [])).0 ≡ contents (make 0 30) ++ (7 ∷ 8 ∷ [])))
    × (30 < used (make 0 30) + 2 → put (make 0 30) (7 ∷ 8 ∷ []) ≡ (make 0 30, false))
unfolding make
put_lem_example = put_lem (7 ∷ 8 ∷ []) (make-IsValid 0 30 (omega arith)).0 (omega arith)

pick_event-pack_example :
    (r' : RingBuf) × (pick_event filled ≡ picked abc r') × IsValid r' × (contents r' ≡ [])
pick_event-pack_example =
    pick_event-pack big abc [] filled-IsValid filled-contents (omega arith) (omega arith)
      (ground arith) abc_accept

pick_event-invalid_example : pick_event spoiled ≡ nothing spoiled
pick_event-invalid_example =
    pick_event-invalid big spoiled_event [] spoiled-IsValid spoiled-contents (omega arith)
      (omega arith) (ground arith) spoiled_reject

pick_event-last_place_example : pick_event turned ≡ outside
pick_event-last_place_example =
    pick_event-last_place turned-IsValid refl (omega (arith, used-turned))
