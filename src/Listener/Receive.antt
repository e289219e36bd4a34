-- ===== src/Listener/Receive.antt =====
-- `read_connection`: what arrives on a connection's socket goes into its buffer, and each event that
-- the buffer then holds into the queue of its name. Consumers are named by the addresses of their
-- descriptors.
use sednl.Base.{
  ℕ, zero, suc, Bool, true, Option, none, some, List, [], ◌∷◌, ByteArray, if◌then◌else◌, Map, Name,
  find, assign, at_or,
}
use sednl.Bytes.Host.{Host}
use sednl.Event.Pack.{Event}
use sednl.RingBuf.Buffer.{RingBuf, used, put, pick_event, picked, nothing, outside, exhausted}
use sednl.Listener.Queue.{SafeQueue, is_full, push}
use sednl.Listener.Attach.{update}
use sednl.Listener.Connections.{Connections, get_connection, close_connection}

-- An event with the connection that it came from, by its address.
abbrev pub CnEvent : Type 0
CnEvent = ℕ × Event

-- The fields of the listener that `read_connection` uses. `m_buffer` is a field of the connections,
-- `wake_up` one of the consumers' descriptors.
pub record Inbox : Type 0 where
  pub connections : Connections
  pub m_buffer : ℕ → RingBuf
  pub m_events : Map (SafeQueue CnEvent)
  pub m_links : Map (Option ℕ)
  pub m_on_event_link : Option ℕ
  pub wake_up : ℕ → Bool

-- `notify`.
unfoldable pub notify_consumer : Option ℕ → Inbox → Inbox
notify_consumer none s = s
notify_consumer (some desc) s = record s { wake_up = update s.wake_up desc true }

-- The consumer that hears of an event: the one of its name, else the one of `m_on_event_link`.
unfoldable pub link_of : Inbox → Name → Option ℕ
unfolding find
link_of s name = elim (find s.m_links name) [
  | none ↦ s.m_on_event_link
  | some none ↦ s.m_on_event_link
  | some (some desc) ↦ some desc
]

-- The body of the inner loop. `m_events[name]` makes the queue of the name if there is none.
unfoldable pub receive_event : ℕ → Event → Inbox → Inbox
unfolding is_full push notify_consumer link_of assign
receive_event cn e s =
    let queue = at_or [] s.m_events e.m_name in
    if is_full s.connections.m_max_queue_size queue
    then record s { m_events = assign s.m_events e.m_name queue }
    else notify_consumer (link_of s e.m_name)
        (record s { m_events = assign s.m_events e.m_name (push queue (cn, e)) })

-- How a loop ends. `undefined` is no C++ value, and `unfinished` stands for the bound on the rounds.
pub data Ended : Type 0 where
  ended : Inbox → Ended
  undefined unfinished : Ended

-- What ends the calls of `recv`: the error `EAGAIN`, another one, or the count 0.
pub data LastCall : Type 0 where
  would_block failed closed : LastCall

module _ ⦃host : Host⦄ where
  -- The inner loop, `while (cn->m_buffer.pick_event(e))`, in at most so many rounds.
  unfoldable pub pick_events : ℕ → ℕ → Inbox → Ended
  unfolding pick_event receive_event
  pick_events zero cn s = unfinished
  pick_events (suc n) cn s = elim (pick_event (s.m_buffer cn)) [
    | picked e r ↦
        pick_events n cn (receive_event cn e (record s { m_buffer = update s.m_buffer cn r }))
    | nothing r ↦ ended (record s { m_buffer = update s.m_buffer cn r })
    | outside ↦ undefined
    | exhausted ↦ unfinished
  ]

  -- One round of the outer loop, behind a `recv` that gave bytes. What `put` returns is ignored.
  unfoldable pub read_chunk : ℕ → ByteArray → Inbox → Ended
  unfolding put used pick_events
  read_chunk cn buf s =
      let r = (put (s.m_buffer cn) buf).0 in
      pick_events (suc (used r)) cn (record s { m_buffer = update s.m_buffer cn r })

  -- The outer loop, over what the calls of `recv` give.
  unfoldable pub read_loop : List ByteArray → LastCall → ℕ → ℕ → Inbox → Ended
  unfolding read_chunk close_connection
  read_loop [] would_block fd cn s = ended s
  read_loop [] failed fd cn s = ended (record s { connections = close_connection fd s.connections })
  read_loop [] closed fd cn s = ended (record s { connections = close_connection fd s.connections })
  read_loop (buf ∷ chunks) last fd cn s = elim (read_chunk cn buf s) [
    | ended s' ↦ read_loop chunks last fd cn s'
    | undefined ↦ undefined
    | unfinished ↦ unfinished
  ]

  -- With no connection for the descriptor, the first bytes go through a null pointer.
  unfoldable pub read_connection : List ByteArray → LastCall → ℕ → Inbox → Ended
  unfolding read_loop get_connection close_connection
  read_connection chunks last fd s = elim (get_connection fd s.connections) [
    | some cn ↦ read_loop chunks last fd cn s
    | none ↦ elim chunks [ [] ↦ read_loop [] last fd 0 s | _ ∷ _ ↦ undefined ]
  ]
