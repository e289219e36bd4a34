-- ===== src/Lib.antt =====
-- SedNL, an event-driven network library in C++: programs send events, each a name with a packet of
-- typed values, over TCP connections.
--
-- A packet is written with `operator<<` and read with `operator>>` (src/SEDNL/Packet.cpp,
-- include/SEDNL/Packet.ipp). An event is packed with its length and name (src/SEDNL/Event.cpp) and
-- sent. The receiver stores the bytes of a connection in a ring buffer (src/SEDNL/RingBuf.cpp), cuts
-- events from it, and checks each packet before anyone reads it.
--
-- The files:
--   * Base: the shared names, lists with native lengths, unsigned words, maps from names, texts.
--   * Exceptions: the codes of include/SEDNL/Exception.hpp, and computations that throw or fault;
--     Exceptions/What: the texts of src/SEDNL/Exception.cpp.
--   * Bytes/Host: the byte order of the machine with htons, ntohs, htonl and ntohl, which are not in
--     the repository: a record of functions and of what the C library documents about them.
--   * Bytes/Order: `__push_16` to `__front_64` of src/SEDNL/SocketHelp.hpp; Bytes/Wire: their bytes;
--     Bytes/Range: their width.
--   * Packet/Types: `Packet::Type`. Packet/Write: `operator<<`, `write_object_header`,
--     `write_to_packet`, `write_as_object`. Packet/Read: `PacketReader` with `operator>>`,
--     `read_object_header`, `read_from_packet`. Packet/Valid: `is_valid` and `valid_next_item`.
--   * Packet/Format: the format as a function, independent of the code. Packet/Encode, RoundTrip,
--     ReadTypes, Mismatch, Message, ValidComplete, ValidIff, ValidReads: the theorems, on the lemmas
--     of Gives, ReadFits, ReadParts, Decode and ValidSound. Packet/Print: `operator<<` of packets and
--     events for a stream, `output_one`, `type_to_string`; Packet/Listing and Printed: what is printed.
--   * Event/Pack: `Event::get_header` and `Event::pack`.
--   * RingBuf/Buffer: `RingBuf` with `put`, `length`, `reset` and `pick_event`. RingBuf/Window, Put,
--     Stretch, Pick, Ends, Leaves and Progress: the buffer as a queue of bytes.
--   * Connection/UserData: `set_user_data`, `get_user_data` and `release_user_data` of
--     src/SEDNL/Connection.cpp; Connection/UserView: the data as an optional typed value.
--     Connection/Send: `Connection::send`, over a parameter for the system's `::send`;
--     Connection/SendRounds, SendLoop and SendRuns: how it ends.
--   * Listener/Queue: `SafeQueue` of include/SEDNL/ThreadHelp.ipp, and `is_full` and the guarded push
--     of src/SEDNL/EventListener.cpp; Listener/Pushers: several threads that push;
--     Listener/QueueBounds: their order and bound.
--     Listener/Attach: `__attach` and `__detach`, on all the listeners of a program at once;
--     Listener/Parents and Calls: what holds after any calls. Listener/Connections: the lists of
--     connections with `get_connection`, `close_connection`, `tell_disconnected` and
--     `Connection::disconnect`; Listener/Disconnect: their effect.
--     Listener/Receive: `read_connection` with what it does to the queues; Listener/Delivery, Picking,
--     Pieces, Reading and ReadingEnds: its effect. Listener/Links: `clear_consumer_links`,
--     `link_consumer` and `run_init`; Listener/Claims, LinkState, Collisions and Linked: whom the links name.
--     Listener/Accept: `accept_connections` and `close_server`; Listener/Accepted: the new connections.
--     Listener/Loop: `run_imp`; Listener/Come, Flow and Interleaved: its event loop while connections
--     send;
--     Listener/Finish: what it does behind the loop; Listener/HangUp: a peer that closes.
--     Listener/Running: `run` and `join`; Listener/Restart: what holds after any of them.
--   * Consumer/Slots: `Slot`, and `bind` and `clean_slots` of src/SEDNL/EventConsumer.cpp and
--     include/SEDNL/EventConsumer.ipp. Consumer/Consume: `consume_events`; Consumer/Calls, Handover,
--     Unlinked, Events, Kept and Unclaimed: which slot gets what. Consumer/Thread: `run`, `join` and the
--     rounds of `run_imp` beside a listener; Consumer/HandsOver and AllHanded: what they have handed over.
--     Consumer/Producers: `set_producer` and `remove_producer`, with `add_consumer` and
--     `remove_consumer`; Consumer/OneProducer and ProducerCalls: what holds after any calls.
--     Consumer/FromNetwork: the event loop of a listener and then a consumer.
--   * Poller/Select: the backend of src/SEDNL/Poller_select.cpp on Linux, over a parameter for
--     `select`; Poller/SelectScan and SelectEvents: what a listener hears from it. Poller/Epoll: the
--     backend of src/SEDNL/Poller_epoll.cpp; Poller/EpollEvents: what a listener hears from it.
--   * Sockets/Address: `SocketAddress` and `retrieve_addresses` of src/SEDNL/SocketHelp.hpp.
--     Sockets/Connect: `connect` of src/SEDNL/TCPServer.cpp and src/SEDNL/TCPClient.cpp;
--     Sockets/Descriptors: which descriptors it leaves open.
--     Sockets/Locks: `disconnect` and `safe_disconnect` of a server with its mutex; Sockets/Relock:
--     when the mutex is locked twice.
--   * Examples: hosts, runs and instances of the theorems.
--
-- A signed or floating number is its bit pattern. An `unsigned int` wraps at 2 ^ 32, a `UInt16` at
-- 2 ^ 16. A class with serializable fields is the list of its fields, which `operator<<` of the
-- source writes by `write_as_object`.
--
-- A read outside an array has no value in C++: it ends a computation with `fault undefined`,
-- `Verdict.outside` or `Pick.outside`.
-- Loops over memory run on fuel: one round more than the array has bytes, since each round moves the
-- index. `send` has a bound on the calls of `::send`: one more than the event has bytes. Running out
-- is a result of its own. The inner loop of `read_connection` has a bound too: one round more than
-- its buffer holds bytes, and the loop of `next_event` one more than `m_nfds`. The calls of `recv` and
-- of `accept` are a list of what they give, as are the calls for each address that `connect` tries.
--
-- Outside Listener/Pushers, no thread comes between the test of a queue's size and the push. `join` of a
-- consumer runs the last call of `consume_events` of its thread at once.
--
-- A step of a consumer's thread is one round of its loop: a callback is not interrupted by the
-- listener. A callback is named by its address, and what it does is left open.
--
-- The event loop of a listener runs over the events that the poller gives before `join`, each with what
-- `recv` or `accept` give while it is handled. How a stream of the standard library prints a number is
-- a parameter of printing.
--
-- Not modelled: failing allocations and locks, warnings on the error stream, the poller for Windows,
-- how long a wait takes, and what callbacks do.
pub mod Base
pub mod Bytes
pub mod Exceptions
pub mod Packet
pub mod Event
pub mod Connection
pub mod Listener
pub mod Consumer
pub mod Poller
pub mod Sockets
pub mod RingBuf
pub mod Examples
