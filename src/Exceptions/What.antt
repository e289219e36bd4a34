-- ===== src/Exceptions/What.antt =====
-- `what` of the exceptions, in src/SEDNL/Exception.cpp: their texts.
use sednl.Base.{ByteArray, codes}
use sednl.Exceptions.Codes.{
  NetworkExceptionT, invalid_socket_address, cant_retrieve_host, connect_failed, empty_send,
  send_failed, bind_failed, listen_failed, cant_set_nonblocking, timed_out, TypeExceptionT, unknown,
  user_data_wrong_type_asked, user_data_wrong_type_given, PacketExceptionT, scalar_expected,
  string_expected, object_expected, array_expected, empty_object, wrong_sized_object, wrong_array,
  unknown_type, EventExceptionT, event_listener_running, event_consumer_running, event_collision,
  already_listened, wrong_parent_listener, poller_create_failed, poller_add_failed, int8, int16,
  int32, int64, uint8, uint16, uint32, uint64, float, double,
}

unfoldable pub what_network : NetworkExceptionT → ByteArray
what_network invalid_socket_address =
    codes "The SocketAddress object given is invalid for it's purpose."
what_network cant_retrieve_host = codes "Can't retrieve host ip from the host name."
what_network connect_failed = codes "Can't connect to the server."
what_network empty_send =
    codes "A write to the socket failed and the event wasn't sent. The connection remain valid."
what_network send_failed = codes "A write to the socket failed with an error code."
what_network bind_failed = codes "Can't bind the server socket."
what_network listen_failed = codes "Can't listen on the server socket."
what_network cant_set_nonblocking = codes "Can't set socket mode to nonblocking."
what_network timed_out = codes "Connection timed out."

unfoldable pub what_type : TypeExceptionT → ByteArray
what_type user_data_wrong_type_asked = codes "Tried to convert a data user to a wrong type."
what_type user_data_wrong_type_given =
    codes "Tried to write a data user from a different type thant the previous one stored."
what_type unknown = codes "Unknown exception."

unfoldable pub what_packet : PacketExceptionT → ByteArray
what_packet (scalar_expected uint8) = codes "The next element of this packet is an UInt8."
what_packet (scalar_expected uint16) = codes "The next element of this packet is an UInt16."
what_packet (scalar_expected uint32) = codes "The next element of this packet is an UInt32."
what_packet (scalar_expected uint64) = codes "The next element of this packet is an UInt64."
what_packet (scalar_expected int8) = codes "The next element of this packet is an Int8."
what_packet (scalar_expected int16) = codes "The next element of this packet is an Int16."
what_packet (scalar_expected int32) = codes "The next element of this packet is an Int32."
what_packet (scalar_expected int64) = codes "The next element of this packet is an Int64."
what_packet (scalar_expected float) = codes "The next element of this packet is a Float."
what_packet (scalar_expected double) = codes "The next element of this packet is a Double."
what_packet string_expected = codes "The next element of this packet is a String."
what_packet object_expected = codes "The next element of this packet is an Object."
what_packet (array_expected uint8) = codes "The next element of this packet is an ArrayUInt8."
what_packet (array_expected uint16) = codes "The next element of this packet is an ArrayUInt16."
what_packet (array_expected uint32) = codes "The next element of this packet is an ArrayUInt32."
what_packet (array_expected uint64) = codes "The next element of this packet is an ArrayUInt64."
what_packet (array_expected int8) = codes "The next element of this packet is an ArrayInt8."
what_packet (array_expected int16) = codes "The next element of this packet is an ArrayInt16."
what_packet (array_expected int32) = codes "The next element of this packet is an ArrayInt32."
what_packet (array_expected int64) = codes "The next element of this packet is an ArrayInt64."
what_packet (array_expected float) = codes "The next element of this packet is a ArrayFloat."
what_packet (array_expected double) = codes "The next element of this packet is a ArrayDouble."
what_packet empty_object =
    codes "The object you tried to read/write to/from the packethaven't any data field."
what_packet wrong_sized_object =
    codes "The object stored in this packet doesn't mach the size of your object."
what_packet wrong_array = codes "Empty array or array too big."
what_packet unknown_type = codes "Unknown exception"

unfoldable pub what_event : EventExceptionT → ByteArray
what_event event_listener_running =
    codes
      "An event lister was already running when you tried to change it's internal state. (calling set attach, detach, etc.)"
what_event event_consumer_running =
    codes
      "An event consumer was already running when your tried to change it's internal state. (calling set_producer, trying to change events bindings, etc.)"
what_event event_collision =
    codes "Two or more EventConsumer binding the same event are attached to this listener."
what_event already_listened =
    codes "Tried to attach() an element to a listener that was already attached."
what_event wrong_parent_listener =
    codes "The element on wich detach() was called wasn't attached to this listener."
what_event poller_create_failed = codes "Failed to create the Poller (epoll, select, WSAPoll)."
what_event poller_add_failed =
    codes "Failed to register filedescriptors into the Poller (epoll, select, WSAPoll)."
