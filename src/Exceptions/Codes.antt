-- ===== src/Exceptions/Codes.antt =====
-- The enumerations of include/SEDNL/Exception.hpp.

-- The ten kinds of number that a packet holds. `scalar_expected int8` is the source's
-- `Int8Expected`, `array_expected int8` is `ArrayInt8Expected`, and so on.
pub data Scalar : Type 0 where
  int8 int16 int32 int64 uint8 uint16 uint32 uint64 float double : Scalar

pub data PacketExceptionT : Type 0 where
  scalar_expected : Scalar → PacketExceptionT
  string_expected object_expected : PacketExceptionT
  array_expected : Scalar → PacketExceptionT
  empty_object wrong_sized_object wrong_array unknown_type : PacketExceptionT

pub data TypeExceptionT : Type 0 where
  unknown user_data_wrong_type_asked user_data_wrong_type_given : TypeExceptionT

pub data NetworkExceptionT : Type 0 where
  invalid_socket_address cant_retrieve_host connect_failed empty_send send_failed :
      NetworkExceptionT
  bind_failed listen_failed cant_set_nonblocking timed_out : NetworkExceptionT

pub data EventExceptionT : Type 0 where
  event_listener_running event_consumer_running event_collision : EventExceptionT
  already_listened wrong_parent_listener poller_create_failed poller_add_failed : EventExceptionT
