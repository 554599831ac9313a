-- ===== src/Fixtures.antt =====
-- Concrete values on which the tests run, and facts about them: a `Notify` with one permit bit, a
-- packet, a registry and a gateway.
use ws_gateway.Common.{
  ◌≡◌, refl, Bool, true, false, Option, none, some, [], ◌∷◌, ◌==◌, if◌then◌else◌,
}
use ws_gateway.Protocol.PacketType
use ws_gateway.Protocol.TargetType
use ws_gateway.Common.{ok, arith}
use ws_gateway.DashMap.{lookup, same}
use ws_gateway.Protocol.PacketType.{ai_event, system_cmd}
use ws_gateway.Protocol.TargetType.{unicast, broadcast}
use ws_gateway.Protocol.Fields.{
  IsBytes, first_zero, is_valid_ascii_field, ascii_field_str, from_utf8_or_empty, utf8_run, Bytes,
}
use ws_gateway.Protocol.Header.{
  room_id_str, user_id_str, decode, u32_from_be_bytes, u16_from_be_bytes, PacketHeader,
}
use ws_gateway.Channel.{Notify, ChannelInner}
use ws_gateway.Router.{Room, Rooms, Shared, Iteration}
use ws_gateway.Network.{Gateway, Session}

abbrev pub take_permit : Bool → Option Bool
take_permit true = some false
take_permit false = none

pub take_permit-consumes : (s s' : Bool) → take_permit s ≡ some s' → take_permit s' ≡ none
take_permit-consumes true true e = cc
take_permit-consumes true false e = refl
take_permit-consumes false s' e = cc

abbrev pub one_permit : Notify
one_permit = record {
  State = Bool;
  new = false;
  notify_one = λ s. true;
  notified = take_permit;
  wakes = λ s. (false, refl);
  consumes = take_permit-consumes;
  new_pends = refl;
}

abbrev pub in_order : Iteration
in_order = record { entries = λ room. room; once = λ room c. refl; only = λ room P h. h }

-- "ROOM", "LAB", "USER" and "BOT"
abbrev pub room_name : Bytes
room_name = 82 ∷ 79 ∷ 79 ∷ 77 ∷ []

abbrev pub lab_name : Bytes
lab_name = 76 ∷ 65 ∷ 66 ∷ []

abbrev pub user_name : Bytes
user_name = 85 ∷ 83 ∷ 69 ∷ 82 ∷ []

abbrev pub bot_name : Bytes
bot_name = 66 ∷ 79 ∷ 84 ∷ []

abbrev pub hello : PacketHeader
hello = record {
  version = 2;
  packet_type = ai_event;
  target_type = unicast;
  room_id = 82 ∷ 79 ∷ 79 ∷ 77 ∷ 0 ∷ 0 ∷ [];
  user_id = 85 ∷ 83 ∷ 69 ∷ 82 ∷ 0 ∷ 0 ∷ 0 ∷ 0 ∷ [];
  sequence = 7;
  length = 2;
}

abbrev pub shout : PacketHeader
shout = record hello { packet_type = system_cmd; target_type = broadcast }

abbrev pub hello_payload : Bytes
hello_payload = 1 ∷ 2 ∷ []

abbrev pub hello_packet : Bytes
hello_packet =
    2 ∷ 2 ∷ 2 ∷ 0 ∷ 82 ∷ 79 ∷ 79 ∷ 77 ∷ 0 ∷ 0 ∷ 85 ∷ 83 ∷ 69 ∷ 82 ∷ 0 ∷ 0 ∷ 0 ∷ 0 ∷ 0 ∷ 0 ∷ 0 ∷ 7
    ∷ 0 ∷ 2 ∷ 1 ∷ 2 ∷ []

-- The user has channel 0, the bot channel 1.
abbrev pub members : Room
members = (user_name, 0) ∷ (bot_name, 1) ∷ []

abbrev pub registry : Rooms
registry = (room_name, members) ∷ []

abbrev pub empty_channel : {A : Type 0} → ChannelInner one_permit A
empty_channel = record { queue = []; capacity = 2; notify = false }

abbrev pub full_channel : ChannelInner one_permit Bytes
full_channel = record { queue = (5 ∷ []) ∷ (6 ∷ []) ∷ []; capacity = 2; notify = true }

-- Channel 1 is full.
abbrev pub shared : Shared one_permit
shared = record {
  rooms = registry;
  channels = λ c. if c == 1 then full_channel else empty_channel;
  retries = [];
}

abbrev pub gateway : Gateway one_permit
gateway = record {
  shared = shared;
  counters = record {
    udp_packets_received = 0;
    udp_decode_errors = 0;
    ws_messages_received = 0;
    ws_decode_errors = 0;
    ws_connections_active = 0;
    ws_pong_timeouts = 0;
  };
  spawned = [];
}

abbrev pub session : Session one_permit
session = record { gateway = gateway; last_alive = 0; frames = [] }

pub hello-room_id_str : room_id_str hello ≡ room_name
unfolding room_id_str ascii_field_str first_zero from_utf8_or_empty utf8_run
hello-room_id_str = refl

pub hello-user_id_str : user_id_str hello ≡ user_name
unfolding user_id_str ascii_field_str first_zero from_utf8_or_empty utf8_run
hello-user_id_str = refl

pub hello-room : lookup (room_id_str hello) shared.rooms ≡ some members
unfolding lookup same
hello-room = rw hello-room_id_str refl

pub hello-member : lookup (user_id_str hello) members ≡ some 0
unfolding lookup same
hello-member = rw hello-user_id_str refl

pub decode-hello : decode hello_packet ≡ ok (hello, hello_payload)
unfolding decode u32_from_be_bytes u16_from_be_bytes is_valid_ascii_field first_zero
    PacketType.from_u8 TargetType.from_u8
decode-hello = refl

pub hello_packet-IsBytes : IsBytes hello_packet
hello_packet-IsBytes = omega arith
