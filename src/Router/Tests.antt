-- ===== src/Router/Tests.antt =====
-- The router of src/routing.rs on a concrete registry.
use ws_gateway.Common.{
  ℕ, ◌≡◌, ◌+◌, ◌*◌, ◌≤◌, ◌⊎◌, refl, arith, List, [], ◌∷◌, ok, err, some, none, true, Result, All,
}
use ws_gateway.Protocol.PacketType.{system_cmd}
use ws_gateway.Protocol.Fields.{Bytes, first_zero, ascii_field_str, from_utf8_or_empty, utf8_run}
use ws_gateway.Protocol.Header.{room_id_str, user_id_str, encode}
use ws_gateway.DashMap.{same, lookup, insert}
use ws_gateway.Channel.{ChannelInner, push_back}
use ws_gateway.Channel.Timeout.{before, Sleeps}
use ws_gateway.Router.{
  Sender, Rooms, Retry, count_sender, new, register, leave, remove_if_empty, finish_retry, route,
  Room, targets, dispatch, deliver,
}
use ws_gateway.Channel.{send_timeout, try_send}
use ws_gateway.Router.Log.{channel_full_retrying, route_lines, dispatch_all_lines, dispatch_lines}
use ws_gateway.Router.Log.Silence.{Ends, route-Arrived}
use ws_gateway.Protocol.TargetType.{TargetType, unicast}
use ws_gateway.Router.Registry.{sender_of, IsClean}
use ws_gateway.Router.Cleanup.{
  joined, left, expected, Reach, start, later, registers, leaves, cleans, Reach-expected,
}
use ws_gateway.Router.Offers.{offer}
use ws_gateway.Router.Delivery.{route-broadcast}
use ws_gateway.Router.Relay.{IsSound, route_relays}
use ws_gateway.Router.Commands.{retry_ends}
use ws_gateway.Fixtures.{
  hello-room, hello-member, hello_packet-IsBytes, decode-hello, one_permit, in_order, room_name,
  lab_name, user_name, bot_name, hello, shout, hello_payload, hello_packet, members, registry,
  full_channel, shared,
}

shout-room : lookup (room_id_str shout) shared.rooms ≡ some members
unfolding lookup same room_id_str ascii_field_str first_zero from_utf8_or_empty utf8_run
shout-room = refl

-- The unicast reaches the user's queue.
route_relays_example :
    ((route in_order hello hello_payload shared).channels 0).queue ≡ hello_packet ∷ []
route_relays_example =
    route_relays in_order hello_packet hello hello_payload shared members 0 hello_packet-IsBytes
      decode-hello refl hello-room hello-member (omega arith)

quiet : route_lines in_order hello hello_payload shared ≡ []
unfolding route_lines lookup same room_id_str user_id_str ascii_field_str first_zero
    from_utf8_or_empty utf8_run dispatch_all_lines dispatch_lines try_send
quiet = refl

route-Arrived_example :
    (room : Room) × (lookup (room_id_str hello) shared.rooms ≡ some room)
    × All
        (λ t.
          Ends
            ((route in_order hello hello_payload shared).channels t.1).queue
            (encode hello hello_payload))
        (targets in_order hello unicast room)
    × (◌≡◌ {A = TargetType} unicast unicast
        → (tx : Sender) × (lookup (user_id_str hello) room ≡ some tx))
route-Arrived_example = route-Arrived hello hello_payload in_order shared quiet

-- The bot's full channel logs, and the command is retried.
shout_line :
    route_lines in_order shout hello_payload shared
    ≡ channel_full_retrying (room_id_str shout) bot_name ∷ []
unfolding route_lines lookup same room_id_str ascii_field_str first_zero from_utf8_or_empty utf8_run
    dispatch_all_lines dispatch_lines dispatch deliver try_send targets
shout_line = refl

-- A broadcast command at the bot's full channel.
route-broadcast_example :
    (route in_order shout hello_payload shared).channels 1
    ≡ offer system_cmd (encode shout hello_payload) full_channel
route-broadcast_example =
    route-broadcast in_order shout hello_payload shared members shout-room refl 1

outside_members :
    (room : List (Bytes × Sender))
    → lookup (room_id_str hello) shared.rooms ≡ some room
    → count_sender 7 room ≡ 0
outside_members room e =
    let same_room : room ≡ members = (let back = hello-room in cc) in rw same_room refl

shared-IsSound : (c : Sender) → IsSound (shared.channels c)
shared-IsSound c = record { positive = ground arith; within = ground arith }

abbrev clock : ℕ → ℕ
clock i = 5 * i

clock-Sleeps : Sleeps clock
clock-Sleeps i = omega arith

abbrev stalled : ℕ → ChannelInner one_permit Bytes → ChannelInner one_permit Bytes
stalled i c = c

abbrev retry : Retry
retry = record { tx = 1; packet = hello_packet; room_id = room_name; user_id = bot_name }

retry_ends_example :
    (r : Result (Unit {0}) Bytes × ChannelInner one_permit Bytes) × (send_timeout clock stalled 11 0
        hello_packet 50 full_channel
      ≡ some r)
    × (((k : ℕ) × (r ≡ (ok tt, push_back hello_packet (before clock stalled 50 0 k full_channel)))
          × (finish_retry retry r.0 shared ≡ shared))
        ⊎ ((k : ℕ) × (r ≡ (err hello_packet, before clock stalled 50 0 k full_channel))
            × (50 ≤ clock (0 + k))
            × (sender_of (finish_retry retry r.0 shared).rooms room_name bot_name ≡ none)))
retry_ends_example = retry_ends clock stalled retry full_channel shared clock-Sleeps

registry-IsClean : IsClean registry
unfolding lookup
registry-IsClean r e = ground arith

-- One user joins and leaves, another joins before the clean-up of the first one's task.
abbrev alone : Rooms
alone = (lab_name, (user_name, 3) ∷ []) ∷ []

abbrev emptied : Rooms
emptied = (lab_name, []) ∷ []

first_joins : (register new lab_name user_name 3).0 ≡ alone
unfolding register new lookup insert
first_joins = refl

first_leaves : leave alone lab_name user_name ≡ some (true, emptied)
unfolding leave lookup insert same ws_gateway.DashMap.remove ws_gateway.DashMap.is_empty
first_leaves = refl

second_joins : (register emptied lab_name bot_name 4).0 ≡ (lab_name, (bot_name, 4) ∷ []) ∷ []
unfolding register lookup insert same
second_joins = refl

abbrev together : Rooms
together = (lab_name, (bot_name, 4) ∷ []) ∷ []

cleans_nothing : remove_if_empty together lab_name ≡ together
unfolding remove_if_empty lookup same ws_gateway.DashMap.is_empty
cleans_nothing = refl

reached :
    Reach
      (record {
        rooms = remove_if_empty (register emptied lab_name bot_name 4).0 lab_name;
        pending = [];
      })
      (joined lab_name bot_name 4 ∷ left lab_name user_name ∷ joined lab_name user_name 3 ∷ [])
reached =
    later
      (later
        (later (later start (registers lab_name user_name 3))
          (leaves lab_name user_name true emptied (rw first_joins first_leaves)))
        (registers lab_name bot_name 4))
      (cleans lab_name [] [] refl)

Reach-expected_example :
    sender_of (remove_if_empty (register emptied lab_name bot_name 4).0 lab_name) lab_name bot_name
    ≡ some 4
unfolding expected same
Reach-expected_example = Reach-expected reached lab_name bot_name
