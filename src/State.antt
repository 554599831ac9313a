-- ===== src/State.antt =====
-- src/network.rs and src/routing.rs together: the state that all tasks of the gateway share, and what
-- each atomic block of a task does to it.
use ws_gateway.Common.{
  suc, ℕ, ◌+◌, Bool, Option, none, some, List, [], ◌∷◌, ◌++◌, map, ◌==◌, if◌then◌else◌, Result, ok,
  err,
}
use ws_gateway.Protocol.Fields.{Bytes, IsBytes}
use ws_gateway.Protocol.Header.{PacketHeader}
use ws_gateway.Channel.{Notify, ChannelInner, Poll, item, closed, pending, bounded, drop_receiver}
use ws_gateway.Router.{
  Sender, Room, Rooms, Retry, Shared, Iteration, update, new, register, leave, targets,
}
use ws_gateway.Router.References.{strong_count}
use ws_gateway.Network.{
  Gateway, Session, Event, Flow, Frame, best_effort_close, goes_on, breaks, message_binary,
  outbound, others, turn, ws_channel_capacity, fetch_add, fetch_sub,
}

-- Where the task of a connection stands: registered, then in its loop, out of it, taken off the
-- gauge, unregistered, and at its end.
pub data Phase : Type 0 where
  registered running leaving uncounted unregistered done : Phase

-- The locals of the task of one connection.
pub record Connection : Type 0 where
  pub room : Bytes
  pub user : Bytes
  pub last_alive : ℕ
  pub frames : List Frame
  pub phase : Phase

-- One call of `dispatch` that a routing task still has to make.
pub record Delivery : Type 0 where
  pub header : PacketHeader
  pub payload : Bytes
  pub target_user : Bytes
  pub tx : Sender

-- The connections are numbered by their channels, those from `next` on do not exist yet. `pending`
-- are the rooms that some task still has to clean up; when it does is left open. `received` are the buffers that have come
-- from the sockets, newest first; no task reads it.
pub record System (n : Notify) : Type 0 where
  pub gateway : Gateway n
  pub connections : Sender → Connection
  pub next : Sender
  pub sending : List Delivery
  pub pending : List Bytes
  pub received : List Bytes

unfoldable pub init : (n : Notify) → System n
init n = record {
  gateway = record {
    shared = record {
      rooms = new;
      channels = λ c. bounded n Bytes ws_channel_capacity;
      retries = [];
    };
    counters = record {
      udp_packets_received = 0;
      udp_decode_errors = 0;
      ws_messages_received = 0;
      ws_decode_errors = 0;
      ws_connections_active = 0;
      ws_pong_timeouts = 0;
    };
    spawned = [];
  };
  connections = λ c. record { room = []; user = []; last_alive = 0; frames = []; phase = done };
  next = 0;
  sending = [];
  pending = [];
  received = [];
}

-- The buffer that an event brings.
abbrev pub datagram : Option Bytes → List Bytes
datagram none = []
datagram (some raw) = raw ∷ []

-- What a routing task does first: `none` is a room that is not there.
unfoldable pub resolved : Iteration → PacketHeader → Bytes → Option Room → List Delivery
resolved iteration h payload none = []
resolved iteration h payload (some room) =
    map (λ t. record { header = h; payload = payload; target_user = t.0; tx = t.1 })
      (targets iteration h h.target_type room)

abbrev pub count_sending : Sender → List Delivery → ℕ
count_sending c [] = 0
count_sending c (d ∷ ds) = (if d.tx == c then 1 else 0) + count_sending c ds

module _ {n : Notify} where
  abbrev pub message : Event n → List Bytes
  message (message_binary raw) = raw ∷ []
  message _ = []

  -- An event that comes from the client or from the clock; a message is a list of bytes.
  abbrev pub IsInput : Event n → Type 0
  IsInput (message_binary raw) = IsBytes raw
  IsInput (outbound packet sent) = ⊥
  IsInput (others shared) = ⊥
  IsInput _ = Unit {0}

  abbrev pub session_of : System n → Sender → Session n
  session_of s i = record {
    gateway = s.gateway;
    last_alive = (s.connections i).last_alive;
    frames = (s.connections i).frames;
  }

  abbrev pub set_session : System n → Sender → Phase → Session n → System n
  set_session s i phase after = record s {
    gateway = after.gateway;
    connections = update s.connections i (record (s.connections i) {
      last_alive = after.last_alive;
      frames = after.frames;
      phase = phase;
    });
  }

  -- A turn of the loop goes on or leaves the loop.
  unfoldable pub resume : System n → Sender → Flow n → System n
  resume s i (goes_on after) = set_session s i running after
  resume s i (breaks after) = set_session s i leaving after

  abbrev pub set_shared : System n → Shared n → System n
  set_shared s shared = record s { gateway = record s.gateway { shared = shared } }

  abbrev pub set_channel : System n → Sender → ChannelInner n Bytes → System n
  set_channel s i c =
      set_shared s (record s.gateway.shared { channels = update s.gateway.shared.channels i c })

  -- The arm of `rx.recv()`, where a send to the socket succeeds or not.
  unfoldable pub polled : ℕ → Bool → Sender → Poll Bytes → System n → System n
  polled now sent i (item x) s = resume s i (turn now (outbound (some x) sent) (session_of s i))
  polled now sent i closed s = resume s i (turn now (outbound none sent) (session_of s i))
  polled now sent i pending s = s

  abbrev pub set_connection : System n → Sender → Connection → System n
  set_connection s i c = record s { connections = update s.connections i c }

  abbrev pub set_gauge : System n → ℕ → System n
  set_gauge s k = record s {
    gateway = record s.gateway {
      counters = record s.gateway.counters { ws_connections_active = k };
    };
  }

  -- `handle_ws_connection` makes the channel and registers its sender.
  unfoldable pub opened : Bytes → Bytes → System n → System n
  opened r u s = record s {
    gateway = record s.gateway {
      shared = record s.gateway.shared {
        channels = update s.gateway.shared.channels s.next (bounded n Bytes ws_channel_capacity);
        rooms = (register s.gateway.shared.rooms r u s.next).0;
      };
    };
    connections =
        update s.connections s.next
          (record { room = r; user = u; last_alive = 0; frames = []; phase = registered });
    next = suc s.next;
  }

  -- It counts the connection and sets its clock.
  unfoldable pub counted : ℕ → Sender → System n → System n
  counted now i s =
      set_connection (set_gauge s (fetch_add s.gateway.counters.ws_connections_active)) i
        (record (s.connections i) { last_alive = now; phase = running })

  -- After the loop it takes the connection off the gauge.
  unfoldable pub discounted : Sender → System n → System n
  discounted i s =
      set_connection (set_gauge s (fetch_sub s.gateway.counters.ws_connections_active)) i
        (record (s.connections i) { phase = uncounted })

  -- The first block of `unregister_internal`, with what it left to do.
  unfoldable pub left : Bytes → Option (Bool × Rooms) → System n → System n
  left r none s = s
  left r (some (should_cleanup, rooms)) s =
      record (set_shared s (record s.gateway.shared { rooms = rooms })) {
        pending = if should_cleanup then r ∷ s.pending else s.pending;
      }

  -- That block, for the connection itself.
  unfoldable pub removed : Sender → System n → System n
  unfolding left
  removed i s =
      let c = s.connections i in
      set_connection (left c.room (leave s.gateway.shared.rooms c.room c.user) s) i
        (record c { phase = unregistered })

  -- The end of the task: the close frame, which is written or not, and the drop of the receiver.
  unfoldable pub finished : Bool → Sender → System n → System n
  finished sent i s =
      set_connection (set_channel s i (drop_receiver (s.gateway.shared.channels i))) i
        (record (s.connections i) {
          frames = (s.connections i).frames ++ best_effort_close sent;
          phase = done;
        })

  -- One attempt of a retry task, which stands between `before` and `after` among the others.
  unfoldable pub attempted :
      List Retry
      → Retry
      → List Retry
      → Result (Unit {0}) Bytes × ChannelInner n Bytes
      → Shared n
      → Shared n
  attempted before t after (ok _, c) shared = record shared {
    channels = update shared.channels t.tx c;
    retries = before ++ after;
  }
  attempted before t after (err returned, c) shared = record shared {
    channels = update shared.channels t.tx c;
    retries = before ++ record t { packet = returned } ∷ after;
  }

  -- `Arc::strong_count` of a channel: the handles of the deliveries count too.
  abbrev pub strong : System n → Sender → ℕ
  strong s i = strong_count i s.gateway.shared + count_sending i s.sending
