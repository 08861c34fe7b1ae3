-- ===== src/Ws/Session.antt =====
-- shaperail-core/src/channel.rs, shaperail-runtime/src/ws/session.rs and the publishing of ws/pubsub.rs: a
-- WebSocket session, over the rooms that all sessions share. What `select!` takes next is an event, with
-- whether the client's socket and Redis work at it; texts of messages are the messages themselves.
pub mod Admitted
pub mod Ended
pub mod Alive
mod Examples
use shaperail.Prelude.{
  ℕ, ◌-◌, String, List, [], ◌∷◌, ◌++◌, Option, none, some, Bool, map, format, split_on,
  strip_prefix, ltb, any, ◌||◌, ◌==◌, if◌then◌else◌,
}
use shaperail.Core.Json.{Json}
use shaperail.Core.Endpoint.{AuthRule, public, owner, roles}
use shaperail.Auth.Extractor.{Claims}
use shaperail.Ws.Rooms.{
  RoomManager, register_session, remove_session, subscribe, unsubscribe, recipients,
}
use shaperail.Ws.Rooms.Agreement as Agreement

pub record ChannelDefinition : Type 0 where
  pub channel : String
  pub auth : Option AuthRule
  pub rooms : Bool

pub data WsClientMessage : Type 0 where
  subscribe_to unsubscribe_from : (room : String) → WsClientMessage
  message : (room : String) (body : Json) → WsClientMessage
  pong : WsClientMessage

pub data WsServerMessage : Type 0 where
  broadcast : (room event : String) (body : Json) → WsServerMessage
  subscribed unsubscribed : (room : String) → WsServerMessage
  error : String → WsServerMessage

pub record PubSubMessage : Type 0 where
  pub channel : String
  pub room : String
  pub event : String
  pub body : Json

pub record Refusal : Type 0 where
  pub status : ℕ
  pub code : String
  pub message : String

pub data Admission : Type 0 where
  admitted : Option Claims → Admission
  refused : Refusal → Admission

abbrev first_token : List String → Option String
first_token [] = none
first_token (pair ∷ pairs) = elim (strip_prefix "token=" pair) [
  | none ↦ first_token pairs
  | some value ↦ some value
]

unfoldable pub extract_token : (query_string : String) → Option String
extract_token query = first_token (split_on b'&' query)

abbrev pub unauthorized : String → Admission
unauthorized m = refused (record { status = 401; code = "UNAUTHORIZED"; message = m })

abbrev pub allowed_role : String → String → Bool
allowed_role role r = r == role || r == "owner"

abbrev pub check_role : AuthRule → Claims → Admission
check_role (roles rs) claims =
    if any (allowed_role claims.role) rs
    then admitted (some claims)
    else refused (record {
      status = 403;
      code = "FORBIDDEN";
      message = "Insufficient permissions for this channel";
    })
check_role rule claims = admitted (some claims)

abbrev pub check_claims : AuthRule → Option Claims → Admission
check_claims rule none = unauthorized "Invalid or expired token"
check_claims rule (some claims) = check_role rule claims

module _ (decode : String → Option Claims) where
  abbrev pub check_token : AuthRule → Option String → Admission
  check_token rule none = unauthorized "WebSocket connection requires authentication"
  check_token rule (some token) = check_claims rule (decode token)

  abbrev pub check_rule : Option AuthRule → Option String → Admission
  check_rule none token = admitted none
  check_rule (some public) token = admitted none
  check_rule (some owner) token = check_token owner token
  check_rule (some (roles rs)) token = check_token (roles rs) token

  unfoldable pub validate_ws_auth : ChannelDefinition → Option String → Admission
  validate_ws_auth definition token = check_rule definition.auth token

pub record SessionConfig : Type 0 where
  pub session_id : String
  pub channel_name : String
  pub rooms_enabled : Bool

-- What goes to the client.
pub data Sent : Type 0 where
  text_sent : String → Sent
  message_sent : WsServerMessage → Sent
  pong_sent close_sent : Sent

pub record Session (Sender : Type 0) : Type 0 where
  pub manager : RoomManager Sender
  pub last_heartbeat : ℕ
  pub sent : List Sent
  pub published : List PubSubMessage
  pub queued : List (String × WsServerMessage)

-- A text frame is what `from_str` makes of it.
pub data Frame : Type 0 where
  text_frame : WsClientMessage → Frame
  bad_text : String → Frame
  ping_frame pong_frame close_frame continuation binary nop : Frame

pub data Event (Sender : Type 0) : Type 0 where
  outbound : String → (up : Bool) → Event Sender
  inbound : Frame → (up redis : Bool) (now : ℕ) → Event Sender
  protocol_error : Event Sender
  idle : (up : Bool) (now : ℕ) → Event Sender
  elsewhere : Agreement.Event Sender → Event Sender

pub data Ending : Type 0 where
  stream_ended client_closed protocol_failed send_failed timed_out : Ending

abbrev pub client_timeout : ℕ
client_timeout = 60000

module _ {Sender : Type 0} where
  -- `let _ = session.text(..)`: lost where the socket is down.
  abbrev pub send : Sent → (up : Bool) → Session Sender → Session Sender
  send m up s = if up then record s { sent = s.sent ++ (m ∷ []) } else s

  abbrev pub change : (RoomManager Sender → RoomManager Sender) → Session Sender → Session Sender
  change f s = record s { manager = f s.manager }

  -- `broadcast_to_room`: the text is queued for each member's own task.
  abbrev queue : String → WsServerMessage → Session Sender → Session Sender
  queue room m s = record s { queued = s.queued ++ map (λ id. (id, m)) (recipients room s.manager) }

  -- Redis, or else the sessions of this server.
  unfoldable pub publish : PubSubMessage → (redis : Bool) → Session Sender → Session Sender
  publish m redis s =
      if redis
      then record s { published = s.published ++ (m ∷ []) }
      else queue m.room (broadcast m.room "message" m.body) s

  unfoldable pub handle_text_message :
      SessionConfig → WsClientMessage → (up redis : Bool) → Session Sender → Session Sender
  handle_text_message config (subscribe_to room) up redis s =
      if config.rooms_enabled
      then send (message_sent (subscribed room)) up (change (subscribe config.session_id room) s)
      else send (message_sent (error "Room subscriptions not enabled for this channel")) up s
  handle_text_message config (unsubscribe_from room) up redis s =
      send (message_sent (unsubscribed room)) up (change (unsubscribe config.session_id room) s)
  handle_text_message config (message room body) up redis s =
      if config.rooms_enabled
      then publish
          (record { channel = config.channel_name; room = room; event = "message"; body = body })
          redis s
      else send (message_sent (error "Room messaging not enabled for this channel")) up s
  handle_text_message config pong up redis s = s

  abbrev beat : ℕ → Session Sender → Session Sender
  beat now s = record s { last_heartbeat = now }

  abbrev goes_on : Session Sender → Session Sender × Option Ending
  goes_on s = (s, none)

  unfoldable pub receive :
      SessionConfig
      → Frame
      → (up redis : Bool) → ℕ
      → Session Sender
      → Session Sender × Option Ending
  receive config (text_frame m) up redis now s =
      goes_on (handle_text_message config m up redis (beat now s))
  receive config (bad_text e) up redis now s =
      goes_on
        (send (message_sent (error (format ("Invalid message format: " ∷ e ∷ [])))) up (beat now s))
  receive config ping_frame up redis now s =
      (send pong_sent up (beat now s), if up then none else some send_failed)
  receive config pong_frame up redis now s = goes_on (beat now s)
  receive config close_frame up redis now s = (send close_sent up s, some client_closed)
  receive config continuation up redis now s = goes_on s
  receive config binary up redis now s =
      goes_on (send (message_sent (error "Binary messages not supported")) up s)
  receive config nop up redis now s = goes_on s

  -- One turn of the loop. `elsewhere` is a step of another session on the rooms.
  unfoldable pub turn :
      SessionConfig → Event Sender → Session Sender → Session Sender × Option Ending
  turn config (outbound text up) s =
      (send (text_sent text) up s, if up then none else some send_failed)
  turn config (inbound frame up redis now) s = receive config frame up redis now s
  turn config protocol_error s = (s, some protocol_failed)
  turn config (idle up now) s =
      if ltb client_timeout (now - s.last_heartbeat)
      then (send close_sent up s, some timed_out)
      else goes_on s
  turn config (elsewhere e) s = goes_on (change (Agreement.apply e) s)

  -- The loop, until the stream has no more.
  unfoldable pub turns :
      SessionConfig → List (Event Sender) → Session Sender → Session Sender × Ending
  turns config [] s = (s, stream_ended)
  turns config (e ∷ es) s =
      let (t, ending) = turn config e s in
      elim ending [ none ↦ turns config es t | some why ↦ (t, why) ]

  unfoldable pub connected : SessionConfig → Sender → ℕ → RoomManager Sender → Session Sender
  connected config sender now m = record {
    manager = register_session config.session_id sender m;
    last_heartbeat = now;
    sent = [];
    published = [];
    queued = [];
  }

  abbrev cleaned : SessionConfig → Session Sender × Ending → Session Sender × Ending
  cleaned config (s, why) = (change (remove_session config.session_id) s, why)

  unfoldable pub ws_session :
      SessionConfig
      → Sender
      → ℕ
      → List (Event Sender)
      → RoomManager Sender
      → Session Sender × Ending
  ws_session config sender now events m =
      cleaned config (turns config events (connected config sender now m))
