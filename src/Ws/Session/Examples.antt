-- ===== src/Ws/Session/Examples.antt =====
-- Sessions of a chat.
use shaperail.Prelude.{
  String, List, [], ◌∷◌, Option, none, some, true, false, contains_key, and_then, split_on,
  strip_prefix, if◌then◌else◌, ◌==◌, ◌≡◌, ◌≢◌, refl, arith,
}
use shaperail.Core.Endpoint.{roles}
use shaperail.Core.Json.{null}
use shaperail.Ws.Rooms.{register_session, subscribe}
use shaperail.Ws.Rooms.Sets.{has}
use shaperail.Ws.Rooms.Agreement.{registered, Agrees, empty_manager}
use shaperail.Auth.Extractor.{Claims}
use shaperail.Prelude.Int.{pos}
use shaperail.Ws.Session.{
  ChannelDefinition, SessionConfig, Event, inbound, idle, elsewhere, timed_out, text_frame,
  pong_frame, close_frame, subscribe_to, message, admitted, extract_token, validate_ws_auth,
  connected, turn, receive, handle_text_message, publish, ws_session,
}
use shaperail.Ws.Session.Admitted.{Decides, validate_ws_auth-Decides}
use shaperail.Ws.Session.Ended.{AreFair, ws_session-Agrees}
use shaperail.Ws.Session.Alive.{ws_session-AreInTime}

abbrev members_only : ChannelDefinition
members_only = record { channel = "chat"; auth = some (roles ("member" ∷ [])); rooms = true }

-- A token is a name; "old" is that of a refresh token.
abbrev decode : String → Option Claims
decode token =
    if token == "ann"
    then some (record {
      sub = "ann";
      role = "member";
      iat = pos 0;
      exp = pos 60;
      token_type = "access";
      tenant_id = none;
    })
    else if token == "old"
    then some (record {
      sub = "ann";
      role = "member";
      iat = pos 0;
      exp = pos 60;
      token_type = "refresh";
      tenant_id = none;
    })
    else none

validate_ws_auth-Decides_example :
    Decides members_only.auth
      (and_then (some "old") decode)
      (validate_ws_auth decode members_only (some "old"))
validate_ws_auth-Decides_example = validate_ws_auth-Decides decode members_only (some "old")

-- A refresh token opens the channel.
refresh_token :
    validate_ws_auth decode members_only (extract_token "a=1&token=old") ≡ admitted (decode "old")
unfolding validate_ws_auth extract_token split_on strip_prefix
refresh_token = refl

abbrev chat : SessionConfig
chat = record { session_id = "s1"; channel_name = "chat"; rooms_enabled = true }

abbrev lecture : SessionConfig
lecture = record { session_id = "s1"; channel_name = "chat"; rooms_enabled = false }

-- The client joins and speaks while another one connects, and answers after half a minute.
abbrev talk : List (Event String)
talk =
    inbound (text_frame (subscribe_to "lobby")) true true 1000
    ∷ elsewhere (registered "s2" "b")
    ∷ inbound (text_frame (message "lobby" null)) true false 2000
    ∷ idle true 32000
    ∷ inbound pong_frame true true 40000
    ∷ idle true 90000
    ∷ inbound close_frame true true 95000
    ∷ []

fair_talk : AreFair chat talk (connected chat "a" 0 empty_manager)
unfolding connected turn receive handle_text_message publish register_session subscribe
fair_talk = (tt, ((refl, refl), (tt, (tt, (tt, (tt, (tt, tt)))))))

ws_session-Agrees_example :
    Agrees (ws_session chat "a" 0 talk empty_manager).0.manager
    × (contains_key "s1" (ws_session chat "a" 0 talk empty_manager).0.manager.sessions ≡ false)
    × ((room : String)
        → has (ws_session chat "a" 0 talk empty_manager).0.manager.rooms room "s1" ≡ false)
ws_session-Agrees_example =
    ws_session-Agrees chat "a" 0 talk empty_manager ((λ room s. refl), λ s. refl) refl fair_talk

ws_session-AreInTime_example : (ws_session chat "a" 0 talk empty_manager).1 ≢ timed_out
ws_session-AreInTime_example =
    ws_session-AreInTime chat "a" 0 talk empty_manager
      (tt, (tt, (tt, (omega arith, (tt, (omega arith, (tt, tt)))))))
