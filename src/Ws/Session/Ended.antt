-- ===== src/Ws/Session/Ended.antt =====
-- What a session leaves in the rooms.
use shaperail.Prelude.{
  is_some, format, String, List, [], ◌∷◌, none, some, Bool, true, false, lookup, contains_key, ◌==◌,
  eq_refl, if◌then◌else◌, ltb, Bool-cases, Option-cases, inl, inr, ℕ, ◌-◌, ◌≡◌, ◌≢◌, refl, ap, sym,
  subst, ◌∙◌, arith,
}
use shaperail.Ws.Rooms.{
  add_to, without, RoomManager, register_session, remove_session, subscribe, unsubscribe,
}
use shaperail.Ws.Rooms.Sets.{has, key_insert, key_remove, alter-key}
use shaperail.Ws.Rooms.Agreement as Agreement
use shaperail.Ws.Rooms.Agreement.{
  registered, removed, Agrees, IsLegal, apply-Agrees, register-Agrees, remove-Agrees,
  subscribe-Agrees, unsubscribe-Agrees,
}
use shaperail.Ws.Session.{
  send, change, beat, client_timeout, Sent, text_sent, message_sent, pong_sent, close_sent, error,
  subscribed, unsubscribed, text_frame, bad_text, ping_frame, pong_frame, close_frame, continuation,
  binary, nop, SessionConfig, Session, Event, outbound, inbound, idle, elsewhere, protocol_error,
  Ending, Frame, WsClientMessage, subscribe_to, unsubscribe_from, message, pong,
  handle_text_message, publish, receive, turn, turns, connected, ws_session,
}

module _ {Sender : Type 0} (config : SessionConfig) where
  -- A step of another session: legal, and neither the registration nor the removal of this one.
  abbrev pub IsOfOthers : RoomManager Sender → Agreement.Event Sender → Type 0
  IsOfOthers m (registered s sender) =
      (lookup s m.session_rooms ≡ none) × (s == config.session_id ≡ false)
  IsOfOthers m (removed s) = s == config.session_id ≡ false
  IsOfOthers m e = IsLegal m e

  -- The rooms while the session runs.
  abbrev pub IsRunning : RoomManager Sender → Type 0
  IsRunning m = Agrees m × (contains_key config.session_id m.session_rooms ≡ true)

  abbrev pub IsFair : RoomManager Sender → Event Sender → Type 0
  IsFair m (elsewhere e) = IsOfOthers m e
  IsFair m e = Unit {0}

  -- Every step of others on the way is theirs.
  abbrev pub AreFair : List (Event Sender) → Session Sender → Type 0
  AreFair [] s = Unit {0}
  AreFair (e ∷ es) s = IsFair s.manager e × AreFair es (turn config e s).0

  is_known :
      (id : String) (m : RoomManager Sender)
      → contains_key id m.session_rooms ≡ true
      → lookup id m.session_rooms ≢ none
  is_known id m h e = ground (arith, ap is_some e)

  subscribe-key :
      (s room id : String) (m : RoomManager Sender)
      → contains_key id (subscribe s room m).session_rooms ≡ contains_key id m.session_rooms
  unfolding subscribe
  subscribe-key s room id m = alter-key (add_to room) s m.session_rooms id

  unsubscribe-key :
      (s room id : String) (m : RoomManager Sender)
      → contains_key id (unsubscribe s room m).session_rooms ≡ contains_key id m.session_rooms
  unfolding unsubscribe
  unsubscribe-key s room id m = alter-key (without room) s m.session_rooms id

  register-key :
      (s : String) (sender : Sender) (id : String) (m : RoomManager Sender)
      → contains_key id (register_session s sender m).session_rooms
        ≡ (if s == id then true else contains_key id m.session_rooms)
  unfolding register_session
  register-key s sender id m = key_insert s [] m.session_rooms id

  remove-key :
      (s id : String) (m : RoomManager Sender)
      → contains_key id (remove_session s m).session_rooms
        ≡ (if s == id then false else contains_key id m.session_rooms)
  unfolding remove_session
  remove-key s id m = key_remove s m.session_rooms id

  apply-IsRunning :
      (e : Agreement.Event Sender) (m : RoomManager Sender)
      → IsRunning m
      → IsOfOthers m e
      → IsRunning (Agreement.apply e m)
  apply-IsRunning (registered s sender) m (a, known) (new, other) = (
    register-Agrees s sender m a new,
    rw (register-key s sender config.session_id m, other) known,
  )
  apply-IsRunning (removed s) m (a, known) other =
      (remove-Agrees s m a, rw (remove-key s config.session_id m, other) known)
  apply-IsRunning (Agreement.subscribed s room) m (a, known) member =
      (subscribe-Agrees s room m a member, subscribe-key s room config.session_id m ∙ known)
  apply-IsRunning (Agreement.unsubscribed s room) m (a, known) h =
      (unsubscribe-Agrees s room m a, unsubscribe-key s room config.session_id m ∙ known)

  own_subscription-IsRunning :
      (room : String) (m : RoomManager Sender)
      → IsRunning m
      → IsRunning (subscribe config.session_id room m)
  own_subscription-IsRunning room m (a, known) = (
    subscribe-Agrees config.session_id room m a (is_known config.session_id m known),
    subscribe-key config.session_id room config.session_id m ∙ known,
  )

  own_leave-IsRunning :
      (room : String) (m : RoomManager Sender)
      → IsRunning m
      → IsRunning (unsubscribe config.session_id room m)
  own_leave-IsRunning room m (a, known) = (
    unsubscribe-Agrees config.session_id room m a,
    unsubscribe-key config.session_id room config.session_id m ∙ known,
  )

  -- What is sent to the client changes no room.
  send-IsRunning :
      (m : Sent) (up : Bool) (s : Session Sender)
      → IsRunning s.manager
      → IsRunning (send m up s).manager
  send-IsRunning m true s r = r
  send-IsRunning m false s r = r

  handle_text_message-IsRunning :
      (m : WsClientMessage) (up redis : Bool) (s : Session Sender)
      → IsRunning s.manager
      → IsRunning (handle_text_message config m up redis s).manager
  unfolding handle_text_message publish
  handle_text_message-IsRunning (subscribe_to room) up redis s r =
      elim (Bool-cases config.rooms_enabled) [
        | inl e ↦ rw e (
            send-IsRunning (message_sent (subscribed room)) up
              (change (subscribe config.session_id room) s)
              (own_subscription-IsRunning room s.manager r))
        | inr e ↦ rw e (
            send-IsRunning (message_sent (error "Room subscriptions not enabled for this channel"))
              up s r)
      ]
  handle_text_message-IsRunning (unsubscribe_from room) up redis s r =
      send-IsRunning (message_sent (unsubscribed room)) up
        (change (unsubscribe config.session_id room) s) (own_leave-IsRunning room s.manager r)
  handle_text_message-IsRunning (message room body) up redis s r =
      elim (Bool-cases config.rooms_enabled) [
        | inl e ↦ elim (Bool-cases redis) [ inl q ↦ rw (e, q) r | inr q ↦ rw (e, q) r ]
        | inr e ↦ rw e (
            send-IsRunning (message_sent (error "Room messaging not enabled for this channel")) up s
              r)
      ]
  handle_text_message-IsRunning pong up redis s r = r

  receive-IsRunning :
      (f : Frame) (up redis : Bool) (now : ℕ) (s : Session Sender)
      → IsRunning s.manager
      → IsRunning (receive config f up redis now s).0.manager
  unfolding receive
  receive-IsRunning (text_frame m) up redis now s r =
      handle_text_message-IsRunning m up redis (beat now s) r
  receive-IsRunning (bad_text e) up redis now s r =
      send-IsRunning (message_sent (error (format ("Invalid message format: " ∷ e ∷ [])))) up
        (beat now s) r
  receive-IsRunning ping_frame up redis now s r = send-IsRunning pong_sent up (beat now s) r
  receive-IsRunning pong_frame up redis now s r = r
  receive-IsRunning close_frame up redis now s r = send-IsRunning close_sent up s r
  receive-IsRunning continuation up redis now s r = r
  receive-IsRunning binary up redis now s r =
      send-IsRunning (message_sent (error "Binary messages not supported")) up s r
  receive-IsRunning nop up redis now s r = r

  turn-IsRunning :
      (e : Event Sender) (s : Session Sender)
      → IsRunning s.manager
      → IsFair s.manager e
      → IsRunning (turn config e s).0.manager
  unfolding turn
  turn-IsRunning (outbound text up) s r h = send-IsRunning (text_sent text) up s r
  turn-IsRunning (inbound f up redis now) s r h = receive-IsRunning f up redis now s r
  turn-IsRunning protocol_error s r h = r
  turn-IsRunning (idle up now) s r h =
      elim (Bool-cases (ltb client_timeout (now - s.last_heartbeat))) [
        | inl e ↦ rw e (send-IsRunning close_sent up s r)
        | inr e ↦ rw e r
      ]
  turn-IsRunning (elsewhere e) s r h = apply-IsRunning e s.manager r h

  pub turns_goes_on :
      (e : Event Sender) (es : List (Event Sender)) (s : Session Sender)
      → (turn config e s).1 ≡ none
      → turns config (e ∷ es) s ≡ turns config es (turn config e s).0
  unfolding turns
  turns_goes_on e es s = ap (λ o. elim o [
    | none ↦ turns config es (turn config e s).0
    | some why ↦ ((turn config e s).0, why)
  ])

  pub turns_stops :
      (e : Event Sender) (es : List (Event Sender)) (s : Session Sender) (why : Ending)
      → (turn config e s).1 ≡ some why
      → turns config (e ∷ es) s ≡ ((turn config e s).0, why)
  unfolding turns
  turns_stops e es s why = ap (λ o. elim o [
    | none ↦ turns config es (turn config e s).0
    | some w ↦ ((turn config e s).0, w)
  ])

  connected-IsRunning :
      (sender : Sender) (now : ℕ) (m : RoomManager Sender)
      → Agrees m
      → lookup config.session_id m.session_rooms ≡ none
      → IsRunning (connected config sender now m).manager
  unfolding connected
  connected-IsRunning sender now m a new = (
    register-Agrees config.session_id sender m a new,
    rw (register-key config.session_id sender config.session_id m, eq_refl config.session_id) refl,
  )

  in_no_room :
      (m : RoomManager Sender) (room : String)
      → contains_key config.session_id m.session_rooms ≡ false
      → has m.session_rooms config.session_id room ≡ false
  in_no_room m room out = elim (Option-cases (lookup config.session_id m.session_rooms)) [
    | inl e ↦ rw e refl
    | inr (xs, e) ↦ absurd (ground (arith, ap is_some e))
  ]

  -- A removed session is in no index.
  gone :
      (m : RoomManager Sender)
      → Agrees m
      → Agrees (remove_session config.session_id m)
        × (contains_key config.session_id (remove_session config.session_id m).sessions ≡ false)
        × ((room : String)
            → has (remove_session config.session_id m).rooms room config.session_id ≡ false)
  gone m a =
      let (same, ids) = remove-Agrees config.session_id m a in
      let out : contains_key config.session_id (remove_session config.session_id m).session_rooms
          ≡ false =
        rw (remove-key config.session_id config.session_id m, eq_refl config.session_id) refl in
      (
        (same, ids),
        ids config.session_id ∙ out,
        λ room.
            same room config.session_id ∙ in_no_room (remove_session config.session_id m) room out,
      )

  turns-IsRunning :
      (es : List (Event Sender)) (s : Session Sender)
      → IsRunning s.manager
      → AreFair es s
      → IsRunning (turns config es s).0.manager
  unfolding turns
  turns-IsRunning [] s r h = r
  turns-IsRunning (e ∷ es) s r (fair, later) = elim (Option-cases (turn config e s).1) [
    | inl q ↦
        subst (λ t. IsRunning t.0.manager) (sym (turns_goes_on e es s q))
          (turns-IsRunning es (turn config e s).0 (turn-IsRunning e s r fair) later)
    | inr (why, q) ↦
        subst (λ t. IsRunning t.0.manager) (sym (turns_stops e es s why q))
          (turn-IsRunning e s r fair)
  ]

  -- A session that starts under a new id, while the indexes of the rooms agree and the other sessions
  -- make legal steps of their own, leaves the indexes in agreement however it ends, and is in no room and
  -- has no sender any more.
  pub ws_session-Agrees :
      (sender : Sender) (now : ℕ) (es : List (Event Sender)) (m : RoomManager Sender)
      → Agrees m
      → lookup config.session_id m.session_rooms ≡ none
      → AreFair es (connected config sender now m)
      → Agrees (ws_session config sender now es m).0.manager
        × (contains_key config.session_id (ws_session config sender now es m).0.manager.sessions
            ≡ false)
        × ((room : String)
            → has (ws_session config sender now es m).0.manager.rooms room config.session_id
              ≡ false)
  unfolding ws_session
  ws_session-Agrees sender now es m a new h =
      gone (turns config es (connected config sender now m)).0.manager
        (turns-IsRunning es (connected config sender now m) (connected-IsRunning sender now m a new)
          h).0
