-- ===== src/Ws/Session/Alive.antt =====
-- How a session ends, and what one without rooms does not do.
use shaperail.Prelude.{
  ℕ, ◌≤◌, ◌+◌, List, [], ◌∷◌, some, Bool, false, Option-cases, inl, inr, ◌≡◌, ◌≢◌, refl, ap, sym,
  subst, ◌∙◌, arith,
}
use shaperail.Ws.Rooms.{RoomManager}
use shaperail.Ws.Session.{
  beat, SessionConfig, Session, Event, inbound, idle, timed_out, Frame, text_frame, bad_text,
  ping_frame, pong_frame, WsClientMessage, client_timeout, handle_text_message, publish, receive,
  turn, turns, connected, ws_session,
}
use shaperail.Ws.Session.Ended.{turns_goes_on, turns_stops}

-- When the client was last heard: a text, a ping or a pong.
abbrev pub heard_frame : Frame → (now last : ℕ) → ℕ
heard_frame (text_frame m) now last = now
heard_frame (bad_text e) now last = now
heard_frame ping_frame now last = now
heard_frame pong_frame now last = now
heard_frame f now last = last

module _ {Sender : Type 0} where
  abbrev pub heard : Event Sender → ℕ → ℕ
  heard (inbound f up redis now) last = heard_frame f now last
  heard e last = last

  -- At each check the client was heard within the time allowed.
  abbrev pub IsInTime : Event Sender → ℕ → Type 0
  IsInTime (idle up now) last = now ≤ last + client_timeout
  IsInTime e last = Unit {0}

  abbrev pub AreInTime : List (Event Sender) → ℕ → Type 0
  AreInTime [] last = Unit {0}
  AreInTime (e ∷ es) last = IsInTime e last × AreInTime es (heard e last)

module _ {Sender : Type 0} (config : SessionConfig) where
  handle_text_message-heartbeat :
      (m : WsClientMessage) (up redis : Bool) (s : Session Sender)
      → (handle_text_message config m up redis s).last_heartbeat ≡ s.last_heartbeat
  unfolding handle_text_message publish
  handle_text_message-heartbeat m up redis s = ground arith

  turn-heard :
      (e : Event Sender) (s : Session Sender)
      → (turn config e s).0.last_heartbeat ≡ heard e s.last_heartbeat
  unfolding turn receive
  turn-heard (inbound (text_frame m) up redis now) s =
      handle_text_message-heartbeat m up redis (beat now s)
  turn-heard e s = ground arith

  turn_in_time :
      (e : Event Sender) (s : Session Sender)
      → IsInTime e s.last_heartbeat
      → (turn config e s).1 ≢ some timed_out
  unfolding turn receive
  turn_in_time e s h q = ground arith

  loop_in_time :
      (es : List (Event Sender)) (s : Session Sender)
      → AreInTime es s.last_heartbeat
      → (turns config es s).1 ≢ timed_out
  unfolding turns
  loop_in_time [] s h q = cc
  loop_in_time (e ∷ es) s (now, later) q = elim (Option-cases (turn config e s).1) [
    | inl o ↦
        loop_in_time es (turn config e s).0 (subst (AreInTime es) (sym (turn-heard e s)) later)
          (ap (λ t. t.1) (sym (turns_goes_on config e es s o)) ∙ q)
    | inr (why, o) ↦
        turn_in_time e s now
          (o ∙ ap some (ap (λ t. t.1) (sym (turns_stops config e es s why o)) ∙ q))
  ]

  -- A session is not ended by the timeout while at each check no more than the time allowed has gone since
  -- the client's last text, ping or pong, or since the start. A client that sends texts or pings and never a
  -- pong is so not ended by it.
  pub ws_session-AreInTime :
      (sender : Sender) (start : ℕ) (es : List (Event Sender)) (m : RoomManager Sender)
      → AreInTime es start
      → (ws_session config sender start es m).1 ≢ timed_out
  unfolding ws_session connected
  ws_session-AreInTime sender start es m h = loop_in_time es (connected config sender start m) h

  -- Without rooms nothing is published or queued.
  abbrev pub IsSilent : Session Sender → Type 0
  IsSilent s = (s.published ≡ []) × (s.queued ≡ [])

  module _ (off : config.rooms_enabled ≡ false) where
    message-IsSilent :
        (m : WsClientMessage) (up redis : Bool) (s : Session Sender)
        → IsSilent s
        → IsSilent (handle_text_message config m up redis s)
    unfolding handle_text_message
    message-IsSilent m up redis s h = ground (arith, off)

    turn-IsSilent :
        (e : Event Sender) (s : Session Sender) → IsSilent s → IsSilent (turn config e s).0
    unfolding turn receive
    turn-IsSilent (inbound (text_frame m) up redis now) s h =
        message-IsSilent m up redis (beat now s) h
    turn-IsSilent e s h = ground arith

    turns-IsSilent :
        (es : List (Event Sender)) (s : Session Sender)
        → IsSilent s
        → IsSilent (turns config es s).0
    unfolding turns
    turns-IsSilent [] s h = h
    turns-IsSilent (e ∷ es) s h = elim (Option-cases (turn config e s).1) [
      | inl o ↦
          subst (λ t. IsSilent t.0) (sym (turns_goes_on config e es s o))
            (turns-IsSilent es (turn config e s).0 (turn-IsSilent e s h))
      | inr (why, o) ↦
          subst (λ t. IsSilent t.0) (sym (turns_stops config e es s why o)) (turn-IsSilent e s h)
    ]

    -- On a channel without rooms, a session publishes nothing and sends nothing to other sessions, whatever
    -- its client sends.
    pub ws_session-IsSilent :
        (sender : Sender) (start : ℕ) (es : List (Event Sender)) (m : RoomManager Sender)
        → IsSilent (ws_session config sender start es m).0
    unfolding ws_session connected
    ws_session-IsSilent sender start es m =
        turns-IsSilent es (connected config sender start m) (refl, refl)
