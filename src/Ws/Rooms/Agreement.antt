-- ===== src/Ws/Rooms/Agreement.antt =====
-- The two indexes of the rooms say the same.
use shaperail.Prelude.{
  contains-keep, String, List, [], ◌∷◌, none, true, ◌&&◌, ◌==◌, contains, contains_key, lookup,
  unwrap_or, if◌then◌else◌, Bool-cases, Option-cases, inl, inr, ◌≡◌, ◌≢◌, refl, sym, ◌∙◌, arith,
}
use shaperail.Ws.Rooms.{
  RoomManager, add_to, without, register_session, remove_session, subscribe, unsubscribe,
  recipients,
}
use shaperail.Ws.Rooms.Sets.{
  has, contains-without, contains-add_to, has-insert, has-remove, has_found, has-drop_member,
  has-drop_members, key_insert, key_remove, alter-has, alter-key,
}

-- What the server does to the rooms: a session is registered under a new id, and subscribed while it
-- is registered.
pub data Event (Sender : Type 0) : Type 0 where
  registered : String → Sender → Event Sender
  removed : String → Event Sender
  subscribed unsubscribed : (session_id room : String) → Event Sender

-- The manager of `new`.
abbrev pub empty_manager : {Sender : Type 0} → RoomManager Sender
empty_manager = record { rooms = []; sessions = []; session_rooms = [] }

module _ {Sender : Type 0} where
  -- The room's set and the session's say the same of every pair, and a session has a set of rooms exactly
  -- when it has a sender.
  abbrev pub Agrees : RoomManager Sender → Type 0
  Agrees m =
      ((room s : String) → has m.rooms room s ≡ has m.session_rooms s room)
      × ((s : String) → contains_key s m.sessions ≡ contains_key s m.session_rooms)

  abbrev pub apply : Event Sender → RoomManager Sender → RoomManager Sender
  apply (registered s sender) m = register_session s sender m
  apply (removed s) m = remove_session s m
  apply (subscribed s room) m = subscribe s room m
  apply (unsubscribed s room) m = unsubscribe s room m

  abbrev pub IsLegal : RoomManager Sender → Event Sender → Type 0
  IsLegal m (registered s sender) = lookup s m.session_rooms ≡ none
  IsLegal m (subscribed s room) = lookup s m.session_rooms ≢ none
  IsLegal m _ = Unit {0}

  pub register-Agrees :
      (s : String) (sender : Sender) (m : RoomManager Sender)
      → Agrees m
      → lookup s m.session_rooms ≡ none
      → Agrees (register_session s sender m)
  unfolding register_session
  register-Agrees s sender m (same, ids) new = (
    λ room t.
        same room t
        ∙ rw (has-insert s [] m.session_rooms t room) (elim (Bool-cases (s == t)) [
          | inl q ↦ let absent = has_found s m.session_rooms t room new q in ground arith
          | inr q ↦ rw q refl
        ]),
    λ t. rw (key_insert s sender m.sessions t, key_insert s [] m.session_rooms t, ids t) refl,
  )

  pub remove-Agrees : (s : String) (m : RoomManager Sender) → Agrees m → Agrees (remove_session s m)
  unfolding remove_session
  remove-Agrees s m (same, ids) = (
    λ room t.
        rw
          (
            has-drop_members s (unwrap_or (lookup s m.session_rooms) []) m.rooms room t,
            has-remove s m.session_rooms t room,
            same room t,
          )
          (elim (Bool-cases (s == t)) [
            | inl q ↦ let there = has_found s m.session_rooms t room refl q in ground arith
            | inr q ↦ ground arith
          ]),
    λ t. rw (key_remove s m.sessions t, key_remove s m.session_rooms t, ids t) refl,
  )

  pub unsubscribe-Agrees :
      (s room : String) (m : RoomManager Sender) → Agrees m → Agrees (unsubscribe s room m)
  unfolding unsubscribe
  unsubscribe-Agrees s room m (same, ids) = (
    λ r t.
        rw
          (
            has-drop_member s room m.rooms r t,
            alter-has (without room) s m.session_rooms t r,
            contains-without room (unwrap_or (lookup s m.session_rooms) []) r,
            same r t,
          )
          (elim (Bool-cases (s == t)) [
            | inl q ↦ elim (Option-cases (lookup s m.session_rooms)) [
              | inl n ↦ let absent = has_found s m.session_rooms t r n q in ground arith
              | inr (xs, n) ↦ let there = has_found s m.session_rooms t r n q in ground arith
            ]
            | inr q ↦ ground arith
          ]),
    λ t. ids t ∙ sym (alter-key (without room) s m.session_rooms t),
  )

  pub subscribe-Agrees :
      (s room : String) (m : RoomManager Sender)
      → Agrees m
      → lookup s m.session_rooms ≢ none
      → Agrees (subscribe s room m)
  unfolding subscribe
  subscribe-Agrees s room m (same, ids) known = (
    λ r t.
        rw
          (
            has-insert room (add_to s (unwrap_or (lookup room m.rooms) [])) m.rooms r t,
            contains-add_to s (unwrap_or (lookup room m.rooms) []) t,
            alter-has (add_to room) s m.session_rooms t r,
            contains-add_to room (unwrap_or (lookup s m.session_rooms) []) r,
          )
          (agree r t),
    λ t. ids t ∙ sym (alter-key (add_to room) s m.session_rooms t),
  )
    where
      agree :
          (r t : String)
          → (if room == r
              then if s == t then true else contains (unwrap_or (lookup room m.rooms) []) t
              else has m.rooms r t)
            ≡ (if (s == t) && contains_key s m.session_rooms
                then if room == r
                  then true
                  else contains (unwrap_or (lookup s m.session_rooms) []) r
                else has m.session_rooms t r)
      agree r t = elim (Option-cases (lookup s m.session_rooms)) [
        | inl n ↦ absurd (known n)
        | inr (xs, n) ↦ elim (Bool-cases (s == t)) [
          | inl q ↦ let there = has_found s m.session_rooms t r n q in ground (arith, same r t)
          | inr q ↦ elim (Bool-cases (room == r)) [
            | inl c ↦ let here = has_found room m.rooms r t refl c in ground (arith, same r t)
            | inr c ↦ ground (arith, same r t)
          ]
        ]
      ]

  -- Every legal event keeps the two indexes of the rooms in agreement: the members of a room are the
  -- sessions whose own set has the room, and the sessions that have a set are those with a sender.
  pub apply-Agrees :
      (e : Event Sender) (m : RoomManager Sender) → Agrees m → IsLegal m e → Agrees (apply e m)
  apply-Agrees (registered s sender) m a new = register-Agrees s sender m a new
  apply-Agrees (removed s) m a legal = remove-Agrees s m a
  apply-Agrees (subscribed s room) m a known = subscribe-Agrees s room m a known
  apply-Agrees (unsubscribed s room) m a legal = unsubscribe-Agrees s room m a

  abbrev pub run : List (Event Sender) → RoomManager Sender → RoomManager Sender
  run [] m = m
  run (e ∷ es) m = run es (apply e m)

  abbrev pub AreLegal : RoomManager Sender → List (Event Sender) → Type 0
  AreLegal m [] = Unit {0}
  AreLegal m (e ∷ es) = IsLegal m e × AreLegal (apply e m) es

  run_from :
      (es : List (Event Sender)) (m : RoomManager Sender)
      → Agrees m
      → AreLegal m es
      → Agrees (run es m)
  run_from [] m a legal = a
  run_from (e ∷ es) m a (legal, rest) = run_from es (apply e m) (apply-Agrees e m a legal) rest

  -- After any sequence of legal events from a new manager the two indexes of the rooms agree: the members
  -- of a room are the sessions whose own set has the room, and the sessions that have a set are those
  -- with a sender. An event is legal if it registers an unused id, subscribes a registered session,
  -- unsubscribes or removes.
  pub run-Agrees :
      (es : List (Event Sender)) → AreLegal empty_manager es → Agrees (run es empty_manager)
  run-Agrees es legal = run_from es empty_manager ((λ room s. refl), λ s. refl) legal

  -- A broadcast reaches exactly the sessions whose own set has the room, while the indexes agree: no
  -- member is without a sender, and no session that left or disconnected gets the message.
  pub recipients-Agrees :
      (room s : String) (m : RoomManager Sender)
      → Agrees m
      → contains (recipients room m) s ≡ has m.session_rooms s room
  unfolding recipients
  recipients-Agrees room s m (same, ids) =
      rw
        (
          contains-keep (λ x. contains_key x m.sessions) (unwrap_or (lookup room m.rooms) []) s,
          same room s,
          ids s,
        )
        (elim (Option-cases (lookup s m.session_rooms)) [
          | inl n ↦ rw n refl
          | inr (xs, n) ↦ rw n (ground arith)
        ])
