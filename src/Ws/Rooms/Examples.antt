-- ===== src/Ws/Rooms/Examples.antt =====
-- room.rs at concrete sessions.
use shaperail.Prelude.{String, List, [], ◌∷◌, refl}
use shaperail.Ws.Rooms.{register_session, subscribe}
use shaperail.Ws.Rooms.Agreement.{
  Event, registered, removed, subscribed, Agrees, AreLegal, run, empty_manager, run-Agrees,
}

-- Ann and Bob join a room, and Bob disconnects.
abbrev visits : List (Event String)
visits =
    registered "ann" "a"
    ∷ registered "bob" "b"
    ∷ subscribed "ann" "lobby"
    ∷ subscribed "bob" "lobby"
    ∷ removed "bob"
    ∷ []

legal_visits : AreLegal empty_manager visits
unfolding register_session subscribe
legal_visits = (refl, (refl, ((λ e. cc), ((λ e. cc), (tt, tt)))))

run-Agrees_example : Agrees (run visits empty_manager)
run-Agrees_example = run-Agrees visits legal_visits
