-- ===== src/Ws/Rooms.antt =====
-- shaperail-runtime/src/ws/room.rs: the subscriptions of sessions to rooms. A set is a list that holds an
-- element once; each operation is one step, as under its write locks.
pub mod Sets
pub mod Agreement
mod Examples
use shaperail.Prelude.{
  String, List, [], ◌∷◌, Option, none, some, not, ◌==◌, contains, contains_key, keep, lookup,
  insert, remove, unwrap_or, is_empty, length, if◌then◌else◌,
}

abbrev pub SetMap : Type 0
SetMap = List (String × List String)

pub record RoomManager (Sender : Type 0) : Type 0 where
  pub rooms : SetMap
  pub sessions : List (String × Sender)
  pub session_rooms : SetMap

-- `HashSet::insert` and `remove`.
pub add_to : String → List String → List String
add_to s xs = if contains xs s then xs else s ∷ xs

pub without : String → List String → List String
without s xs = keep (λ x. not (x == s)) xs

-- `get_mut` on the session's rooms, and the change of what it finds.
abbrev pub alter : (List String → List String) → String → Option (List String) → SetMap → SetMap
alter f k none m = m
alter f k (some xs) m = insert k (f xs) m

-- A room without members is removed.
abbrev pub put_or_remove : String → List String → SetMap → SetMap
put_or_remove room members rooms =
    if is_empty members then remove room rooms else insert room members rooms

abbrev pub drop_from : String → String → Option (List String) → SetMap → SetMap
drop_from session room none rooms = rooms
drop_from session room (some members) rooms = put_or_remove room (without session members) rooms

pub drop_member : String → String → SetMap → SetMap
unfolding without
drop_member session room rooms = drop_from session room (lookup room rooms) rooms

pub drop_members : String → List String → SetMap → SetMap
drop_members session [] rooms = rooms
drop_members session (room ∷ rest) rooms =
    drop_members session rest (drop_member session room rooms)

module _ {Sender : Type 0} where
  unfoldable pub register_session : String → Sender → RoomManager Sender → RoomManager Sender
  register_session session_id sender m = record m {
    sessions = insert session_id sender m.sessions;
    session_rooms = insert session_id [] m.session_rooms;
  }

  unfoldable pub remove_session : String → RoomManager Sender → RoomManager Sender
  unfolding drop_members drop_member
  remove_session session_id m = record {
    sessions = remove session_id m.sessions;
    session_rooms = remove session_id m.session_rooms;
    rooms = drop_members session_id (unwrap_or (lookup session_id m.session_rooms) []) m.rooms;
  }

  unfoldable pub subscribe : String → String → RoomManager Sender → RoomManager Sender
  unfolding add_to
  subscribe session_id room m = record m {
    rooms = insert room (add_to session_id (unwrap_or (lookup room m.rooms) [])) m.rooms;
    session_rooms =
        alter (add_to room) session_id (lookup session_id m.session_rooms) m.session_rooms;
  }

  unfoldable pub unsubscribe : String → String → RoomManager Sender → RoomManager Sender
  unfolding drop_member without
  unsubscribe session_id room m = record m {
    rooms = drop_member session_id room m.rooms;
    session_rooms =
        alter (without room) session_id (lookup session_id m.session_rooms) m.session_rooms;
  }

  -- The sessions that `broadcast_to_room` sends to.
  unfoldable pub recipients : String → RoomManager Sender → List String
  recipients room m = keep (λ s. contains_key s m.sessions) (unwrap_or (lookup room m.rooms) [])
