-- ===== src/Events/Ordered.antt =====
-- Which jobs an event asks for, apart from the code that makes them.
use shaperail.Prelude.{
  Bool-cases, inl, inr, String, List, [], ◌∷◌, ◌++◌, Option, none, some, true, map, format,
  strip_prefix, strip_suffix, starts_with, ends_with, eq_iff, ◌≡◌, ◌⊎◌, ◌↔◌, refl, arith,
}
use shaperail.Core.Json.{Json, str, obj, null, member, end}
use shaperail.Jobs.{JobPriority, high, normal}
use shaperail.Events.{
  EventTarget, job_target, webhook, channel, hook, EventSubscriber, event_matches, by_wildcard,
  find_matching_subscribers, target_name, target_payload, target_priority,
}

-- A pattern matches a name: `*` every one, a name itself, `*.suffix` those that end in `.suffix`, and
-- `stem.*`, if it does not start with `*.`, those that start with `stem.`.
abbrev pub Matches : (pattern event_name : String) → Type 0
Matches pattern event_name =
    (pattern ≡ "*")
    ⊎ ((pattern ≡ event_name)
        ⊎ (((suffix : String) × (strip_prefix "*." pattern ≡ some suffix)
              × (ends_with (format ("." ∷ suffix ∷ [])) event_name ≡ true))
            ⊎ ((stem : String) × (strip_prefix "*." pattern ≡ none)
                × (strip_suffix ".*" pattern ≡ some stem)
                × (starts_with event_name (format (stem ∷ "." ∷ [])) ≡ true))))

by_wildcard-Matches :
    (pattern event_name : String)
    → (by_wildcard pattern event_name (strip_prefix "*." pattern) ≡ true) ↔ (
        ((suffix : String) × (strip_prefix "*." pattern ≡ some suffix)
          × (ends_with (format ("." ∷ suffix ∷ [])) event_name ≡ true))
        ⊎ ((stem : String) × (strip_prefix "*." pattern ≡ none)
            × (strip_suffix ".*" pattern ≡ some stem)
            × (starts_with event_name (format (stem ∷ "." ∷ [])) ≡ true)))
by_wildcard-Matches pattern event_name =
    at (strip_prefix "*." pattern) refl (strip_suffix ".*" pattern) refl
  where
    at :
        (o : Option String)
        → strip_prefix "*." pattern ≡ o
        → (q : Option String) → strip_suffix ".*" pattern ≡ q
        → (by_wildcard pattern event_name o ≡ true) ↔ (
            ((suffix : String) × (strip_prefix "*." pattern ≡ some suffix)
              × (ends_with (format ("." ∷ suffix ∷ [])) event_name ≡ true))
            ⊎ ((stem : String) × (strip_prefix "*." pattern ≡ none)
                × (strip_suffix ".*" pattern ≡ some stem)
                × (starts_with event_name (format (stem ∷ "." ∷ [])) ≡ true)))
    at o e q f = ground (arith, e, f)

event_matches-Matches :
    (pattern event_name : String)
    → (event_matches pattern event_name ≡ true) ↔ Matches pattern event_name
unfolding event_matches
event_matches-Matches pattern event_name =
    ground
      (arith, eq_iff pattern "*", eq_iff pattern event_name, by_wildcard-Matches pattern event_name)

-- An order for a job: its priority, name and payload.
abbrev pub Order : Type 0
Order = JobPriority × String × Json

abbrev room_of : Option String → Json
room_of none = null
room_of (some room) = str room

-- The order for a target.
abbrev pub IsOrderFor : Json → EventTarget → Order → Type 0
IsOrderFor payload (job_target name) o = o ≡ (normal, name, payload)
IsOrderFor payload (webhook url) o = o ≡ (
  high,
  "shaperail:webhook_deliver",
  obj (member "url" (str url) (member "payload" payload end)),
)
IsOrderFor payload (channel name room) o = o ≡ (
  high,
  "shaperail:channel_broadcast",
  obj (member "channel" (str name) (member "room" (room_of room) (member "payload" payload end))),
)
IsOrderFor payload (hook name) o = o ≡ (
  normal,
  "shaperail:hook_execute",
  obj (member "hook" (str name) (member "payload" payload end)),
)

-- One order for each target, in turn.
abbrev pub AreOrdersOf : Json → List EventTarget → List Order → Type 0
AreOrdersOf payload [] orders = orders ≡ []
AreOrdersOf payload (t ∷ targets) [] = ⊥
AreOrdersOf payload (t ∷ targets) (o ∷ orders) =
    IsOrderFor payload t o × AreOrdersOf payload targets orders

-- The orders for the targets of each subscriber that matches, in turn, and for no other's.
abbrev pub AreOrdersFor : Json → (event_name : String) → List EventSubscriber → List Order → Type 0
AreOrdersFor payload event_name [] orders = orders ≡ []
AreOrdersFor payload event_name (s ∷ subscribers) orders =
    (Matches s.event event_name
      × ((own : List Order) × (rest : List Order) × (orders ≡ own ++ rest)
          × AreOrdersOf payload s.targets own
          × AreOrdersFor payload event_name subscribers rest))
    ⊎ ((Matches s.event event_name → ⊥) × AreOrdersFor payload event_name subscribers orders)

-- The payload of an event.
abbrev pub payload_of :
    (event_name resource action : String) → Json → (timestamp event_id : String) → Json
payload_of event_name resource action content timestamp event_id = obj (
    member "event" (str event_name) (
      member "resource" (str resource) (
        member "action" (str action) (
          member "data" content
            (member "timestamp" (str timestamp) (member "event_id" (str event_id) end))))))

abbrev pub target_order : Json → EventTarget → Order
target_order payload t = (target_priority t, target_name t, target_payload t payload)

target_order-IsOrderFor :
    (payload : Json) (t : EventTarget) → IsOrderFor payload t (target_order payload t)
target_order-IsOrderFor payload (job_target name) = refl
target_order-IsOrderFor payload (webhook url) = refl
target_order-IsOrderFor payload (channel name none) = refl
target_order-IsOrderFor payload (channel name (some room)) = refl
target_order-IsOrderFor payload (hook name) = refl

target_orders-AreOrdersOf :
    (payload : Json) (targets : List EventTarget)
    → AreOrdersOf payload targets (map (target_order payload) targets)
target_orders-AreOrdersOf payload [] = refl
target_orders-AreOrdersOf payload (t ∷ targets) =
    (target_order-IsOrderFor payload t, target_orders-AreOrdersOf payload targets)

-- The orders for the targets of subscribers, in turn.
abbrev pub orders_for : Json → List EventSubscriber → List Order
orders_for payload [] = []
orders_for payload (s ∷ subscribers) =
    map (target_order payload) s.targets ++ orders_for payload subscribers

pub orders_for-AreOrdersFor :
    (payload : Json) (event_name : String) (subscribers : List EventSubscriber)
    → AreOrdersFor payload event_name subscribers
        (orders_for payload (find_matching_subscribers subscribers event_name))
orders_for-AreOrdersFor payload event_name [] = refl
orders_for-AreOrdersFor payload event_name (s ∷ subscribers) =
    let rest = orders_for-AreOrdersFor payload event_name subscribers in
    let (to, back) = event_matches-Matches s.event event_name in
    elim (Bool-cases (event_matches s.event event_name)) [
      | inl e ↦ inl (
        to e,
        (
          map (target_order payload) s.targets,
          orders_for payload (find_matching_subscribers subscribers event_name),
          rw e refl,
          target_orders-AreOrdersOf payload s.targets,
          rest,
        ),
      )
      | inr e ↦ inr ((λ m. ground (arith, e, back m)), rw e rest)
    ]
