-- ===== src/Events.antt =====
-- shaperail-runtime/src/events/emitter.rs: an event as jobs, one for the log and one for each target of the
-- subscribers that match. The time is the clock of the queue's world, and ids are made by `fresh`.
pub mod Ordered
pub mod Emitted
pub mod Webhooks
mod Examples
use shaperail.Prelude.{
  String, List, [], ◌∷◌, ◌++◌, Option, none, some, Bool, true, false, ◌==◌, if◌then◌else◌, format,
  strip_prefix, strip_suffix, starts_with, ends_with, keep,
}
use shaperail.Core.Json.{Json, null, str, obj, member, end}
use shaperail.Jobs.{World, M, ◌>>=◌, ◌>>◌, pure, JobPriority, high, normal, enqueue}

-- shaperail-core/src/config.rs.
pub data EventTarget : Type 0 where
  job_target : (name : String) → EventTarget
  webhook : (url : String) → EventTarget
  channel : (name : String) (room : Option String) → EventTarget
  hook : (name : String) → EventTarget

pub record EventSubscriber : Type 0 where
  pub event : String
  pub targets : List EventTarget

pub record EventPayload : Type 0 where
  pub event : String
  pub resource : String
  pub action : String
  pub content : Json
  pub timestamp : String
  pub event_id : String

-- A pattern that is neither `*` nor the name itself, by its wildcard.
abbrev pub by_suffix : String → Option String → Bool
by_suffix event_name none = false
by_suffix event_name (some stem) = starts_with event_name (format (stem ∷ "." ∷ []))

abbrev pub by_wildcard : String → String → Option String → Bool
by_wildcard pattern event_name (some suffix) = ends_with (format ("." ∷ suffix ∷ [])) event_name
by_wildcard pattern event_name none = by_suffix event_name (strip_suffix ".*" pattern)

unfoldable pub event_matches : String → String → Bool
event_matches pattern event_name =
    if pattern == "*"
    then true
    else if pattern == event_name
    then true
    else by_wildcard pattern event_name (strip_prefix "*." pattern)

abbrev pub find_matching_subscribers : List EventSubscriber → String → List EventSubscriber
find_matching_subscribers subscribers event_name =
    keep (λ s. event_matches s.event event_name) subscribers

abbrev pub to_value : EventPayload → Json
to_value p = obj (
    member "event" (str p.event) (
      member "resource" (str p.resource) (
        member "action" (str p.action) (
          member "data" p.content
            (member "timestamp" (str p.timestamp) (member "event_id" (str p.event_id) end))))))

abbrev pub room_value : Option String → Json
room_value none = null
room_value (some room) = str room

-- The name, payload and priority of the job for a target.
abbrev pub target_name : EventTarget → String
target_name (job_target name) = name
target_name (webhook url) = "shaperail:webhook_deliver"
target_name (channel name room) = "shaperail:channel_broadcast"
target_name (hook name) = "shaperail:hook_execute"

abbrev pub target_payload : EventTarget → Json → Json
target_payload (job_target name) payload = payload
target_payload (webhook url) payload = obj (member "url" (str url) (member "payload" payload end))
target_payload (channel name room) payload =
    obj
      (member "channel" (str name) (member "room" (room_value room) (member "payload" payload end)))
target_payload (hook name) payload = obj (member "hook" (str name) (member "payload" payload end))

abbrev pub target_priority : EventTarget → JobPriority
target_priority (job_target name) = normal
target_priority (webhook url) = high
target_priority (channel name room) = high
target_priority (hook name) = normal

module _ (fresh : World → String) where
  abbrev pub enqueue_fresh : String → Json → JobPriority → M String
  enqueue_fresh name payload priority w = enqueue (fresh w) name payload priority w

  abbrev pub dispatch_to_target : Json → EventTarget → M (Unit {0})
  dispatch_to_target payload target = do
    _ ← enqueue_fresh (target_name target) (target_payload target payload) (target_priority target)
    pure tt

  unfoldable pub dispatch_all : Json → List EventTarget → M (Unit {0})
  dispatch_all payload [] = pure tt
  dispatch_all payload (target ∷ targets) = do
    dispatch_to_target payload target
    dispatch_all payload targets

  unfoldable pub notify_all : Json → List EventSubscriber → M (Unit {0})
  unfolding dispatch_all
  notify_all payload [] = pure tt
  notify_all payload (subscriber ∷ subscribers) = do
    dispatch_all payload subscriber.targets
    notify_all payload subscribers

  abbrev pub event_payload : String → String → String → Json → World → EventPayload
  event_payload event_name resource action content w = record {
    event = event_name;
    resource = resource;
    action = action;
    content = content;
    timestamp = w.clock;
    event_id = fresh w;
  }

  unfoldable pub emit : List EventSubscriber → String → String → String → Json → M String
  unfolding notify_all
  emit subscribers event_name resource action content w =
      let payload = event_payload event_name resource action content w in
      (do
        _ ← enqueue_fresh "shaperail:event_log" (to_value payload) normal
        notify_all (to_value payload) (find_matching_subscribers subscribers event_name)
        pure payload.event_id)
        w
