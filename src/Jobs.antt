-- ===== src/Jobs.antt =====
-- shaperail-runtime/src/jobs/queue.rs: the priorities, statuses and envelopes of jobs, and the queue's
-- operations on Redis: four lists of jobs, a list of dead ones, and a hash for each job.
pub mod Worker
pub mod Order
pub mod Count
pub mod Events
pub mod Retry
mod Examples
use shaperail.Prelude.{
  ℕ, zero, suc, ◌+◌, ◌-◌, ◌^◌, String, List, [], ◌∷◌, ◌++◌, Option, none, some, Bool, true, false,
  if◌then◌else◌, unwrap_or, and_then, lookup, insert, is_empty, format, decimal, length,
  digits_value,
}
use shaperail.Prelude.Int.{in_range}
use shaperail.Core.Json.{Json}
use shaperail.Core.Error.{Result, ok, err, ShaperailError, internal, not_found}
use shaperail.Prelude.{strip_prefix, ◌==◌}

pub data JobPriority : Type 0 where
  critical high normal low : JobPriority

abbrev pub all : List JobPriority
all = critical ∷ high ∷ normal ∷ low ∷ []

abbrev pub queue_key : JobPriority → String
queue_key critical = "shaperail:jobs:queue:critical"
queue_key high = "shaperail:jobs:queue:high"
queue_key normal = "shaperail:jobs:queue:normal"
queue_key low = "shaperail:jobs:queue:low"

pub data JobStatus : Type 0 where
  pending running completed failed : JobStatus

abbrev pub status_text : JobStatus → String
status_text pending = "pending"
status_text running = "running"
status_text completed = "completed"
status_text failed = "failed"

pub record JobEnvelope : Type 0 where
  pub id : String
  pub name : String
  pub payload : Json
  pub priority : JobPriority
  pub max_retries : ℕ
  pub timeout_secs : ℕ
  pub attempt : ℕ

pub record JobInfo : Type 0 where
  pub id : String
  pub name : String
  pub status : JobStatus
  pub attempt : ℕ
  pub max_retries : ℕ
  pub error : Option String
  pub created_at : String
  pub updated_at : String

pub record DeadEntry : Type 0 where
  pub id : String
  pub name : String
  pub payload : Json
  pub error : String
  pub attempts : ℕ
  pub failed_at : String

-- How a handler's run on a payload ends.
pub data Execution : Type 0 where
  succeeded : Execution
  failed_with : String → Execution
  timed_out : Execution

-- An entry of a list: an envelope, or a text that serde cannot read, with serde's error.
pub data Entry : Type 0 where
  job : JobEnvelope → Entry
  unreadable : String → Entry

-- `sleeping` are the retries that wait for
-- their backoff, `executed` the runs of handlers, `clock` the current time as a text, and `faults`
-- what the next uses of Redis meet (a list that has ended means no more failures).
pub record World : Type 0 where
  pub queues : JobPriority → List Entry
  pub dead : List DeadEntry
  pub meta : List (String × List (String × String))
  pub sleeping : List JobEnvelope
  pub executed : List (JobEnvelope × Execution)
  pub clock : String
  pub faults : List (Option String)

abbrev pub M : Type 0 → Type 0
M A = World → Result A × World

abbrev continue : {A B : Type 0} → Result A × World → (A → M B) → Result B × World
continue (ok a, w) next = next a w
continue (err e, w) next = (err e, w)

infixl 5 ◌>>=◌ ◌>>◌
abbrev pub ◌>>=◌ : {A B : Type 0} → M A → (A → M B) → M B
◌>>=◌ m next w = continue (m w) next

abbrev pub ◌>>◌ : {A B : Type 0} → M A → M B → M B
m >> next = m >>= λ _. next

abbrev pub pure : {A : Type 0} → A → M A
pure a w = (ok a, w)

-- `let _ = …`: the error is dropped.
abbrev pub ignore : {A : Type 0} → M A → M (Unit {0})
ignore m w = (ok tt, (m w).1)

abbrev meet : String → List (Option String) → M (Unit {0})
meet what [] w = (ok tt, w)
meet what (none ∷ faults) w = (ok tt, record w { faults = faults })
meet what (some e ∷ faults) w =
    (err (internal (format (what ∷ ": " ∷ e ∷ []))), record w { faults = faults })

-- A connection or a command, with the words that its error starts with.
abbrev pub redis : String → M (Unit {0})
redis what w = meet what w.faults w

abbrev pub connect : M (Unit {0})
connect = redis "Redis connection failed"

abbrev pub change : (World → World) → M (Unit {0})
change f w = (ok tt, f w)

abbrev pub set_queue :
    JobPriority → List Entry → (JobPriority → List Entry) → JobPriority → List Entry
set_queue critical q qs critical = q
set_queue critical q qs high = qs high
set_queue critical q qs normal = qs normal
set_queue critical q qs low = qs low
set_queue high q qs critical = qs critical
set_queue high q qs high = q
set_queue high q qs normal = qs normal
set_queue high q qs low = qs low
set_queue normal q qs critical = qs critical
set_queue normal q qs high = qs high
set_queue normal q qs normal = q
set_queue normal q qs low = qs low
set_queue low q qs critical = qs critical
set_queue low q qs high = qs high
set_queue low q qs normal = qs normal
set_queue low q qs low = q

-- RPUSH to the list of a priority.
abbrev push : JobEnvelope → World → World
push envelope w = record w {
  queues = set_queue envelope.priority (w.queues envelope.priority ++ job envelope ∷ []) w.queues;
}

-- HSET: pairs of a field and a value into the hash of a job.
abbrev set_fields : List (String × String) → List (String × String) → List (String × String)
set_fields [] hash = hash
set_fields ((field, value) ∷ more) hash = set_fields more (insert field value hash)

abbrev meta_key : String → String
meta_key id = format ("shaperail:jobs:meta:" ∷ id ∷ [])

abbrev hset : String → List (String × String) → World → World
hset key pairs w = record w {
  meta = insert key (set_fields pairs (unwrap_or (lookup key w.meta) [])) w.meta;
}

abbrev new_envelope : String → String → Json → JobPriority → ℕ → ℕ → JobEnvelope
new_envelope id name payload priority max_retries timeout_secs = record {
  id = id;
  name = name;
  payload = payload;
  priority = priority;
  max_retries = max_retries;
  timeout_secs = timeout_secs;
  attempt = 0;
}

-- The `uuid` crate makes the id. The error of EXPIRE is dropped.
unfoldable pub enqueue_with_options : String → String → Json → JobPriority → ℕ → ℕ → M String
enqueue_with_options id name payload priority max_retries timeout_secs = do
  connect
  redis "Failed to store job metadata"
  change λ w.
      hset (meta_key id)
        (("id", id)
          ∷ ("name", name)
          ∷ ("status", status_text pending)
          ∷ ("attempt", "0")
          ∷ ("max_retries", decimal max_retries)
          ∷ ("created_at", w.clock)
          ∷ ("updated_at", w.clock)
          ∷ [])
        w
  ignore (redis "")
  redis "Failed to enqueue job"
  change (push (new_envelope id name payload priority max_retries timeout_secs))
  pure id

unfoldable pub enqueue : String → String → Json → JobPriority → M String
unfolding enqueue_with_options
enqueue id name payload priority = enqueue_with_options id name payload priority 3 300

abbrev error_field : Option String → List (String × String)
error_field none = []
error_field (some e) = ("error", e) ∷ []

unfoldable pub update_status : String → JobStatus → ℕ → Option String → M (Unit {0})
update_status job_id status attempt error = do
  connect
  redis "Failed to update job status"
  change λ w.
      hset (meta_key job_id)
        (("status", status_text status)
          ∷ ("attempt", decimal attempt)
          ∷ ("updated_at", w.clock)
          ∷ error_field error)
        w

abbrev dead_entry : JobEnvelope → String → String → DeadEntry
dead_entry envelope error failed_at = record {
  id = envelope.id;
  name = envelope.name;
  payload = envelope.payload;
  error = error;
  attempts = envelope.attempt;
  failed_at = failed_at;
}

unfoldable pub move_to_dead_letter : JobEnvelope → String → M (Unit {0})
unfolding update_status
move_to_dead_letter envelope error = do
  connect
  redis "Failed to push to dead letter queue"
  change λ w. record w { dead = w.dead ++ dead_entry envelope error w.clock ∷ [] }
  update_status envelope.id failed envelope.attempt (some error)

abbrev pub retried : JobEnvelope → JobEnvelope
retried envelope = record envelope { attempt = envelope.attempt + 1 }

unfoldable pub requeue_for_retry : JobEnvelope → M (Unit {0})
unfolding update_status
requeue_for_retry envelope = do
  connect
  redis "Failed to requeue job"
  change (push (retried envelope))
  update_status envelope.id pending (envelope.attempt + 1) none

-- `str::parse::<u32>`: an optional plus sign, digits, and a value that 32 bits hold.
abbrev parse_u32 : String → Option ℕ
parse_u32 s = and_then (digits_value (unwrap_or (strip_prefix "+" s) s)) (in_range (2 ^ 32 - 1))

abbrev status_of : Option String → JobStatus
status_of none = pending
status_of (some s) =
    if s == "running"
    then running
    else if s == "completed"
    then completed
    else if s == "failed"
    then failed
    else pending

abbrev read_info : List (String × String) → JobInfo
read_info hash = record {
  id = unwrap_or (lookup "id" hash) "";
  name = unwrap_or (lookup "name" hash) "";
  status = status_of (lookup "status" hash);
  attempt = unwrap_or (and_then (lookup "attempt" hash) parse_u32) 0;
  max_retries = unwrap_or (and_then (lookup "max_retries" hash) parse_u32) 3;
  error = lookup "error" hash;
  created_at = unwrap_or (lookup "created_at" hash) "";
  updated_at = unwrap_or (lookup "updated_at" hash) "";
}

abbrev info_of : List (String × String) → Result JobInfo
info_of [] = err not_found
info_of (pair ∷ hash) = ok (read_info (pair ∷ hash))

unfoldable pub get_status : String → M JobInfo
get_status job_id = do
  connect
  redis "Failed to get job status"
  λ w. (info_of (unwrap_or (lookup (meta_key job_id) w.meta) []), w)

total_from : List JobPriority → ℕ → M ℕ
total_from [] total = pure total
total_from (priority ∷ more) total = do
  redis "Failed to inspect job queue depth"
  λ w. total_from more (total + length (w.queues priority)) w

-- The sum is an `i64` in the source.
unfoldable pub total_depth : M ℕ
unfolding total_from
total_depth = do connect; total_from all 0
