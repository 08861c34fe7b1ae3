-- ===== src/Jobs/Count.antt =====
-- Where the jobs are, and that each operation of the queue and the worker keeps their number.
use shaperail.Prelude.{
  ℕ, ◌+◌, String, List, [], ◌∷◌, ◌++◌, none, Bool, true, false, if◌then◌else◌, ◌==◌, contains, ltb,
  Bool-cases, ◌≡◌, inl, inr, refl, ap, arith,
}
use shaperail.Core.Json.{Json}
use shaperail.Core.Error.{Result}
use shaperail.Jobs.{
  Entry, job, unreadable, JobPriority, running, critical, high, normal, low, JobEnvelope, DeadEntry,
  Execution, succeeded, failed_with, timed_out, World, set_queue, enqueue_with_options,
  update_status, move_to_dead_letter, requeue_for_retry,
}
use shaperail.Jobs.Worker.{dequeue, handle_failure, conclude, handled, process_job, poll_queues}

abbrev pub tally : {A : Type 0} → (A → Bool) → List A → ℕ
tally p [] = 0
tally p (x ∷ xs) = (if p x then 1 else 0) + tally p xs

tally-append :
    {A : Type 0} (p : A → Bool) (xs ys : List A) → tally p (xs ++ ys) ≡ tally p xs + tally p ys
tally-append p [] ys = omega arith
tally-append p (x ∷ xs) ys = omega (arith, tally-append p xs ys)

-- A world in which no use of Redis fails.
abbrev pub calm : World → World
calm w = record w { faults = [] }

module _ (id : String) where
  abbrev pub is_job : JobEnvelope → Bool
  is_job envelope = envelope.id == id

  abbrev pub is_entry : Entry → Bool
  is_entry (job envelope) = is_job envelope
  is_entry (unreadable e) = false

  abbrev pub is_dead : DeadEntry → Bool
  is_dead entry = entry.id == id

  -- A run that succeeded: the job is done.
  abbrev pub is_done : JobEnvelope × Execution → Bool
  is_done (envelope, succeeded) = is_job envelope
  is_done (envelope, failed_with e) = false
  is_done (envelope, timed_out) = false

  abbrev pub queued : World → ℕ
  queued w =
      tally is_entry (w.queues critical)
      + tally is_entry (w.queues high)
      + tally is_entry (w.queues normal)
      + tally is_entry (w.queues low)

  -- Where the jobs of that id are: in a queue, waiting for a retry, dead, or done.
  abbrev pub copies : World → ℕ
  copies w = queued w + tally is_job w.sleeping + tally is_dead w.dead + tally is_done w.executed

  abbrev pub one : JobEnvelope → ℕ
  one envelope = if is_job envelope then 1 else 0

  handle_failure-copies :
      (envelope : JobEnvelope) (error : String) (w : World)
      → (copies (handle_failure envelope error (calm w)).1 ≡ copies w + one envelope)
        × ((handle_failure envelope error (calm w)).1.faults ≡ [])
  unfolding handle_failure move_to_dead_letter update_status
  handle_failure-copies envelope error w =
      elim (Bool-cases (ltb (envelope.attempt + 1) envelope.max_retries)) [
        | inl again ↦ rw again (omega (arith, tally-append is_job w.sleeping (envelope ∷ [])), refl)
        | inr dies ↦ rw dies (omega (arith, tally-append is_dead w.dead (_ ∷ [])), refl)
      ]

  -- A list of a priority replaced.
  abbrev with_queue : JobPriority → List Entry → World → World
  with_queue priority q w = record w { queues = set_queue priority q w.queues }

  queued-with_queue :
      (priority : JobPriority) (q : List Entry) (w : World)
      → queued (with_queue priority q w) + tally is_entry (w.queues priority)
        ≡ queued w + tally is_entry q
  queued-with_queue critical q w = omega arith
  queued-with_queue high q w = omega arith
  queued-with_queue normal q w = omega arith
  queued-with_queue low q w = omega arith

  -- What an operation leaves: so many copies more, and Redis still well.
  abbrev pub Leaves : {A : Type 0} → ℕ → Result A × World → Type 0
  Leaves n r = (copies r.1 ≡ n) × (r.1.faults ≡ [])

  module _ (registry : List String)
      (execute : List (JobEnvelope × Execution) → JobEnvelope → Execution) where
    abbrev undone : JobEnvelope → Execution → ℕ
    undone envelope succeeded = 0
    undone envelope (failed_with e) = one envelope
    undone envelope timed_out = one envelope

    conclude-copies :
        (envelope : JobEnvelope) (execution : Execution) (w : World)
        → Leaves
            (copies w + undone envelope execution)
            (conclude registry execute envelope execution (calm w))
    unfolding update_status
    conclude-copies envelope succeeded w = (omega arith, refl)
    conclude-copies envelope (failed_with e) w = handle_failure-copies envelope e w
    conclude-copies envelope timed_out w = handle_failure-copies envelope _ w

    once :
        (envelope : JobEnvelope) (execution : Execution)
        → tally is_done ((envelope, execution) ∷ []) + undone envelope execution ≡ one envelope
    once envelope succeeded = omega arith
    once envelope (failed_with e) = omega arith
    once envelope timed_out = omega arith

    handled-copies :
        (envelope : JobEnvelope) (known : Bool) (w : World)
        → Leaves (copies w + one envelope) (handled registry execute envelope known (calm w))
    handled-copies envelope false w = handle_failure-copies envelope _ w
    handled-copies envelope true w =
        let execution = execute w.executed envelope in
        let (counted, well) =
          conclude-copies envelope execution
            (record w { executed = w.executed ++ (envelope, execution) ∷ [] }) in
        (
          omega (
            arith,
            counted,
            once envelope execution,
            tally-append is_done w.executed ((envelope, execution) ∷ []),
          ),
          well,
        )

    process_job-copies :
        (envelope : JobEnvelope) (w : World)
        → Leaves (copies w + one envelope) (process_job registry execute envelope (calm w))
    unfolding process_job update_status
    process_job-copies envelope w =
        handled-copies envelope (contains registry envelope.name)
          (update_status envelope.id running (envelope.attempt + 1) none (calm w)).1

    -- A poll of a list with that content, before the polls of the others.
    poll_popped-copies :
        (priority : JobPriority) (more : List JobPriority) (q : List Entry) (w : World)
        → w.queues priority ≡ q
        → ((u : World) → Leaves (copies u) (poll_queues registry execute more (calm u)))
        → Leaves (copies w) (poll_queues registry execute (priority ∷ more) (calm w))
    unfolding poll_queues dequeue
    poll_popped-copies priority more [] w e h =
        let (counted, well) = h (with_queue priority [] w) in
        rw e (omega (arith, counted, queued-with_queue priority [] w, ap (tally is_entry) e), well)
    poll_popped-copies priority more (unreadable x ∷ q) w e h =
        rw e (omega (arith, queued-with_queue priority q w, ap (tally is_entry) e), refl)
    poll_popped-copies priority more (job envelope ∷ q) w e h =
        let (counted, well) = process_job-copies envelope (with_queue priority q w) in
        rw e (omega (arith, counted, queued-with_queue priority q w, ap (tally is_entry) e), well)

    pub poll_queues-copies :
        (priorities : List JobPriority) (w : World)
        → Leaves (copies w) (poll_queues registry execute priorities (calm w))
    unfolding poll_queues
    poll_queues-copies [] w = (refl, refl)
    poll_queues-copies (priority ∷ more) w =
        poll_popped-copies priority more (w.queues priority) w refl (poll_queues-copies more)

    -- A job pushed to its list.
    pushed-copies :
        (envelope : JobEnvelope) (w : World)
        → queued (with_queue envelope.priority (w.queues envelope.priority ++ job envelope ∷ []) w)
          ≡ queued w + one envelope
    pushed-copies envelope w = omega (
      arith,
      queued-with_queue envelope.priority (w.queues envelope.priority ++ job envelope ∷ []) w,
      tally-append is_entry (w.queues envelope.priority) (job envelope ∷ []),
    )

    pub requeue_for_retry-copies :
        (envelope : JobEnvelope) (w : World)
        → Leaves (copies w + one envelope) (requeue_for_retry envelope (calm w))
    unfolding requeue_for_retry update_status
    requeue_for_retry-copies envelope w =
        (omega (arith, pushed-copies (record envelope { attempt = envelope.attempt + 1 }) w), refl)

    pub enqueue-copies :
        (new name : String) (payload : Json) (priority : JobPriority) (max_retries timeout_secs : ℕ)
        (w : World)
        → Leaves
            (copies w + (if new == id then 1 else 0))
            (enqueue_with_options new name payload priority max_retries timeout_secs (calm w))
    unfolding enqueue_with_options
    enqueue-copies new name payload priority max_retries timeout_secs w =
        let envelope : JobEnvelope = record {
          id = new;
          name = name;
          payload = payload;
          priority = priority;
          max_retries = max_retries;
          timeout_secs = timeout_secs;
          attempt = 0;
        } in
        (omega (arith, pushed-copies envelope w), refl)
