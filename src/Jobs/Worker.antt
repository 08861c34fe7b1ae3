-- ===== src/Jobs/Worker.antt =====
-- shaperail-runtime/src/jobs/worker.rs: what the worker does with the queues.
use shaperail.Prelude.{
  ◌+◌, String, List, [], ◌∷◌, ◌++◌, Option, none, some, Bool, true, false, if◌then◌else◌, contains,
  format, decimal, ltb,
}
use shaperail.Core.Error.{Result, ok, err, internal}
use shaperail.Jobs.{
  Entry, job, unreadable, JobPriority, all, running, completed, JobEnvelope, Execution, succeeded,
  failed_with, timed_out, M, ◌>>=◌, ◌>>◌, pure, ignore, redis, connect, change, set_queue,
  update_status, move_to_dead_letter,
}

-- What LPOP of a list gives, and what it leaves.
abbrev pub popped : List Entry → Result (Option JobEnvelope)
popped [] = ok none
popped (unreadable e ∷ q) = err (internal (format ("Failed to deserialize job: " ∷ e ∷ [])))
popped (job envelope ∷ q) = ok (some envelope)

abbrev pub tail : {A : Type 0} → List A → List A
tail [] = []
tail (x ∷ q) = q

unfoldable pub dequeue : JobPriority → M (Option JobEnvelope)
dequeue priority = do
  connect
  redis "Failed to dequeue job"
  λ w. (
    popped (w.queues priority),
    record w { queues = set_queue priority (tail (w.queues priority)) w.queues },
  )

-- The retry is spawned: it sleeps, and then requeues the job.
unfoldable pub handle_failure : JobEnvelope → String → M (Unit {0})
unfolding move_to_dead_letter
handle_failure envelope error =
    if ltb (envelope.attempt + 1) envelope.max_retries
    then change (λ w. record w { sleeping = w.sleeping ++ envelope ∷ [] })
    else move_to_dead_letter envelope error

-- The names of the registered jobs, and how a handler ends, after the runs before it.
module _ (registry : List String)
    (execute : List (JobEnvelope × Execution) → JobEnvelope → Execution) where
  abbrev run_handler : JobEnvelope → M Execution
  run_handler envelope w =
      let execution = execute w.executed envelope in
      (ok execution, record w { executed = w.executed ++ (envelope, execution) ∷ [] })

  abbrev pub conclude : JobEnvelope → Execution → M (Unit {0})
  conclude envelope succeeded =
      ignore (update_status envelope.id completed (envelope.attempt + 1) none)
  conclude envelope (failed_with e) = ignore (handle_failure envelope e)
  conclude envelope timed_out = ignore (
      handle_failure envelope
        (format ("Job timed out after " ∷ decimal envelope.timeout_secs ∷ "s" ∷ [])))

  abbrev pub handled : JobEnvelope → Bool → M (Unit {0})
  handled envelope true = run_handler envelope >>= conclude envelope
  handled envelope false =
      ignore
        (handle_failure envelope (format ("No handler registered for job: " ∷ envelope.name ∷ [])))

  unfoldable pub process_job : JobEnvelope → M (Unit {0})
  unfolding update_status handle_failure
  process_job envelope = ignore (
      update_status envelope.id running (envelope.attempt + 1) none
      >> handled envelope (contains registry envelope.name))

  -- The loop of `poll_once`.
  unfoldable pub poll_queues : List JobPriority → M Bool
  unfolding dequeue process_job
  poll_queues [] = pure false
  poll_queues (priority ∷ more) = dequeue priority >>= λ popped. elim popped [
    | none ↦ poll_queues more
    | some envelope ↦ process_job envelope >> pure true
  ]

  unfoldable pub poll_once : M Bool
  unfolding poll_queues
  poll_once = poll_queues all
