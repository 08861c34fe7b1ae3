-- ===== src/Jobs/Events.antt =====
-- No job is lost or doubled, whatever happens in whatever order: each stays in one place, from the queue to
-- its end.
use shaperail.Prelude.{
  get_elem?, subst, ℕ, zero, suc, ◌+◌, String, List, [], ◌∷◌, Option, none, some, Bool, false,
  if◌then◌else◌, ◌==◌, ◌≡◌, refl, ap, sym, arith,
}
use shaperail.Core.Json.{Json}
use shaperail.Jobs.{
  all, JobPriority, JobEnvelope, Execution, World, enqueue_with_options, requeue_for_retry,
}
use shaperail.Jobs.Worker.{poll_once}
use shaperail.Jobs.Count.{
  tally, is_job, copies, calm, poll_queues-copies, requeue_for_retry-copies, enqueue-copies,
}

-- What can happen to the jobs, in any order: one is enqueued, the worker polls, a retry's backoff ends,
-- time passes.
pub data Event : Type 0 where
  enqueued : (id name : String) → Json → JobPriority → (max_retries timeout_secs : ℕ) → Event
  polled : Event
  woken : ℕ → Event
  ticked : String → Event

abbrev remove_at : {A : Type 0} → List A → ℕ → List A
remove_at [] i = []
remove_at (x ∷ xs) zero = xs
remove_at (x ∷ xs) (suc i) = x ∷ remove_at xs i

tally-remove_at :
    {A : Type 0} (p : A → Bool) (xs : List A) (i : ℕ) (x : A)
    → get_elem? xs i ≡ some x
    → tally p (remove_at xs i) + (if p x then 1 else 0) ≡ tally p xs
tally-remove_at p [] i x e = cc
tally-remove_at p (y ∷ xs) zero x e = ground arith
tally-remove_at p (y ∷ xs) (suc i) x e = omega (arith, tally-remove_at p xs i x e)

module _ (registry : List String)
    (execute : List (JobEnvelope × Execution) → JobEnvelope → Execution) where
  abbrev pub wake : Option JobEnvelope → ℕ → World → World
  wake none i w = w
  wake (some envelope) i w =
      (requeue_for_retry envelope (record w { sleeping = remove_at w.sleeping i })).1

  abbrev pub step : Event → World → World
  step (enqueued id name payload priority max_retries timeout_secs) w =
      (enqueue_with_options id name payload priority max_retries timeout_secs w).1
  step polled w = (poll_once registry execute w).1
  step (woken i) w = wake (get_elem? w.sleeping i) i w
  step (ticked now) w = record w { clock = now }

  abbrev pub run : List Event → World → World
  run [] w = w
  run (e ∷ events) w = run events (step e w)

  abbrev is_enqueue : String → Event → Bool
  is_enqueue id (enqueued new name payload priority max_retries timeout_secs) = new == id
  is_enqueue id polled = false
  is_enqueue id (woken i) = false
  is_enqueue id (ticked now) = false

  abbrev pub enqueues : String → List Event → ℕ
  enqueues id events = tally (is_enqueue id) events

  wake-copies :
      (id : String) (found : Option JobEnvelope) (i : ℕ) (w : World)
      → get_elem? w.sleeping i ≡ found
      → (copies id (wake found i (calm w)) ≡ copies id w) × ((wake found i (calm w)).faults ≡ [])
  wake-copies id none i w e = (refl, refl)
  wake-copies id (some envelope) i w e =
      let (counted, well) =
        requeue_for_retry-copies id registry execute envelope
          (record w { sleeping = remove_at w.sleeping i }) in
      (omega (arith, counted, tally-remove_at (is_job id) w.sleeping i envelope e), well)

  step-copies :
      (id : String) (e : Event) (w : World)
      → (copies id (step e (calm w)) ≡ copies id w + (if is_enqueue id e then 1 else 0))
        × ((step e (calm w)).faults ≡ [])
  unfolding poll_once
  step-copies id (enqueued new name payload priority max_retries timeout_secs) w =
      enqueue-copies id registry execute new name payload priority max_retries timeout_secs w
  step-copies id polled w =
      let (counted, well) = poll_queues-copies id registry execute all w in
      (omega (arith, counted), well)
  step-copies id (woken i) w =
      let (counted, well) = wake-copies id (get_elem? w.sleeping i) i w refl in
      (omega (arith, counted), well)
  step-copies id (ticked now) w = (omega arith, refl)

  run-calm-copies :
      (id : String) (events : List Event) (w : World)
      → copies id (run events (calm w)) ≡ copies id w + enqueues id events
  run-calm-copies id [] w = omega arith
  run-calm-copies id (e ∷ events) w =
      let (counted, well) = step-copies id e w in
      subst (λ u. copies id (run events u) ≡ copies id w + enqueues id (e ∷ events))
        (ap (λ faults. record (step e (calm w)) { faults = faults }) (sym well))
        (omega (arith, counted, run-calm-copies id events (step e (calm w))))

  -- While Redis answers, whatever happens in whatever order, a job is in as many places as it was
  -- enqueued: in one of the four queues, waiting for a retry, in the dead letter list, or done by a
  -- run of its handler that succeeded.
  pub run-copies :
      (id : String) (events : List Event) (w : World)
      → w.faults ≡ []
      → copies id (run events w) ≡ copies id w + enqueues id events
  run-copies id events w well =
      subst (λ u. copies id (run events u) ≡ copies id u + enqueues id events)
        (ap (λ faults. record w { faults = faults }) (sym well)) (run-calm-copies id events w)
