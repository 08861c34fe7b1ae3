-- ===== src/Jobs/Order.antt =====
-- A poll takes the oldest job of the highest priority.
use shaperail.Prelude.{format, String, List, [], ◌∷◌, ◌++◌, true, false, ◌≡◌, refl}
use shaperail.Core.Error.{ok, err, internal}
use shaperail.Jobs.{
  Entry, job, unreadable, JobPriority, critical, high, normal, low, JobEnvelope, Execution, World,
  set_queue,
}
use shaperail.Jobs.Worker.{process_job, poll_once}
use shaperail.Jobs.Count.{calm}

abbrev pub in_order : (JobPriority → List Entry) → List Entry
in_order queues = queues critical ++ (queues high ++ (queues normal ++ queues low))

module _ (registry : List String)
    (execute : List (JobEnvelope × Execution) → JobEnvelope → Execution) where
  -- What a poll does with all that waits, the most urgent first.
  abbrev pub Polls : List Entry → World → Type 0
  Polls [] w = (poll_once registry execute (calm w)).0 ≡ ok false
  Polls (job envelope ∷ rest) w =
      (left : JobPriority → List Entry) × (in_order left ≡ rest)
      × (poll_once registry execute (calm w) ≡ (
        ok true,
        (process_job registry execute envelope (calm (record w { queues = left }))).1,
      ))
  Polls (unreadable e ∷ rest) w =
      (left : JobPriority → List Entry) × (in_order left ≡ rest)
      × (poll_once registry execute (calm w) ≡ (
        err (internal (format ("Failed to deserialize job: " ∷ e ∷ []))),
        calm (record w { queues = left }),
      ))

  poll_lists :
      (w : World) (c h n l : List Entry)
      → w.queues critical ≡ c
      → w.queues high ≡ h
      → w.queues normal ≡ n
      → w.queues low ≡ l
      → Polls (c ++ (h ++ (n ++ l))) w
  unfolding poll_once
  poll_lists w (job e ∷ c) h n l p q r s =
      (set_queue critical c (w.queues), rw (q, r, s) refl, rw (p) refl)
  poll_lists w (unreadable e ∷ c) h n l p q r s =
      (set_queue critical c (w.queues), rw (q, r, s) refl, rw (p) refl)
  poll_lists w [] (job e ∷ h) n l p q r s =
      (set_queue high h (set_queue critical [] (w.queues)), rw (r, s) refl, rw (p, q) refl)
  poll_lists w [] (unreadable e ∷ h) n l p q r s =
      (set_queue high h (set_queue critical [] (w.queues)), rw (r, s) refl, rw (p, q) refl)
  poll_lists w [] [] (job e ∷ n) l p q r s = (
    set_queue normal n (set_queue high [] (set_queue critical [] (w.queues))),
    rw (s) refl,
    rw (p, q, r) refl,
  )
  poll_lists w [] [] (unreadable e ∷ n) l p q r s = (
    set_queue normal n (set_queue high [] (set_queue critical [] (w.queues))),
    rw (s) refl,
    rw (p, q, r) refl,
  )
  poll_lists w [] [] [] (job e ∷ l) p q r s = (
    set_queue low l (set_queue normal [] (set_queue high [] (set_queue critical [] (w.queues)))),
    refl,
    rw (p, q, r, s) refl,
  )
  poll_lists w [] [] [] (unreadable e ∷ l) p q r s = (
    set_queue low l (set_queue normal [] (set_queue high [] (set_queue critical [] (w.queues)))),
    refl,
    rw (p, q, r, s) refl,
  )
  poll_lists w [] [] [] [] p q r s = rw (p, q, r, s) refl

  -- While Redis answers, a poll handles the first entry of the lists in the order of the priorities and takes it off, whatever
  -- the entries behind it: a job is processed, a text that is none is an error, and where nothing
  -- waits nothing is done.
  pub poll_once-Polls : (w : World) → Polls (in_order w.queues) w
  poll_once-Polls w =
      poll_lists w (w.queues critical) (w.queues high) (w.queues normal) (w.queues low) refl refl
        refl refl
