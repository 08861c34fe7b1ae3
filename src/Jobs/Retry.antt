-- ===== src/Jobs/Retry.antt =====
-- A job whose handler fails every time is run as often as it may be, and then is dead.
use shaperail.Prelude.{
  get_elem?, ℕ, zero, suc, ◌+◌, String, List, [], ◌∷◌, ◌++◌, none, true, false, contains, length,
  length-append, ltb, ◌≡◌, ◌≢◌, refl, ap, sym, subst, ◌∙◌, arith,
}
use shaperail.Jobs.{
  retried, running, Entry, job, JobPriority, critical, high, normal, low, JobEnvelope, DeadEntry,
  Execution, succeeded, failed_with, timed_out, World, set_queue, requeue_for_retry, update_status,
  move_to_dead_letter,
}
use shaperail.Jobs.Worker.{handle_failure, conclude, process_job, poll_once}
use shaperail.Jobs.Count.{calm}
use shaperail.Jobs.Events.{Event, polled, woken, wake, run, step}
use shaperail.Jobs.Order.{Polls, in_order, poll_once-Polls}

-- The worker polls, and the first retry's backoff ends, so many times.
abbrev pub rounds : ℕ → List Event
rounds zero = []
rounds (suc n) = polled ∷ woken 0 ∷ rounds n

calm_eq : (w : World) → w.faults ≡ [] → calm w ≡ w
calm_eq w e = ap (λ faults. record w { faults = faults }) (sym e)

-- What a failure leaves: a retry that waits while attempts are left, else a dead job.
abbrev pub Again : JobEnvelope → World → World → Type 0
Again envelope w u =
    (u.queues ≡ w.queues)
    × (u.dead ≡ w.dead)
    × (u.sleeping ≡ w.sleeping ++ envelope ∷ [])
    × (u.executed ≡ w.executed)
    × (u.faults ≡ [])

abbrev pub Dies : JobEnvelope → World → World → Type 0
Dies envelope w u =
    (u.queues ≡ w.queues)
    × ((entry : DeadEntry) × (u.dead ≡ w.dead ++ entry ∷ [])
        × (entry.id ≡ envelope.id)
        × (entry.attempts ≡ envelope.attempt))
    × (u.sleeping ≡ w.sleeping)
    × (u.executed ≡ w.executed)
    × (u.faults ≡ [])

handle_failure-Again :
    (envelope : JobEnvelope) (error : String) (w : World)
    → ltb (envelope.attempt + 1) envelope.max_retries ≡ true
    → Again envelope w (handle_failure envelope error (calm w)).1
unfolding handle_failure
handle_failure-Again envelope error w more = rw more (refl, refl, refl, refl, refl)

handle_failure-Dies :
    (envelope : JobEnvelope) (error : String) (w : World)
    → ltb (envelope.attempt + 1) envelope.max_retries ≡ false
    → Dies envelope w (handle_failure envelope error (calm w)).1
unfolding handle_failure move_to_dead_letter update_status
handle_failure-Dies envelope error w last = rw last (refl, (_, refl, refl, refl), refl, refl, refl)

all_empty :
    (c h n l : List Entry) → c ++ (h ++ (n ++ l)) ≡ [] → (c ≡ []) × (h ≡ []) × (n ≡ []) × (l ≡ [])
all_empty (x ∷ c) h n l e = cc
all_empty [] (x ∷ h) n l e = cc
all_empty [] [] (x ∷ n) l e = cc
all_empty [] [] [] (x ∷ l) e = cc
all_empty [] [] [] [] e = (refl, refl, refl, refl)

pushed_alone :
    (priority : JobPriority) (e : Entry) (queues : JobPriority → List Entry)
    → in_order queues ≡ []
    → in_order (set_queue priority (queues priority ++ e ∷ []) queues) ≡ e ∷ []
pushed_alone critical e queues h =
    let (c, h, n, l) = all_empty (queues critical) (queues high) (queues normal) (queues low) h in
    rw (c, h, n, l) refl
pushed_alone high e queues h =
    let (c, h, n, l) = all_empty (queues critical) (queues high) (queues normal) (queues low) h in
    rw (c, h, n, l) refl
pushed_alone normal e queues h =
    let (c, h, n, l) = all_empty (queues critical) (queues high) (queues normal) (queues low) h in
    rw (c, h, n, l) refl
pushed_alone low e queues h =
    let (c, h, n, l) = all_empty (queues critical) (queues high) (queues normal) (queues low) h in
    rw (c, h, n, l) refl

module _ (registry : List String)
    (execute : List (JobEnvelope × Execution) → JobEnvelope → Execution) where
  conclude-Again :
      (envelope : JobEnvelope) (execution : Execution) (w : World)
      → execution ≢ succeeded
      → ltb (envelope.attempt + 1) envelope.max_retries ≡ true
      → Again envelope w (conclude registry execute envelope execution (calm w)).1
  conclude-Again envelope succeeded w bad more = absurd (bad refl)
  conclude-Again envelope (failed_with e) w bad more = handle_failure-Again envelope e w more
  conclude-Again envelope timed_out w bad more = handle_failure-Again envelope _ w more

  conclude-Dies :
      (envelope : JobEnvelope) (execution : Execution) (w : World)
      → execution ≢ succeeded
      → ltb (envelope.attempt + 1) envelope.max_retries ≡ false
      → Dies envelope w (conclude registry execute envelope execution (calm w)).1
  conclude-Dies envelope succeeded w bad more = absurd (bad refl)
  conclude-Dies envelope (failed_with e) w bad more = handle_failure-Dies envelope e w more
  conclude-Dies envelope timed_out w bad more = handle_failure-Dies envelope _ w more

  -- The world in which the handler of a job has run.
  abbrev after_run : JobEnvelope → List (String × List (String × String)) → World → World
  after_run envelope meta w = record w {
    meta = meta;
    executed = w.executed ++ (envelope, execute w.executed envelope) ∷ [];
    faults = [];
  }

  process_job_known :
      (envelope : JobEnvelope) (w : World)
      → contains registry envelope.name ≡ true
      → (meta : List (String × List (String × String))) × ((process_job registry execute envelope
            (calm w)).1
          ≡ (conclude registry execute envelope
              (execute w.executed envelope)
              (after_run envelope meta w)).1)
  unfolding process_job update_status
  process_job_known envelope w known = (
    (update_status envelope.id running (envelope.attempt + 1) none (calm w)).1.meta,
    rw known refl,
  )

  -- A poll where a job is all that waits, as a run of its handler.
  polled_alone :
      (envelope : JobEnvelope) (w : World)
      → w.faults ≡ []
      → in_order w.queues ≡ job envelope ∷ []
      → contains registry envelope.name ≡ true
      → (u : World) × (in_order u.queues ≡ [])
        × (u.dead ≡ w.dead)
        × (u.sleeping ≡ w.sleeping)
        × (length u.executed ≡ length w.executed + 1)
        × (step registry execute polled w
            ≡ (conclude registry execute envelope (execute w.executed envelope) (calm u)).1)
  polled_alone envelope w well alone known =
      let (left, none_left, e) =
        subst (λ l. Polls registry execute l w) alone (poll_once-Polls registry execute w) in
      let (meta, run) = process_job_known envelope (record w { queues = left }) known in
      (
        after_run envelope meta (record w { queues = left }),
        none_left,
        refl,
        refl,
        length-append {0} w.executed _,
        ap (λ v. (poll_once registry execute v).1) (sym (calm_eq w well)) ∙ ap (λ r. r.1) e ∙ run,
      )

  -- A retry that wakes.
  woken_alone :
      (envelope : JobEnvelope) (w : World)
      → w.faults ≡ []
      → in_order w.queues ≡ []
      → w.sleeping ≡ envelope ∷ []
      → let u = step registry execute (woken 0) w in
        (in_order u.queues ≡ job (record envelope { attempt = envelope.attempt + 1 }) ∷ [])
        × (u.dead ≡ w.dead)
        × (u.sleeping ≡ [])
        × (u.executed ≡ w.executed)
        × (u.faults ≡ [])
  unfolding requeue_for_retry update_status
  woken_alone envelope w well empty asleep =
      rw (well, asleep)
        (
          pushed_alone envelope.priority (job (retried envelope)) w.queues empty,
          refl,
          refl,
          refl,
          refl,
        )

  woken_none : (w : World) → w.sleeping ≡ [] → step registry execute (woken 0) w ≡ w
  woken_none w e = ap (λ found. wake registry execute found 0 w) (ap (λ l. get_elem? l 0) e)

  -- What the end of a job that only fails is like.
  abbrev pub IsDeadAfter : ℕ → JobEnvelope → World → World → Type 0
  IsDeadAfter runs envelope w u =
      (in_order u.queues ≡ [])
      × (u.sleeping ≡ [])
      × ((entry : DeadEntry) × (u.dead ≡ w.dead ++ entry ∷ [])
          × (entry.id ≡ envelope.id)
          × (entry.attempts + 1 ≡ envelope.max_retries))
      × (length u.executed ≡ length w.executed + runs)

  last_round :
      (envelope : JobEnvelope) (w : World)
      → w.faults ≡ []
      → in_order w.queues ≡ job envelope ∷ []
      → w.sleeping ≡ []
      → contains registry envelope.name ≡ true
      → execute w.executed envelope ≢ succeeded
      → envelope.attempt + 1 ≡ envelope.max_retries
      → IsDeadAfter 1 envelope w (step registry execute (woken 0) (step registry execute polled w))
  last_round envelope w well alone asleep known fails last =
      let (u, empty, dead, sleeping, executed, e) = polled_alone envelope w well alone known in
      let (queues', (entry, dead', named, attempts), sleeping', executed', _) =
        conclude-Dies envelope (execute w.executed envelope) u fails (ground arith) in
      subst (IsDeadAfter 1 envelope w)
        (sym (woken_none _ (ap (λ v. v.sleeping) e ∙ sleeping' ∙ sleeping ∙ asleep)))
        (subst (IsDeadAfter 1 envelope w) (sym e) (
          ap in_order queues' ∙ empty,
          sleeping' ∙ sleeping ∙ asleep,
          (entry, dead' ∙ ap (λ d. d ++ entry ∷ []) dead, named, omega (arith, attempts, last)),
          ap length executed' ∙ executed,
        ))

  -- While Redis answers: a job that waits alone, whose handler is registered and never succeeds, and that has as many attempts left as
  -- rounds follow, is run once in each round; after them nothing waits, and the job is dead. The
  -- entry of the dead letter list gives one attempt less than the job may have.
  pub rounds-IsDeadAfter :
      (n : ℕ) (envelope : JobEnvelope) (w : World)
      → w.faults ≡ []
      → in_order w.queues ≡ job envelope ∷ []
      → w.sleeping ≡ []
      → contains registry envelope.name ≡ true
      → ((before : List (JobEnvelope × Execution)) (e : JobEnvelope) → execute before e ≢ succeeded)
      → envelope.attempt + suc n ≡ envelope.max_retries
      → IsDeadAfter (suc n) envelope w (run registry execute (rounds (suc n)) w)
  rounds-IsDeadAfter zero envelope w well alone asleep known fails left =
      last_round envelope w well alone asleep known (fails w.executed envelope) (omega arith)
  rounds-IsDeadAfter (suc n) envelope w well alone asleep known fails left =
      let (u, empty, dead, sleeping, executed, e) = polled_alone envelope w well alone known in
      let (queues', dead', sleeping', executed', well') =
        conclude-Again envelope (execute w.executed envelope) u (fails w.executed envelope)
          (ground arith) in
      let (alone'', dead'', asleep'', executed'', well'') =
        woken_alone envelope (step registry execute polled w) (ap (λ v. v.faults) e ∙ well')
          (ap (λ v. in_order v.queues) e ∙ ap in_order queues' ∙ empty)
          (ap (λ v. v.sleeping) e ∙ sleeping' ∙ ap (λ l. l ++ envelope ∷ []) (sleeping ∙ asleep)) in
      let (none_left, none_asleep, (entry, at, named, attempts), runs) =
        rounds-IsDeadAfter n (record envelope { attempt = envelope.attempt + 1 })
          (step registry execute (woken 0) (step registry execute polled w)) well'' alone'' asleep''
          known fails (omega arith) in
      (
        none_left,
        none_asleep,
        (
          entry,
          at ∙ ap (λ d. d ++ entry ∷ []) (dead'' ∙ ap (λ v. v.dead) e ∙ dead' ∙ dead),
          named,
          attempts,
        ),
        omega (
          arith,
          runs,
          ap length executed'',
          ap (λ v. length v.executed) e,
          ap length executed',
          executed,
        ),
      )
