-- ===== src/Events/Emitted.antt =====
-- The jobs that an event makes.
use shaperail.Prelude.{
  Bool-cases, inl, inr, String, List, [], ◌∷◌, ◌++◌, Option, none, some, Bool, true, false, map,
  if◌then◌else◌, ◌≡◌, refl, ap, sym, ◌∙◌,
}
use mathlib.Core.List.{append-nil, append_assoc, map-append}
use shaperail.Events.Ordered.{
  Order, AreOrdersFor, payload_of, target_order, orders_for, orders_for-AreOrdersFor,
}
use shaperail.Core.Json.{Json}
use shaperail.Core.Error.{Result, ok}
use shaperail.Jobs.{
  Entry, job, unreadable, JobPriority, critical, high, normal, low, World, M, ◌>>=◌, ◌>>◌, pure,
  enqueue, set_queue,
}
use shaperail.Jobs.Count.{calm}
use shaperail.Events.{
  EventTarget, EventSubscriber, find_matching_subscribers, target_name, target_payload,
  target_priority, enqueue_fresh, dispatch_to_target, dispatch_all, notify_all, emit,
}

-- An entry as the job's name and payload.
abbrev pub view : Entry → Option (String × Json)
view (job e) = some (e.name, e.payload)
view (unreadable e) = none

-- What waits at a priority.
abbrev pub waiting : JobPriority → World → List (Option (String × Json))
waiting p w = map view (w.queues p)

abbrev pub same : JobPriority → JobPriority → Bool
same critical critical = true
same high high = true
same normal normal = true
same low low = true
same critical high = false
same critical normal = false
same critical low = false
same high critical = false
same high normal = false
same high low = false
same normal critical = false
same normal high = false
same normal low = false
same low critical = false
same low high = false
same low normal = false

-- The orders of one priority.
abbrev pub ordered : JobPriority → List Order → List (Option (String × Json))
ordered p [] = []
ordered p ((q, name, payload) ∷ orders) =
    if same q p then some (name, payload) ∷ ordered p orders else ordered p orders

ordered-append :
    (p : JobPriority) (xs ys : List Order) → ordered p (xs ++ ys) ≡ ordered p xs ++ ordered p ys
ordered-append p [] ys = refl
ordered-append p ((q, name, payload) ∷ xs) ys = elim (Bool-cases (same q p)) [
  | inl e ↦ rw e (ap (◌∷◌ (some (name, payload))) (ordered-append p xs ys))
  | inr e ↦ rw e (ordered-append p xs ys)
]

-- An entry pushed to the list of a priority.
waiting-set_queue :
    (q p : JobPriority) (e : Entry) (queues : JobPriority → List Entry)
    → map view (set_queue q (queues q ++ e ∷ []) queues p)
      ≡ map view (queues p) ++ (if same q p then view e ∷ [] else [])
waiting-set_queue critical critical e queues = map-append view (queues critical) (e ∷ [])
waiting-set_queue high high e queues = map-append view (queues high) (e ∷ [])
waiting-set_queue normal normal e queues = map-append view (queues normal) (e ∷ [])
waiting-set_queue low low e queues = map-append view (queues low) (e ∷ [])
waiting-set_queue critical high e queues = sym (append-nil (map view (queues high)))
waiting-set_queue critical normal e queues = sym (append-nil (map view (queues normal)))
waiting-set_queue critical low e queues = sym (append-nil (map view (queues low)))
waiting-set_queue high critical e queues = sym (append-nil (map view (queues critical)))
waiting-set_queue high normal e queues = sym (append-nil (map view (queues normal)))
waiting-set_queue high low e queues = sym (append-nil (map view (queues low)))
waiting-set_queue normal critical e queues = sym (append-nil (map view (queues critical)))
waiting-set_queue normal high e queues = sym (append-nil (map view (queues high)))
waiting-set_queue normal low e queues = sym (append-nil (map view (queues low)))
waiting-set_queue low critical e queues = sym (append-nil (map view (queues critical)))
waiting-set_queue low high e queues = sym (append-nil (map view (queues high)))
waiting-set_queue low normal e queues = sym (append-nil (map view (queues normal)))

-- The operation succeeds while Redis answers, and each list gets its orders at the end.
abbrev pub Delivers : List Order → {A : Type 0} → A → Result A × World → World → Type 0
Delivers orders a r w =
    (u : World) × (r ≡ (ok a, calm u))
    × ((p : JobPriority) → waiting p u ≡ waiting p w ++ ordered p orders)

-- One operation and then another.
then-Delivers :
    {A B : Type 0} (first second : List Order) {a : A} {b : B} (m : M A) (next : A → M B)
    (w : World)
    → Delivers first a (m (calm w)) w
    → ((u : World) → Delivers second b (next a (calm u)) u)
    → Delivers (first ++ second) b ((m >>= next) (calm w)) w
then-Delivers first second m next w (u, e, more) h =
    let (v, e', more') = h u in
    (
      v,
      rw (e, e') refl,
      λ p.
          more' p
          ∙ ap (λ l. l ++ ordered p second) (more p)
          ∙ append_assoc (waiting p w) (ordered p first) (ordered p second)
          ∙ ap (λ l. waiting p w ++ l) (sym (ordered-append p first second)),
    )

module _ (fresh : World → String) where
  enqueue_fresh-Delivers :
      (name : String) (payload : Json) (q : JobPriority) (w : World)
      → (id : String) × Delivers
          ((q, name, payload) ∷ [])
          id
          (enqueue_fresh fresh name payload q (calm w))
          w
  unfolding enqueue
  enqueue_fresh-Delivers name payload q w = (
    fresh (calm w),
    ((enqueue_fresh fresh name payload q (calm w)).1, refl, λ p. waiting-set_queue q p _ w.queues),
  )

  dispatch_to_target-Delivers :
      (payload : Json) (t : EventTarget) (w : World)
      → Delivers (target_order payload t ∷ []) tt (dispatch_to_target fresh payload t (calm w)) w
  dispatch_to_target-Delivers payload t w =
      let (id, delivered) =
        enqueue_fresh-Delivers (target_name t) (target_payload t payload) (target_priority t) w in
      let (u, e, more) = delivered in (u, rw e refl, more)

  dispatch_all-Delivers :
      (payload : Json) (targets : List EventTarget) (w : World)
      → Delivers
          (map (target_order payload) targets)
          tt
          (dispatch_all fresh payload targets (calm w))
          w
  unfolding dispatch_all
  dispatch_all-Delivers payload [] w = (w, refl, λ p. sym (append-nil (waiting p w)))
  dispatch_all-Delivers payload (t ∷ targets) w =
      then-Delivers (target_order payload t ∷ []) (map (target_order payload) targets)
        (dispatch_to_target fresh payload t) (λ _. dispatch_all fresh payload targets) w
        (dispatch_to_target-Delivers payload t w) (dispatch_all-Delivers payload targets)

  notify_all-Delivers :
      (payload : Json) (subscribers : List EventSubscriber) (w : World)
      → Delivers
          (orders_for payload subscribers)
          tt
          (notify_all fresh payload subscribers (calm w))
          w
  unfolding notify_all
  notify_all-Delivers payload [] w = (w, refl, λ p. sym (append-nil (waiting p w)))
  notify_all-Delivers payload (s ∷ subscribers) w =
      then-Delivers (map (target_order payload) s.targets) (orders_for payload subscribers)
        (dispatch_all fresh payload s.targets) (λ _. notify_all fresh payload subscribers) w
        (dispatch_all-Delivers payload s.targets w) (notify_all-Delivers payload subscribers)

  -- While Redis answers, an event is answered with its id, and puts at the end of the lists of jobs: one
  -- job for the log with the event's payload, at normal priority, and then, for the subscribers whose
  -- pattern matches the name and in their order, one for each of their targets: a job by its name with
  -- the payload and a hook at normal priority, a webhook and a channel at high priority, these three
  -- with their own arguments beside the payload. Nothing else waits anywhere.
  pub emit-Delivers :
      (subscribers : List EventSubscriber) (event_name resource action : String) (content : Json)
      (w : World)
      → let payload = payload_of event_name resource action content w.clock (fresh (calm w)) in
        (orders : List Order) × AreOrdersFor payload event_name subscribers orders
        × Delivers
            ((normal, "shaperail:event_log", payload) ∷ orders)
            (fresh (calm w))
            (emit fresh subscribers event_name resource action content (calm w))
            w
  unfolding emit
  emit-Delivers subscribers event_name resource action content w =
      let payload : Json = payload_of event_name resource action content w.clock (fresh (calm w)) in
      let matching = find_matching_subscribers subscribers event_name in
      let (id, logged) = enqueue_fresh-Delivers "shaperail:event_log" payload normal w in
      (
        orders_for payload matching,
        orders_for-AreOrdersFor payload event_name subscribers,
        then-Delivers ((normal, "shaperail:event_log", payload) ∷ []) (orders_for payload matching)
            (enqueue_fresh fresh "shaperail:event_log" payload normal)
            (λ _. notify_all fresh payload matching >> pure (fresh (calm w))) w logged
            (λ u.
              let (v, e, more) = notify_all-Delivers payload matching u in (v, rw e refl, more)),
      )
