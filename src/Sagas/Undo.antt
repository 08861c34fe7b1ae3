-- ===== src/Sagas/Undo.antt =====
-- `compensate` undoes what was reached, the last step first.
use shaperail.Prelude.{
  String, List, [], ◌∷◌, ◌++◌, some, get_elem?, length, Option-cases, inl, inr, subst, ◌≡◌, refl,
  ap, ◌∙◌,
}
use shaperail.Core.Json.{Json}
use shaperail.Sagas.{SagaStep, Platform, undo_request}
use shaperail.Sagas.Executor.{World, returned, undo_steps, send_undo, ◌>>◌}
use shaperail.Sagas.Progress.{
  Progress, IsReached, here, next, results-done, get_elem?-append, append_cons, append_nil,
  append_assoc, length_snoc,
}

module _ (platform : Platform) (service_urls : List (String × String)) (input : Json) where
  -- Going back over one more step sends what undoes it first.
  undo_steps-snoc :
      (done rest : List SagaStep) (step : SagaStep) (results more : List Json) (result : Json)
      → length results ≡ length done
      → undo_steps platform service_urls
          ((done ++ step ∷ []) ++ rest)
          ((results ++ result ∷ []) ++ more)
          (length (done ++ step ∷ []))
        ≡ (do
          send_undo platform service_urls (undo_request platform service_urls step (some result))
          undo_steps platform service_urls
              (done ++ step ∷ rest)
              (results ++ result ∷ more)
              (length done))
  unfolding undo_steps
  undo_steps-snoc done rest step results more result e = rw (
    append_cons done rest step,
    append_cons results more result,
    length_snoc done step,
    get_elem?-append done rest step,
    found,
  )
    where
      found : get_elem? (results ++ result ∷ more) (length done) ≡ some result
      found =
          subst (λ n. get_elem? (results ++ result ∷ more) n ≡ some result) e
            (get_elem?-append results more result)

  -- Whatever steps and results follow, going back from the last accepted step sends what undoes each.
  pub undo_steps_lem :
      {p : Progress}
      → IsReached platform service_urls input p
      → (rest : List SagaStep) (more : List Json) (w : World)
      → undo_steps platform service_urls (p.done ++ rest) (p.results ++ more) (length p.done) w
        ≡ (returned tt, record w { sent = w.sent ++ p.undo })
  unfolding undo_steps
  undo_steps_lem here rest more w = rw (append_nil w.sent) refl
  undo_steps_lem (next {p} r step request result _ _) rest more w =
      ap (λ m. m w)
        (undo_steps-snoc p.done rest step p.results more result
          (results-done platform service_urls r))
      ∙ elim (Option-cases (undo_request platform service_urls step (some result))) [
        | inl skipped ↦ rw skipped (undo_steps_lem r (step ∷ rest) (result ∷ more) w)
        | inr (undo, sends) ↦ rw sends (
            undo_steps_lem r (step ∷ rest) (result ∷ more) (record w { sent = w.sent ++ undo ∷ [] })
            ∙ ap (λ sent. (returned tt, record w { sent = sent }))
                (append_assoc w.sent (undo ∷ []) p.undo))
      ]
