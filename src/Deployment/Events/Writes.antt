-- ===== src/Deployment/Events/Writes.antt =====
-- What the handlers of src/deployment/deployment-events.service.ts save.
use otto_handler.Prelude.{◌≡◌, refl, inl, inr, true, ℕ, String, List, ◌∷◌, Option}
use otto_handler.Prelude.Effects.{
  Outcome, ok, throw, history, and_then, or_else, M, return, fail, Env, Clock, call, ◌>>=◌,
}
use otto_handler.Prelude.Keeps.{Keeps->>=, Keeps-call}
use otto_handler.Deployment.Types.{
  DeploymentStatus, success, Metadata, Deployment, Call, emit_completed, Ret, Config,
}
use otto_handler.Deployment.Rules.{cleanup_deployment_event_rules}
use otto_handler.Deployment.Tracker.{
  Updates, with_metadata, final_updates, changed, update_deployment_status, complete_deployment,
}
use otto_handler.Deployment.Tracker.Saved.{saved, Quiet, cleanup_deployment_event_rules-Quiet}
use otto_handler.Deployment.Tracker.Changes.{saved-update_deployment_status}
use otto_handler.Deployment.Events.{update}

-- The rows saved when at most one was added to `rows`: a row changed to the status.
pub data Writes (status : DeploymentStatus) (rows : List Deployment)
    : List Deployment → Type 0 where
  none_saved : Writes status rows rows
  one_saved :
      (updates : Updates) (time : ℕ) (row : Deployment)
      → Writes status rows (changed status updates time row ∷ rows)

module _ {status : DeploymentStatus} {rows : List Deployment} where
  Writes-none : {after : List Deployment} → after ≡ rows → Writes status rows after
  Writes-none e = rw e none_saved

  Writes-one :
      (updates : Updates) (time : ℕ) (row : Deployment) {after : List Deployment}
      → after ≡ changed status updates time row ∷ rows
      → Writes status rows after
  Writes-one updates time row e = rw e (one_saved updates time row)

history-discard :
    {A : Type 0} (o : Outcome Call A) → history (and_then o (λ _. return tt)) ≡ history o
history-discard (ok a h) = refl
history-discard (throw e h) = refl

history-rethrow : {A : Type 0} (o : Outcome Call A) → history (or_else o fail) ≡ history o
history-rethrow (ok a h) = refl
history-rethrow (throw e h) = refl

saved-and_then :
    {A B : Type 0} (o : Outcome Call A) (m : M Call B)
    → Quiet m
    → saved (history (and_then o (λ _. m))) ≡ saved (history o)
saved-and_then (ok a h) m q = q.at h
saved-and_then (throw e h) m q = refl

module _ (env : Env Call Ret) (config : Config) (clock : Clock Call) where
  update_status-Writes :
      (id : String) (status : DeploymentStatus) (updates : Updates) (k : List Call)
      → Writes status
          (saved k)
          (saved (history (update_deployment_status env config clock id status updates k)))
  update_status-Writes id status updates k =
      elim (saved-update_deployment_status env config clock id status updates k) [
        | inl e ↦ Writes-none e
        | inr (row, _, e) ↦ Writes-one updates _ row e
      ]

  pub update-Writes :
      (d : Deployment) (status : DeploymentStatus) (m : Metadata) (k : List Call)
      → Writes status (saved k) (saved (history (update env config clock d status m k)))
  update-Writes d status m k =
      rw
        (history-discard
          (update_deployment_status env config clock d.deployment_id status (with_metadata m) k))
        (update_status-Writes d.deployment_id status (with_metadata m) k)

  pub complete-Writes :
      (id : String) (url : Option String) (k : List Call)
      → Writes success
          (saved k)
          (saved (history (complete_deployment env config clock id true url k)))
  unfolding complete_deployment saved
  complete-Writes id url k =
      let o =
        update_deployment_status env config clock id success (final_updates (clock k) url) k in
      let rest = cleanup_deployment_event_rules env config id >>= λ _.
      call env (emit_completed id true url) in
      rw
        (
          history-rethrow (and_then o (λ _. rest)),
          saved-and_then o rest (
              Keeps->>= saved (cleanup_deployment_event_rules env config id)
                (λ _. call env (emit_completed id true url))
                (cleanup_deployment_event_rules-Quiet env config id)
                (λ _. Keeps-call saved env (emit_completed id true url) (λ h. refl))),
        )
        (update_status-Writes id success (final_updates (clock k) url) k)
