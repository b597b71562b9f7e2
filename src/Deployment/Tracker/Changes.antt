-- ===== src/Deployment/Tracker/Changes.antt =====
-- The updates of src/deployment/deployment-tracker.service.ts.
use otto_handler.Prelude.{◌≡◌, ◌⊎◌, inl, inr, String, List, [], ◌∷◌, none, some, arith}
use otto_handler.Prelude.Text.{template}
use otto_handler.Prelude.Effects.{
  Error, Outcome, ok, throw, history, Env, Clock, resolve, Reply-cases, Outcome-cases,
}
use otto_handler.Deployment.Types.{
  DeploymentStatus, failed, Deployment, Call, find_deployment, save, emit_status_changed,
  send_progress, send_status, Ret, Config,
}
use otto_handler.Deployment.Rules.{create_deployment_event_rule}
use otto_handler.Deployment.Tracker.{
  Updates, with_error, changed, get_step_from_status, get_message_from_status,
  update_deployment_status, setup_ecs_event_tracking,
}
use otto_handler.Deployment.Tracker.Saved.{saved}

module _ (env : Env Call Ret) (config : Config) (clock : Clock Call) where
  -- How an update that resolves came about.
  pub record Updated (id : String) (status : DeploymentStatus) (updates : Updates) (h : List Call)
      (r : Deployment) (h' : List Call) : Type 0 where
    pub row : Deployment
    pub found : env h (find_deployment id) ≡ resolve (some row)
    pub stored :
        env
          (find_deployment id ∷ h)
          (save (changed status updates (clock (find_deployment id ∷ h)) row))
        ≡ resolve r
    pub calls :
        h'
        ≡ send_status id status (get_step_from_status status)
          ∷ send_progress id status
              (get_step_from_status status)
              (get_message_from_status status)
              updates.metadata
          ∷ emit_status_changed r status status
          ∷ save (changed status updates (clock (find_deployment id ∷ h)) row)
          ∷ find_deployment id
          ∷ h

  found-Updated :
      (id : String) (status : DeploymentStatus) (updates : Updates) (h : List Call)
      (row r : Deployment) (h' : List Call)
      → env h (find_deployment id) ≡ resolve (some row)
      → update_deployment_status env config clock id status updates h ≡ ok r h'
      → Updated id status updates h r h'
  unfolding update_deployment_status changed
  found-Updated id status updates h row r h' f e = record {
    row = row;
    found = f;
    stored = ground arith;
    calls = ground arith;
  }

  -- An update that resolves found the deployment, saved the changed row and made exactly these calls;
  -- the event that it emitted names the new status as the previous one too.
  pub update_deployment_status-Updated :
      (id : String) (status : DeploymentStatus) (updates : Updates) (h : List Call) (r : Deployment)
      (h' : List Call)
      → update_deployment_status env config clock id status updates h ≡ ok r h'
      → Updated id status updates h r h'
  unfolding update_deployment_status
  update_deployment_status-Updated id status updates h r h' e =
      elim (Reply-cases (env h (find_deployment id))) [
        | inl (some row, f) ↦ found-Updated id status updates h row r h' f e
        | inl (none, f) ↦ absurd (ground arith)
        | inr (x, f) ↦ absurd (ground arith)
      ]

  -- An update saves no row, or the changed one.
  pub saved-update_deployment_status :
      (id : String) (status : DeploymentStatus) (updates : Updates) (h : List Call)
      → (saved (history (update_deployment_status env config clock id status updates h)) ≡ saved h)
        ⊎ ((row : Deployment) × (env h (find_deployment id) ≡ resolve (some row))
            × (saved (history (update_deployment_status env config clock id status updates h))
                ≡ changed status updates (clock (find_deployment id ∷ h)) row ∷ saved h))
  unfolding update_deployment_status saved
  saved-update_deployment_status id status updates h =
      elim (Reply-cases (env h (find_deployment id))) [
        | inl (some row, f) ↦ inr (row, f, ground arith)
        | inl (none, f) ↦ inl (ground arith)
        | inr (x, f) ↦ inl (ground arith)
      ]

  -- The outcome of a set-up whose rule cannot be created.
  pub data SetupFailed (id : String) (x : Error) (k : List Call)
      : Outcome Call (Unit {0}) → Type 0 where
    marked :
        (r : Deployment) (h' : List Call)
        → Updated id failed
            (with_error (template ("ECS event tracking setup failed: " ∷ x.message ∷ [])))
            k
            r
            h'
        → SetupFailed id x k (throw x h')
    unmarked :
        (e : Error) (h' : List Call)
        → update_deployment_status env config clock id failed
            (with_error (template ("ECS event tracking setup failed: " ∷ x.message ∷ [])))
            k
          ≡ throw e h'
        → SetupFailed id x k (throw e h')

  -- Where the rule of a deployment cannot be created, the set-up throws: the error of the rule after
  -- an update to FAILED with its message, or the error of that update.
  setup_ecs_event_tracking-SetupFailed :
      (id service cluster : String) (h : List Call) (x : Error) (k : List Call)
      → create_deployment_event_rule env config service cluster id h ≡ throw x k
      → SetupFailed id x k (setup_ecs_event_tracking env config clock id service cluster h)
  unfolding setup_ecs_event_tracking
  setup_ecs_event_tracking-SetupFailed id service cluster h x k e =
      let message = template ("ECS event tracking setup failed: " ∷ x.message ∷ []) in
      elim (Outcome-cases
        (update_deployment_status env config clock id failed (with_error message) k)) [
          | inl (r, h', f) ↦
              rw (e, f)
                (marked r h'
                  (update_deployment_status-Updated id failed (with_error message) k r h' f))
          | inr (y, h', f) ↦ rw (e, f) (unmarked y h' f)
        ]
