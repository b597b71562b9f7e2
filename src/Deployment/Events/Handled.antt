-- ===== src/Deployment/Events/Handled.antt =====
-- One event from EventBridge, handled by src/deployment/deployment-events.service.ts.
use otto_handler.Prelude.{
  ◌≡◌, refl, subst, inl, inr, ℕ, String, List, [], ◌∷◌, Option, none, some, arith,
}
use otto_handler.Prelude.Text.{template}
use otto_handler.Prelude.Effects.{
  Outcome, ok, throw, history, and_then, or_else, M, return, Env, Clock, resolve, Reply-cases,
  Outcome-cases, call, ◌>>=◌,
}
use otto_handler.Deployment.Types.{
  Deployment, Call, find_by_pipeline, find_by_service_arn, find_by_target_group, Ret, Config,
}
use otto_handler.Deployment.Tracker.{Updates, changed}
use otto_handler.Deployment.Tracker.Saved.{saved}
use otto_handler.Deployment.Details.{EcsTaskDetail}
use otto_handler.Deployment.Events.{
  active_statuses, target_statuses, by_service_arn, if_found, logged, on_task,
  find_deployment_by_service_name, find_by_name, extract_service_name,
  handle_ecs_service_state_change, handle_ecs_task_state_change,
  handle_alb_target_health_state_change,
}
use otto_handler.Deployment.Events.Writes.{Writes, none_saved, one_saved}
use otto_handler.Deployment.Events.Rows.{
  Event, service_event, task_event, target_event, next_status, on_row, on_row-Writes,
}

history-logged : (o : Outcome Call (Unit {0})) → history (or_else o (λ _. return tt)) ≡ history o
history-logged (ok a h) = refl
history-logged (throw e h) = refl

module _ (env : Env Call Ret) (config : Config) (clock : Clock Call) where
  abbrev pub handle : Event → M Call (Unit {0})
  handle (service_event detail) = handle_ecs_service_state_change env config clock detail
  handle (task_event detail) = handle_ecs_task_state_change env config clock detail
  handle (target_event detail) = handle_alb_target_health_state_change env config clock detail

  -- A row that one of the three queries resolved to, when these rows had been saved.
  pub data Found (rows : List Deployment) (d : Deployment) : Type 0 where
    pipeline_row :
        (k : List Call) (id : String)
        → saved k ≡ rows
        → env k (find_by_pipeline id active_statuses) ≡ resolve (some d)
        → Found rows d
    service_row :
        (k : List Call) (name : String)
        → saved k ≡ rows
        → env k (find_by_service_arn name active_statuses) ≡ resolve (some d)
        → Found rows d
    target_row :
        (k : List Call) (arn : String)
        → saved k ≡ rows
        → env k (find_by_target_group arn target_statuses) ≡ resolve (some d)
        → Found rows d

  -- What the rows saved become: they are as before, or there is one more.
  pub data Handled (event : Event) (rows : List Deployment) : List Deployment → Type 0 where
    unchanged : Handled event rows rows
    one_changed :
        (d : Deployment) (updates : Updates) (time : ℕ) (row : Deployment)
        → Found rows d
        → Handled event rows (changed (next_status event d.status) updates time row ∷ rows)

  -- A query saves nothing, and a row that it resolves to was found.
  abbrev Finds : M Call (Option Deployment) → Type 0
  Finds m =
      (h : List Call)
      → (saved (history (m h)) ≡ saved h)
        × ((d : Deployment) (k : List Call) → m h ≡ ok (some d) k → Found (saved h) d)

  by_service_arn-Finds : (name : String) → Finds (by_service_arn env config clock name)
  unfolding saved
  by_service_arn-Finds name h =
      elim (Reply-cases
        (env h (find_by_service_arn (template ("%" ∷ name ∷ "%" ∷ [])) active_statuses))) [
          | inl (some d, f) ↦ (
            rw f refl,
            λ d' k e. service_row h (template ("%" ∷ name ∷ "%" ∷ [])) refl (rw f (ground arith)),
          )
          | inl (none, f) ↦ (rw f refl, λ d' k e. absurd (ground arith))
          | inr (x, f) ↦ (rw f refl, λ d' k e. absurd (ground arith))
        ]

  by_target_group-Finds :
      (arn : String) → Finds (call env (find_by_target_group arn target_statuses))
  unfolding saved
  by_target_group-Finds arn h =
      elim (Reply-cases (env h (find_by_target_group arn target_statuses))) [
        | inl (some d, f) ↦ (rw f refl, λ d' k e. target_row h arn refl (rw f (ground arith)))
        | inl (none, f) ↦ (rw f refl, λ d' k e. absurd (ground arith))
        | inr (x, f) ↦ (rw f refl, λ d' k e. absurd (ground arith))
      ]

  by_name-Finds :
      (name : String) (id : Option String) → Finds (find_by_name env config clock name id)
  unfolding saved
  by_name-Finds name none h = by_service_arn-Finds name h
  by_name-Finds name (some id) h =
      elim (Reply-cases (env h (find_by_pipeline id active_statuses))) [
        | inl (some d, f) ↦ (rw f refl, λ d' k e. pipeline_row h id refl (rw f (ground arith)))
        | inl (none, f) ↦ rw f (by_service_arn-Finds name (find_by_pipeline id active_statuses ∷ h))
        | inr (x, f) ↦ (rw f refl, λ d' k e. absurd (ground arith))
      ]

  service_name-Finds :
      (name : String) → Finds (find_deployment_by_service_name env config clock name)
  unfolding find_deployment_by_service_name
  service_name-Finds name h = by_name-Finds name _ h

  from_Writes :
      (event : Event) (d : Deployment) {rows after : List Deployment}
      → Found rows d
      → Writes (next_status event d.status) rows after
      → Handled event rows after
  from_Writes event d found none_saved = unchanged
  from_Writes event d found (one_saved updates time row) = one_changed d updates time row found

  -- A query, and then the work on the row that it finds, with every failure ignored.
  find_and-Handled :
      (event : Event) (m : M Call (Option Deployment)) (h : List Call)
      → Finds m
      → Handled event (saved h) (
          saved (
            history (
              logged env config clock
                (m >>= λ found. if_found env config clock found (on_row env config clock event))
                h)))
  find_and-Handled event m h q =
      let (same, finds) = q h in
      let after =
        and_then (m h) (λ found. if_found env config clock found (on_row env config clock event)) in
      elim (Outcome-cases (m h)) [
        | inl (some d, k, e) ↦
            rw (history-logged after, e)
              (from_Writes event d (finds d k e) (
                subst
                  (λ r.
                    Writes (next_status event d.status) r
                      (saved (history (on_row env config clock event d k))))
                  (rw (← same, e) refl) (on_row-Writes env config clock event d k)))
        | inl (none, k, e) ↦
            rw (history-logged after, e)
              (subst (λ r. Handled event r (saved k)) (rw (← same, e) refl) unchanged)
        | inr (x, k, e) ↦
            rw (history-logged after, e)
              (subst (λ r. Handled event r (saved k)) (rw (← same, e) refl) unchanged)
      ]

  on_task-Handled :
      (name : Option String) (detail : EcsTaskDetail) (h : List Call)
      → Handled
          (task_event detail)
          (saved h)
          (saved (history (logged env config clock (on_task env config clock name detail) h)))
  on_task-Handled none detail h = unchanged
  on_task-Handled (some name) detail h =
      find_and-Handled (task_event detail) (find_deployment_by_service_name env config clock name) h
        (service_name-Finds name)

  -- An event saves no row, or one: a row with the status that follows, by the kind of the event, from
  -- that of a row which a query of the handler found.
  pub saved-handle :
      (event : Event) (h : List Call) → Handled event (saved h) (saved (history (handle event h)))
  unfolding handle_ecs_service_state_change handle_ecs_task_state_change
      handle_alb_target_health_state_change
  saved-handle (service_event detail) h =
      find_and-Handled (service_event detail)
        (find_deployment_by_service_name env config clock detail.service_name) h
        (service_name-Finds detail.service_name)
  saved-handle (task_event detail) h = on_task-Handled (extract_service_name detail.group) detail h
  saved-handle (target_event detail) h =
      find_and-Handled (target_event detail)
        (call env (find_by_target_group detail.target_group_arn target_statuses)) h
        (by_target_group-Finds detail.target_group_arn)

  logged_resolves :
      (m : M Call (Unit {0})) (h : List Call)
      → (k : List Call) × (logged env config clock m h ≡ ok tt k)
  logged_resolves m h = elim (Outcome-cases (m h)) [
    | inl (tt, k, e) ↦ (k, rw e refl)
    | inr (x, k, e) ↦ (k, rw e refl)
  ]

  -- The handling of an event never rejects.
  pub handle_resolves :
      (event : Event) (h : List Call) → (k : List Call) × (handle event h ≡ ok tt k)
  unfolding handle_ecs_service_state_change handle_ecs_task_state_change
      handle_alb_target_health_state_change
  handle_resolves (service_event detail) h =
      logged_resolves
        (find_deployment_by_service_name env config clock detail.service_name >>= λ found.
          if_found env config clock found (on_row env config clock (service_event detail)))
        h
  handle_resolves (task_event detail) h =
      logged_resolves (on_task env config clock (extract_service_name detail.group) detail) h
  handle_resolves (target_event detail) h =
      logged_resolves
        (call env (find_by_target_group detail.target_group_arn target_statuses) >>= λ found.
          if_found env config clock found (on_row env config clock (target_event detail)))
        h
