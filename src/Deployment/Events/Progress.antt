-- ===== src/Deployment/Events/Progress.antt =====
-- The status of a deployment over any sequence of events, as the handlers of
-- src/deployment/deployment-events.service.ts change it.
use otto_handler.Prelude.{◌≡◌, ◌≢◌, refl, ap, drop, ◌∙◌, List, [], ◌∷◌}
use otto_handler.Prelude.Effects.{history, M, Env, Clock, for_each}
use otto_handler.Deployment.Types.{
  DeploymentStatus, pending, deploying_ecs, configuring_alb, waiting_health_check, success,
  Deployment, Call, Ret, Config,
}
use otto_handler.Deployment.Tracker.{changed}
use otto_handler.Deployment.Tracker.Saved.{saved}
use otto_handler.Deployment.Details.{
  service_task_definition_updated, service_steady_state, unknown_event, ServiceEventType,
  TargetState, healthy, unhealthy, unavailable, draining, unknown_state, TargetDetail,
}
use otto_handler.Deployment.Events.Rows.{
  Event, service_event, task_event, target_event, next_status, service_status, target_status,
}
use otto_handler.Deployment.Events.Handled.{
  handle, Found, Handled, unchanged, one_changed, saved-handle, handle_resolves,
}

-- The statuses `base` and those of the rows.
pub data Held (base : DeploymentStatus) : List Deployment → DeploymentStatus → Type 0 where
  at_start : {rows : List Deployment} → Held base rows base
  newest : (row : Deployment) {rows : List Deployment} → Held base (row ∷ rows) row.status
  older :
      (row : Deployment) {rows : List Deployment} {s : DeploymentStatus}
      → Held base rows s
      → Held base (row ∷ rows) s

-- Every row has a status with the property.
pub data All (P : DeploymentStatus → Type 0) : List Deployment → Type 0 where
  all_none : All P []
  all_more : {d : Deployment} {ds : List Deployment} → P d.status → All P ds → All P (d ∷ ds)

Held-All :
    (P : DeploymentStatus → Type 0) (base : DeploymentStatus) {rows : List Deployment}
    {s : DeploymentStatus}
    → P base
    → All P rows
    → Held base rows s
    → P s
Held-All P base p a at_start = p
Held-All P base p (all_more q a) (newest row) = q
Held-All P base p (all_more q a) (older row h) = Held-All P base p a h

module _ (env : Env Call Ret) (config : Config) (clock : Clock Call) where
  -- The queries resolve to a row with the status at the start, or one that was saved since.
  abbrev pub Recalls : DeploymentStatus → Type 0
  Recalls base =
      (rows : List Deployment) (d : Deployment)
      → Found env config clock rows d
      → Held base rows d.status

  unfoldable pub handle_all : List Event → M Call (Unit {0})
  handle_all events = for_each events (handle env config clock)

  module _ (P : DeploymentStatus → Type 0)
      (closed : (event : Event) (s : DeploymentStatus) → P s → P (next_status event s))
      (base : DeploymentStatus) (start : P base) (recalls : Recalls base) where
    Handled-All :
        (event : Event) {rows after : List Deployment}
        → All P rows
        → Handled env config clock event rows after
        → All P after
    unfolding changed
    Handled-All event a unchanged = a
    Handled-All event {rows} a (one_changed d updates time row found) =
        all_more (closed event d.status (Held-All P base start a (recalls rows d found))) a

    saved-for_each-All :
        (events : List Event) (h : List Call)
        → All P (saved h)
        → All P (saved (history (for_each events (handle env config clock) h)))
    unfolding for_each
    saved-for_each-All [] h a = a
    saved-for_each-All (event ∷ events) h a =
        let (k, e) = handle_resolves env config clock event h in
        let a' = Handled-All event a (saved-handle env config clock event h) in
        rw e (saved-for_each-All events k (rw e at a'))

-- The statuses from which no event completes a deployment.
pub data Building : DeploymentStatus → Type 0 where
  building_ecs : Building deploying_ecs
  building_alb : Building configuring_alb

service_status-Building :
    (t : ServiceEventType) (s : DeploymentStatus) → Building s → Building (service_status t s)
unfolding service_status
service_status-Building service_task_definition_updated s b = building_ecs
service_status-Building service_steady_state s b = building_alb
service_status-Building unknown_event s b = b

target_status-Building :
    (t : TargetState) (s : DeploymentStatus) → Building s → Building (target_status t s)
unfolding target_status
target_status-Building healthy s building_ecs = building_ecs
target_status-Building healthy s building_alb = building_alb
target_status-Building unhealthy s b = b
target_status-Building unavailable s b = b
target_status-Building draining s b = b
target_status-Building unknown_state s b = b

next_status-Building :
    (event : Event) (s : DeploymentStatus) → Building s → Building (next_status event s)
unfolding next_status
next_status-Building (service_event detail) s b = service_status-Building detail.event_type s b
next_status-Building (task_event detail) s b = b
next_status-Building (target_event detail) s b = target_status-Building detail.state s b

-- Over a repository whose queries resolve to the status CONFIGURING_ALB or a status that was saved
-- since, no sequence of events completes the deployment: every row that it saves has the status
-- DEPLOYING_ECS or CONFIGURING_ALB.
pub saved-handle_all-Building :
    (env : Env Call Ret) (config : Config) (clock : Clock Call)
    → Recalls env config clock configuring_alb
    → (events : List Event) → All Building (saved (history (handle_all env config clock events [])))
unfolding handle_all saved
saved-handle_all-Building env config clock recalls events =
    saved-for_each-All env config clock Building next_status-Building configuring_alb building_alb
      recalls events [] all_none

-- How an event came to complete a deployment.
pub record Completed (env : Env Call Ret) (config : Config) (clock : Clock Call) (event : Event)
    (rows : List Deployment) : Type 0 where
  pub detail : TargetDetail
  pub is_target : event ≡ target_event detail
  pub is_healthy : detail.state ≡ healthy
  pub row : Deployment
  pub found : Found env config clock rows row
  pub waited : row.status ≡ waiting_health_check

target_status_success :
    (t : TargetState) (s : DeploymentStatus)
    → target_status t s ≡ success
    → s ≢ success
    → (t ≡ healthy) × (s ≡ waiting_health_check)
unfolding target_status
target_status_success healthy s e n =
    elim s
        as (λ r.
          target_status healthy r ≡ success
          → r ≢ success
          → (healthy ≡ healthy) × (r ≡ waiting_health_check)) [
            | waiting_health_check ↦ λ e n. (refl, refl)
            | r ↦ λ e n. absurd (n e)
          ]
      e n
target_status_success unhealthy s e n = absurd (n e)
target_status_success unavailable s e n = absurd (n e)
target_status_success draining s e n = absurd (n e)
target_status_success unknown_state s e n = absurd (n e)

service_status_success :
    (t : ServiceEventType) (s : DeploymentStatus) → service_status t s ≡ success → s ≡ success
unfolding service_status
service_status_success service_task_definition_updated s e = cc
service_status_success service_steady_state s e = cc
service_status_success unknown_event s e = e

next_status_success :
    (event : Event) (s : DeploymentStatus)
    → next_status event s ≡ success
    → s ≢ success
    → (detail : TargetDetail) × (event ≡ target_event detail)
      × (detail.state ≡ healthy)
      × (s ≡ waiting_health_check)
unfolding next_status
next_status_success (service_event detail) s e n =
    absurd (n (service_status_success detail.event_type s e))
next_status_success (task_event detail) s e n = absurd (n e)
next_status_success (target_event detail) s e n =
    let (t, w) = target_status_success detail.state s e n in (detail, refl, t, w)

-- The status of the first row.
abbrev first_status : List Deployment → DeploymentStatus
first_status [] = pending
first_status (d ∷ ds) = d.status

longer : (d : Deployment) (rows : List Deployment) → ¬ (rows ≡ d ∷ rows)
longer d (r ∷ rows) e = longer r rows (ap (drop 1) e)
longer d [] e = cc

module _ (env : Env Call Ret) (config : Config) (clock : Clock Call) where
  Handled-Completed :
      (event : Event) {rows after : List Deployment} (r : Deployment)
      → ((d : Deployment) → Found env config clock rows d → d.status ≢ success)
      → Handled env config clock event rows after
      → after ≡ r ∷ rows
      → r.status ≡ success
      → Completed env config clock event rows
  unfolding changed
  Handled-Completed event r live unchanged e s = absurd (longer r _ e)
  Handled-Completed event r live (one_changed d updates time row found) e s =
      let (detail, t, g, w) =
        next_status_success event d.status (ap first_status e ∙ s) (live d found) in
      record { detail = detail; is_target = t; is_healthy = g; row = d; found = found; waited = w }

  -- Where the queries never resolve to a completed deployment, an event that saves a row with the
  -- status SUCCESS tells of a healthy target, and the row that its query found had the status
  -- WAITING_HEALTH_CHECK.
  pub saved-handle_success :
      (event : Event) (h : List Call) (r : Deployment)
      → ((d : Deployment) → Found env config clock (saved h) d → d.status ≢ success)
      → saved (history (handle env config clock event h)) ≡ r ∷ saved h
      → r.status ≡ success
      → Completed env config clock event (saved h)
  saved-handle_success event h r live e s =
      Handled-Completed event r live (saved-handle env config clock event h) e s
