-- ===== src/Deployment/Cleanup.antt =====
-- `PipelineCleanupService` of src/deployment/pipeline-cleanup.service.ts: the removal of everything that
-- the deployments of a pipeline have set up. A failure of one part does not end it.
pub mod Waits
pub mod Steps
pub mod Parts
pub mod Examples
use otto_handler.Prelude.{
  ℕ, zero, suc, Bool, true, false, String, List, [], ◌∷◌, filter, Option, none, some, truthy,
  or_text, ◌==◌, str_eq, if◌then◌else◌, not,
}
use otto_handler.Prelude.Text.{template, split, last_of}
use otto_handler.Prelude.Effects.{Env, M, ◌>>=◌, ◌>>◌, return, call, try_catch, when, for_each}
use otto_handler.Deployment.Types.{
  Deployment, Pipeline, Config, Infrastructure, TaskCounts, Condition, ListenerRule, Call,
  find_pipeline, find_all_of_pipeline, delete_all_of_pipeline, infrastructure, list_services,
  update_service, describe_services, delete_service, sleep, find_load_balancer, describe_listeners,
  describe_rules, delete_listener_rule, delete_target_group, delete_record, Ret,
}
use otto_handler.Deployment.Rules.{cleanup_deployment_event_rules}

-- Whether a test holds of an element of a list: `xs.some(test)`
abbrev some_of : {A : Type 0} → (A → Bool) → List A → Bool
some_of test [] = false
some_of test (x ∷ xs) = if test x then true else some_of test xs

unfoldable pub is_service : String → String → Bool
is_service name arn = str_eq (last_of (split b'/' arn)) name

abbrev is_zero : Option ℕ → Bool
is_zero none = false
is_zero (some n) = n == 0

abbrev pub is_stopped : TaskCounts → Bool
is_stopped service = if is_zero service.running_count then is_zero service.pending_count else false

abbrev is_host : String → Condition → Bool
is_host url condition =
    if str_eq condition.field_name "host-header"
    then some_of (str_eq url) condition.values
    else false

unfoldable pub is_rule_of : String → ListenerRule → Bool
is_rule_of url rule = some_of (is_host url) rule.conditions

abbrev pub otto_service : String → String
otto_service id = template ("otto-" ∷ id ∷ [])

module _ (env : Env Call Ret) (config : Config) (alb_name : Option String) where
  unfoldable pub check_ecs_service_exists : String → M Call Bool
  unfolding is_service
  check_ecs_service_exists name =
      try_catch
        (do
          i ← call env infrastructure
          arns ← call env (list_services i.cluster_name)
          return (some_of (is_service name) arns))
        (λ _. return false)

  -- Whether to look again, where `left` further looks are allowed.
  abbrev pub look_again : ℕ → List TaskCounts → M Call Bool
  look_again left [] = return false
  look_again zero (service ∷ services) = if is_stopped service then return false else return true
  look_again (suc left) (service ∷ services) =
      if is_stopped service then return false else (do call env (sleep 10000); return true)

  abbrev pub look : (name cluster : String) → ℕ → M Call Bool
  look name cluster left =
      try_catch (do services ← call env (describe_services cluster name); look_again left services)
        (λ _. return false)

  unfoldable pub wait_loop : (name cluster : String) → ℕ → M Call (Unit {0})
  wait_loop name cluster zero = return tt
  wait_loop name cluster (suc left) =
      let rest = wait_loop name cluster left in
      look name cluster left >>= λ again. if again then rest else return tt

  unfoldable pub wait_for_tasks_to_stop : (name cluster : String) → M Call (Unit {0})
  unfolding wait_loop
  wait_for_tasks_to_stop name cluster = wait_loop name cluster 30

  abbrev pub remove_service : String → Bool → M Call (Unit {0})
  remove_service name false = return tt
  remove_service name true = do
    i ← call env infrastructure
    call env (update_service i.cluster_name name 0)
    wait_for_tasks_to_stop name i.cluster_name
    call env (delete_service i.cluster_name name)

  unfoldable pub cleanup_ecs_service : String → M Call (Unit {0})
  unfolding check_ecs_service_exists wait_for_tasks_to_stop
  cleanup_ecs_service id =
      try_catch
        (do
          exists ← check_ecs_service_exists (otto_service id)
          remove_service (otto_service id) exists)
        (λ _. return tt)

  abbrev pub delete_unless_default : ListenerRule → M Call (Unit {0})
  delete_unless_default rule =
      if str_eq rule.priority "default"
      then return tt
      else call env (delete_listener_rule rule.rule_arn)

  abbrev pub delete_rules_of : List ListenerRule → Deployment → M Call (Unit {0})
  delete_rules_of rules d =
      if truthy d.deploy_url
      then for_each (filter (is_rule_of (or_text d.deploy_url "")) rules) delete_unless_default
      else return tt

  abbrev pub clean_listener : List Deployment → String → M Call (Unit {0})
  clean_listener ds listener = do
    rules ← call env (describe_rules listener)
    for_each ds (delete_rules_of rules)

  abbrev pub clean_listeners : List Deployment → Option String → M Call (Unit {0})
  clean_listeners ds none = return tt
  clean_listeners ds (some alb) = do
    listeners ← call env (describe_listeners alb)
    for_each listeners (clean_listener ds)

  unfoldable pub cleanup_alb_rules : List Deployment → M Call (Unit {0})
  unfolding is_rule_of
  cleanup_alb_rules ds =
      try_catch
        (do
          alb ← call env (find_load_balancer (or_text alb_name "otto-main-alb"))
          clean_listeners ds alb)
        (λ _. return tt)

  abbrev pub remove_target_group : Deployment → M Call (Unit {0})
  remove_target_group d =
      if truthy d.target_group_arn
      then try_catch (call env (delete_target_group (or_text d.target_group_arn "")))
          (λ _. return tt)
      else return tt

  unfoldable pub cleanup_target_groups : List Deployment → M Call (Unit {0})
  cleanup_target_groups ds = try_catch (for_each ds remove_target_group) (λ _. return tt)

  abbrev pub remove_record : String → Deployment → M Call (Unit {0})
  remove_record zone d =
      if truthy d.deploy_url
      then try_catch
          (call env
            (delete_record zone (or_text d.deploy_url "") (or_text d.alb_dns_name "unknown")))
          (λ _. return tt)
      else return tt

  unfoldable pub cleanup_route53_records : List Deployment → M Call (Unit {0})
  cleanup_route53_records ds =
      try_catch
        (do
          i ← call env infrastructure
          if str_eq i.hosted_zone_id "MANUAL_SETUP_REQUIRED"
              then return tt
              else for_each ds (remove_record i.hosted_zone_id))
        (λ _. return tt)

  abbrev pub remove_event_rules : Deployment → M Call (Unit {0})
  remove_event_rules d =
      try_catch (cleanup_deployment_event_rules env config d.deployment_id) (λ _. return tt)

  unfoldable pub cleanup_event_bridge_rules : List Deployment → M Call (Unit {0})
  unfolding cleanup_deployment_event_rules
  cleanup_event_bridge_rules ds = try_catch (for_each ds remove_event_rules) (λ _. return tt)

  unfoldable pub cleanup_deployment_records : String → M Call (Unit {0})
  cleanup_deployment_records id = try_catch (call env (delete_all_of_pipeline id)) (λ _. return tt)

  -- The parts of the clean-up, in their order.
  unfoldable pub clean_all : String → List Deployment → M Call (Unit {0})
  unfolding cleanup_ecs_service cleanup_alb_rules cleanup_target_groups cleanup_route53_records
      cleanup_event_bridge_rules cleanup_deployment_records
  clean_all id ds = do
    cleanup_ecs_service id
    cleanup_alb_rules ds
    cleanup_target_groups ds
    cleanup_route53_records ds
    cleanup_event_bridge_rules ds
    cleanup_deployment_records id

  abbrev pub clean_found : String → Option Pipeline → M Call (Unit {0})
  clean_found id none = return tt
  clean_found id (some pipeline) = do ds ← call env (find_all_of_pipeline id); clean_all id ds

  unfoldable pub cleanup_pipeline_resources : String → M Call (Unit {0})
  unfolding clean_all
  cleanup_pipeline_resources id = do pipeline ← call env (find_pipeline id); clean_found id pipeline
