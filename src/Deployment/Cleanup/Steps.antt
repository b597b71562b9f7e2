-- ===== src/Deployment/Cleanup/Steps.antt =====
-- The parts of a clean-up, one at a time (src/deployment/pipeline-cleanup.service.ts).
use otto_handler.Prelude.{String, List, Option, none, some, truthy, or_text, str_eq}
use otto_handler.Prelude.Effects.{Env, Error, return, call}
use otto_handler.Prelude.Grows.{
  Grows, Grows->>=, Grows-call, Grows-return, Grows-if, Grows-for_each, Grows-try_catch, Grows-fail,
}
use otto_handler.Prelude.Resolves.{Resolves, caught-Resolves}
use otto_handler.Deployment.Types.{
  Deployment, Config, Call, delete_all_of_pipeline, delete_record, remove_targets,
  remove_permission, delete_rule, Ret,
}
use otto_handler.Deployment.Rules.{
  function_name, statement_of, lambda_of, deploy_rule, health_rule, unless_named, detach,
  delete_rule_by_name, cleanup_deployment_event_rules,
}
use otto_handler.Deployment.Cleanup.{
  cleanup_ecs_service, cleanup_alb_rules, cleanup_target_groups, remove_record,
  cleanup_route53_records, cleanup_event_bridge_rules, cleanup_deployment_records,
}

module _ (env : Env Call Ret) (config : Config) (alb_name : Option String) where
  pub ecs-Resolves : (id : String) → Resolves (cleanup_ecs_service env config alb_name id)
  unfolding cleanup_ecs_service
  ecs-Resolves id = caught-Resolves _

  pub alb-Resolves : (ds : List Deployment) → Resolves (cleanup_alb_rules env config alb_name ds)
  unfolding cleanup_alb_rules
  alb-Resolves ds = caught-Resolves _

  pub groups-Resolves :
      (ds : List Deployment) → Resolves (cleanup_target_groups env config alb_name ds)
  unfolding cleanup_target_groups
  groups-Resolves ds = caught-Resolves _

  pub records-Resolves :
      (ds : List Deployment) → Resolves (cleanup_route53_records env config alb_name ds)
  unfolding cleanup_route53_records
  records-Resolves ds = caught-Resolves _

  pub rules-Resolves :
      (ds : List Deployment) → Resolves (cleanup_event_bridge_rules env config alb_name ds)
  unfolding cleanup_event_bridge_rules
  rules-Resolves ds = caught-Resolves _

  rows-Resolves : (id : String) → Resolves (cleanup_deployment_records env config alb_name id)
  unfolding cleanup_deployment_records
  rows-Resolves id = caught-Resolves _

  -- The parts after the target groups keep what was done.
  record_removed-Grows :
      (zone : String) (d : Deployment) → Grows (remove_record env config alb_name zone d)
  record_removed-Grows zone d =
      Grows-if (truthy d.deploy_url) _ _
        (Grows-try_catch
          (call env
            (delete_record zone (or_text d.deploy_url "") (or_text d.alb_dns_name "unknown")))
          (λ _. return tt)
          (Grows-call env
            (delete_record zone (or_text d.deploy_url "") (or_text d.alb_dns_name "unknown")))
          (λ _. Grows-return tt))
        (Grows-return tt)

  pub records-Grows :
      (ds : List Deployment) → Grows (cleanup_route53_records env config alb_name ds)
  unfolding cleanup_route53_records
  records-Grows ds =
      Grows-try_catch _ _
        (Grows->>= _ _ (Grows-call env _) (λ i.
          Grows-if (str_eq i.hosted_zone_id "MANUAL_SETUP_REQUIRED") _ _ (Grows-return tt)
            (Grows-for_each ds _ (record_removed-Grows i.hosted_zone_id))))
        (λ _. Grows-return tt)

  detach-Grows : (rule : String) (lambda : Option String) → Grows (detach env config rule lambda)
  detach-Grows rule none = Grows-return tt
  detach-Grows rule (some arn) =
      Grows-try_catch (call env (remove_permission (function_name arn) (statement_of rule)))
        (λ _. return tt)
        (Grows-call env (remove_permission (function_name arn) (statement_of rule)))
        (λ _. Grows-return tt)

  unless_named-Grows :
      (kind : String) (wrap : Error → Error) (e : Error)
      → Grows (unless_named env config kind wrap e)
  unless_named-Grows kind wrap e =
      Grows-if (str_eq e.name kind) _ _ (Grows-return tt) (Grows-fail _)

  event_rule-Grows : (rule : String) → Grows (delete_rule_by_name env config rule)
  unfolding delete_rule_by_name
  event_rule-Grows rule =
      Grows-try_catch _ _
        (Grows->>= _ _
          (Grows-try_catch (call env (remove_targets rule)) (λ _. return tt)
            (Grows-call env (remove_targets rule)) (λ _. Grows-return tt))
          (λ _.
            Grows->>= _ _ (detach-Grows rule (lambda_of config))
              (λ _. Grows-call env (delete_rule rule))))
        (unless_named-Grows "ResourceNotFoundException" (λ e. e))

  event_rules-Grows : (id : String) → Grows (cleanup_deployment_event_rules env config id)
  unfolding cleanup_deployment_event_rules
  event_rules-Grows id =
      Grows-try_catch _ _
        (Grows->>= _ _ (event_rule-Grows (deploy_rule config id))
          (λ _. event_rule-Grows (health_rule config id)))
        (λ _. Grows-return tt)

  pub rules-Grows :
      (ds : List Deployment) → Grows (cleanup_event_bridge_rules env config alb_name ds)
  unfolding cleanup_event_bridge_rules
  rules-Grows ds =
      Grows-try_catch _ _
        (Grows-for_each ds _
          (λ d. Grows-try_catch _ _ (event_rules-Grows d.deployment_id) (λ _. Grows-return tt)))
        (λ _. Grows-return tt)

  pub rows-Grows : (id : String) → Grows (cleanup_deployment_records env config alb_name id)
  unfolding cleanup_deployment_records
  rows-Grows id =
      Grows-try_catch (call env (delete_all_of_pipeline id)) (λ _. return tt)
        (Grows-call env (delete_all_of_pipeline id)) (λ _. Grows-return tt)
