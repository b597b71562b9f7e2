-- ===== src/Rollout/Service.antt =====
-- `DeploymentService.deployAfterBuild` of src/deployment/deployment.service.ts.
use otto_handler.Prelude.{String, [], ◌∷◌, Option, none, some, truthy, or_text, if◌then◌else◌}
use otto_handler.Prelude.Text.{template}
use otto_handler.Prelude.Effects.{Error, error, Env, Clock, M, ◌>>=◌, ◌>>◌, return, fail, call, now}
use otto_handler.Deployment.Types.{Deployment, initial, update, waiting_health_check}
use otto_handler.Deployment.Tracker.{
  Start, Updates, start_deployment_tracking, setup_ecs_event_tracking, setup_target_health_tracking,
  update_deployment_status,
}
use otto_handler.Rollout.Types.{
  Pipeline, Balancer, Setting, Deployed, Call, find_pipeline, set_execution, infrastructure,
  with_deployments, Ret,
}
use otto_handler.Rollout.Network.{setup_application_load_balancer, ensure_log_group_exists}
use otto_handler.Rollout.Routing.{
  new_url, generate_deploy_url, setup_target_group, setup_alb_routing, setup_route53_record,
}
use otto_handler.Rollout.Tasks.{service_name, setup_ecs_service}

abbrev pub no_image : Error
no_image = error "파이프라인을 찾을 수 없거나 ECR 이미지가 없습니다 (빌드가 완료되지 않음)"

abbrev pub start_of : Pipeline → (id user : String) → Start
start_of p id user = record {
  pipeline_id = id;
  user_id = user;
  project_id = p.project_id;
  deployment_type = some (if truthy p.deploy_url then update else initial);
  ecr_image_uri = p.ecr_image_uri;
}

abbrev pub result : (url service group : String) → Balancer → Deployment → Deployed
result url service group alb d = record {
  deploy_url = url;
  ecs_service_arn = service;
  target_group_arn = group;
  alb_dns_name = alb.dns_name;
  deployment_id = d.deployment_id;
}

-- What the row of a deployment is told once everything is set up.
abbrev pub resource_updates : (url service group : String) → Balancer → Updates
resource_updates url service group alb = record {
  deploy_url = some url;
  ecs_service_arn = some service;
  ecs_cluster_arn = none;
  target_group_arn = some group;
  alb_arn = some alb.alb_arn;
  alb_dns_name = some alb.dns_name;
  error_message = none;
  metadata = none;
}

module _ (env : Env Call Ret) (clock : Clock Call) (s : Setting) where
  unfoldable pub url_of : Pipeline → (user id : String) → M Call String
  unfolding generate_deploy_url
  url_of p user id =
      if truthy p.deploy_url
      then return (or_text p.deploy_url "")
      else (do time ← now clock; new_url env clock s user id time)

  abbrev pub name_stream : Option String → String → Deployment → M Call (Unit {0})
  name_stream none service d = return tt
  name_stream (some id) service d =
      if truthy (some id)
      then call env
          (set_execution id (template ("otto-" ∷ id ∷ "/" ∷ service ∷ [])) d.deployment_id)
      else return tt

  -- The tracking of a deployment whose resources are there.
  abbrev pub track :
      Pipeline
      → Option String
      → Deployment
      → Balancer
      → (url group service cluster : String) → M Call Deployed
  track p execution d alb url group service cluster = do
    with_deployments env clock (λ e c.
        setup_ecs_event_tracking e s.config c d.deployment_id (service_name p.pipeline_id) cluster)
    with_deployments env clock
        (λ e c. setup_target_health_tracking e s.config c d.deployment_id group)
    with_deployments env clock (λ e c.
        update_deployment_status e s.config c d.deployment_id waiting_health_check
          (resource_updates url service group alb))
    name_stream execution (service_name p.pipeline_id) d
    return (result url service group alb d)

  abbrev pub route :
      Pipeline
      → (id user : String) → Option String
      → Deployment
      → (url : String) → Balancer
      → String
      → M Call Deployed
  route p id user execution d url alb group = do
    setup_alb_routing env clock s alb.listener_arn url group
    ensure_log_group_exists env s id
    service ← setup_ecs_service env s p url group execution
    setup_route53_record env clock s url alb.dns_name alb.canonical_hosted_zone_id
    i ← call env infrastructure
    track p execution d alb url group service i.cluster_name

  abbrev pub set_up_resources :
      Pipeline → (id user : String) → Option String → Deployment → (url : String) → M Call Deployed
  set_up_resources p id user execution d url = do
    alb ← setup_application_load_balancer env s
    group ← setup_target_group env clock s id alb.vpc_id p
    route p id user execution d url alb group

  abbrev pub deploy_image : Pipeline → (id user : String) → Option String → M Call Deployed
  deploy_image p id user execution = do
    d ←
        with_deployments env clock
          (λ e c. start_deployment_tracking e s.config c (start_of p id user))
    url ← url_of p user id
    set_up_resources p id user execution d url

  abbrev pub deploy_found : (id user : String) → Option String → Option Pipeline → M Call Deployed
  deploy_found id user execution none = fail no_image
  deploy_found id user execution (some p) =
      if truthy p.ecr_image_uri then deploy_image p id user execution else fail no_image

  unfoldable pub deploy_after_build : (id user : String) → Option String → M Call Deployed
  unfolding url_of setup_application_load_balancer setup_target_group setup_alb_routing
      ensure_log_group_exists setup_ecs_service setup_route53_record start_deployment_tracking
      setup_ecs_event_tracking setup_target_health_tracking update_deployment_status
  deploy_after_build id user execution = do
    found ← call env (find_pipeline id)
    deploy_found id user execution found
