-- ===== src/Rollout/Examples.antt =====
-- Runs of src/deployment/deployment.service.ts: a pipeline that is deployed again.
use otto_handler.Prelude.{◌≡◌, refl, [], ◌∷◌, none, some}
use otto_handler.Prelude.Effects.{Env, Clock, resolve}
use otto_handler.Deployment.Examples as DeployRuns
use otto_handler.Deployment.Types.{put_rule}
use otto_handler.Rollout.Types
use otto_handler.Rollout.Types.{Pipeline, Setting, Deployed, LoadBalancer, Call, Ret}
use otto_handler.Rollout.Routing.{extract_base_domain, generate_deploy_url}
use otto_handler.Prelude.Splits.{lacks}
use otto_handler.Rollout.Keeps.{extract_base_domain-generate_deploy_url}

abbrev pipeline : Pipeline
pipeline = record {
  pipeline_id = "l1";
  project_id = "p1";
  ecr_image_uri = some "image";
  deploy_url = some "x.shop";
  port = none;
  command = none;
  variables = none;
}

abbrev alb : LoadBalancer
alb = record { arn = "alb"; dns_name = "dns"; vpc_id = none; canonical_hosted_zone_id = "Z" }

abbrev pub env : Env Call Ret
env h (Types.deployments (put_rule n p)) = resolve tt
env h (Types.deployments c) = DeployRuns.env [] c
env h (Types.find_pipeline id) = resolve (some pipeline)
env h (Types.set_deploy_url id u) = resolve tt
env h (Types.set_execution id s d) = resolve tt
env h Types.infrastructure =
    resolve (record { cluster_name = "main"; subnets = []; vpc_id = "v"; security_groups = [] })
env h (Types.find_load_balancer n) = resolve (some alb)
env h (Types.describe_listeners a) =
    resolve (record { arn = "l"; protocol = "HTTP"; port = 80 } ∷ [])
env h (Types.create_load_balancer n s g) = resolve alb
env h (Types.create_listener a) = resolve "l"
env h Types.list_target_groups = resolve []
env h (Types.create_target_group n p v) = resolve "tg"
env h (Types.find_rules l u) = resolve ("rule" ∷ [])
env h (Types.modify_rule r g) = resolve tt
env h (Types.create_rule l u g n) = resolve tt
env h (Types.random n) = resolve 5
env h (Types.describe_log_groups p) = resolve []
env h (Types.create_log_group n) = resolve tt
env h (Types.put_retention n d) = resolve tt
env h (Types.register_task t) = resolve (some "task")
env h (Types.describe_service c n) = resolve []
env h (Types.update_service c s n t) = resolve (some "service")
env h (Types.create_service s) = resolve (some "service")
env h (Types.find_zone d) = resolve (some "Z1")
env h (Types.create_zone d) = resolve "Z1"
env h (Types.create_record z n d a) = resolve tt

abbrev clock : Clock Call
clock h = 7

abbrev pub setting : Setting
setting = record {
  alb_name = none;
  role_arn = none;
  region = none;
  subnets = "";
  vpc_id = "";
  security_groups = "";
  sha256 = λ t. "0123456789abcdef";
  to_text = λ n. "7";
  config = DeployRuns.config;
}

extract_base_domain-generate_deploy_url_example :
    extract_base_domain (generate_deploy_url env clock setting "u1" "l1" 7) ≡ "codecat-otto.shop"
unfolding lacks
extract_base_domain-generate_deploy_url_example =
    extract_base_domain-generate_deploy_url env clock setting "u1" "l1" 7 (λ t. refl)

abbrev deployed : Deployed
deployed = record {
  deploy_url = "x.shop";
  ecs_service_arn = "service";
  target_group_arn = "tg";
  alb_dns_name = "dns";
  deployment_id = "d1";
}
