-- ===== src/Rollout/Network.antt =====
-- `DeploymentService` of src/deployment/deployment.service.ts: subnets, security groups, the load
-- balancer and the log group.
use otto_handler.Prelude.{
  Bool, true, false, String, List, [], ◌∷◌, take, Option, none, some, nonempty, or_text, ◌==◌,
  str_eq, if◌then◌else◌,
}
use otto_handler.Prelude.Text.{template, split}
use otto_handler.Prelude.Effects.{Error, error, Env, M, ◌>>=◌, ◌>>◌, return, fail, call, try_catch}
use otto_handler.Rollout.Types.{
  LoadBalancer, Listener, Balancer, Setting, Call, infrastructure, find_load_balancer,
  describe_listeners, create_load_balancer, create_listener, describe_log_groups, create_log_group,
  put_retention, Ret,
}

-- The text of an error in a template literal.
abbrev pub printed : Error → String
printed e = template (e.name ∷ ": " ∷ e.message ∷ [])

-- `catch (error) { throw new Error(`${what}: ${error}`) }`
abbrev pub rethrow_as : {A : Type 0} → String → Error → M Call A
rethrow_as what e = fail (error (template (what ∷ ": " ∷ printed e ∷ [])))

abbrev pub first_http : List Listener → Option Listener
first_http [] = none
first_http (l ∷ ls) =
    if str_eq l.protocol "HTTP"
    then if l.port == 80 then some l else first_http ls
    else first_http ls

abbrev pub balancer : LoadBalancer → String → Balancer
balancer alb listener = record {
  alb_arn = alb.arn;
  dns_name = alb.dns_name;
  listener_arn = listener;
  vpc_id = or_text alb.vpc_id "";
  canonical_hosted_zone_id = alb.canonical_hosted_zone_id;
}

abbrev pub with_listener : LoadBalancer → Option Listener → M Call Balancer
with_listener alb none = fail (error "ALB HTTP 리스너를 찾을 수 없습니다")
with_listener alb (some l) = return (balancer alb l.arn)

abbrev pub contains : String → List (Option String) → Bool
contains s [] = false
contains s (none ∷ rest) = contains s rest
contains s (some t ∷ rest) = if str_eq t s then true else contains s rest

abbrev pub log_group : String → String
log_group pipeline = template ("/ecs/otto-pipelines/" ∷ pipeline ∷ [])

module _ (env : Env Call Ret) (s : Setting) where
  -- The identifiers that stand in the source are used where the infrastructure cannot be read.
  unfoldable pub get_available_subnets : M Call (List String × String)
  get_available_subnets =
      try_catch (do i ← call env infrastructure; return (take 2 i.subnets, i.vpc_id))
        (λ _.
          return
            ("subnet-0a595987c4eb378e3" ∷ "subnet-0b85f84597f9ed138" ∷ [], "vpc-09b8e1ceef0b4ef3f"))

  abbrev pub some_group : String → List String → M Call (List String)
  some_group vpc [] = fail (error (template ("VPC " ∷ vpc ∷ "에서 보안 그룹을 찾을 수 없습니다" ∷ [])))
  some_group vpc (group ∷ groups) = return (group ∷ groups)

  unfoldable pub get_default_security_groups : String → M Call (List String)
  get_default_security_groups vpc =
      try_catch (do i ← call env infrastructure; some_group vpc i.security_groups)
        (λ _. return (
          if nonempty s.security_groups
          then split b',' s.security_groups
          else "sg-01608f9c41943a721" ∷ "sg-0b56c9f6c2bfd7764" ∷ []))

  abbrev pub create_alb : String → List String × String → M Call Balancer
  create_alb name (subnets, vpc) = do
    groups ← get_default_security_groups vpc
    alb ← call env (create_load_balancer name subnets groups)
    listener ← call env (create_listener alb.arn)
    return (balancer alb listener)

  abbrev pub use_or_create : String → Option LoadBalancer → M Call Balancer
  use_or_create name (some alb) = do
    listeners ← call env (describe_listeners alb.arn)
    with_listener alb (first_http listeners)
  use_or_create name none = do subnets ← get_available_subnets; create_alb name subnets

  abbrev pub alb_name_of : Option String → String
  alb_name_of none = "otto-main-alb"
  alb_name_of (some name) = name

  unfoldable pub setup_application_load_balancer : M Call Balancer
  unfolding get_available_subnets get_default_security_groups
  setup_application_load_balancer =
      try_catch
        (do
          found ← call env (find_load_balancer (alb_name_of s.alb_name))
          use_or_create (alb_name_of s.alb_name) found)
        (rethrow_as "ALB 설정 실패")

  abbrev pub create_group : String → Bool → M Call (Unit {0})
  create_group name true = return tt
  create_group name false = do call env (create_log_group name); call env (put_retention name 30)

  abbrev pub unless_exists : Error → M Call (Unit {0})
  unless_exists e =
      if str_eq e.name "ResourceAlreadyExistsException"
      then return tt
      else rethrow_as "로그 그룹 생성 실패" e

  unfoldable pub ensure_log_group_exists : String → M Call (Unit {0})
  ensure_log_group_exists pipeline =
      try_catch
        (do
          groups ← call env (describe_log_groups (log_group pipeline))
          create_group (log_group pipeline) (contains (log_group pipeline) groups))
        unless_exists
