-- ===== src/Rollout/Routing.antt =====
-- `DeploymentService` of src/deployment/deployment.service.ts: the URL, the target group, the routing of
-- the load balancer and the DNS record.
use otto_handler.Prelude.{
  ℕ, zero, suc, ◌+◌, String, List, [], ◌∷◌, Option, none, some, str_eq, if◌then◌else◌,
}
use otto_handler.Prelude.Text.{template, split}
use otto_handler.Prelude.Effects.{Error, Env, Clock, M, ◌>>=◌, ◌>>◌, return, call, try_catch}
use otto_handler.Cloudwatch.Message.{includes}
use otto_handler.Rollout.Types.{
  Pipeline, Setting, Call, set_deploy_url, list_target_groups, create_target_group, find_rules,
  modify_rule, create_rule, random, find_zone, create_zone, create_record, Ret,
}
use otto_handler.Rollout.Network.{rethrow_as}

-- `s.substring(0, n)`
unfoldable pub text_take : ℕ → String → String
text_take zero s = ""
text_take (suc n) String.[] = ""
text_take (suc n) (String.◌∷◌ c s) = String.◌∷◌ c (text_take n s)

-- The last two parts of a domain, or the text if it has only one.
abbrev pub last_two : List String → String → String
last_two (a ∷ b ∷ []) url = template (a ∷ "." ∷ b ∷ [])
last_two (a ∷ b ∷ c ∷ rest) url = last_two (b ∷ c ∷ rest) url
last_two _ url = url

unfoldable pub extract_base_domain : String → String
extract_base_domain url = last_two (split b'.' url) url

-- `deployOption?.port || 3000`
abbrev pub port_of : Pipeline → ℕ
port_of p = elim p.port [ none ↦ 3000 | some zero ↦ 3000 | some (suc n) ↦ suc n ]

abbrev pub group_named : String → List (String × String) → Option String
group_named name [] = none
group_named name ((n, arn) ∷ rest) = if str_eq n name then some arn else group_named name rest

abbrev pub target_group_name : String → String
target_group_name pipeline = template ("tg-" ∷ text_take 20 pipeline ∷ [])

module _ (env : Env Call Ret) (clock : Clock Call) (s : Setting) where
  -- The first ten digits of the hash of the time, the user and the pipeline.
  unfoldable pub generate_deploy_url : (user pipeline : String) → ℕ → String
  unfolding text_take
  generate_deploy_url user pipeline time = template (
      text_take 10 (s.sha256 (template (s.to_text time ∷ user ∷ pipeline ∷ [])))
      ∷ ".codecat-otto.shop"
      ∷ [])

  abbrev pub new_url : (user pipeline : String) → ℕ → M Call String
  new_url user pipeline time = do
    call env (set_deploy_url pipeline (generate_deploy_url user pipeline time))
    return (generate_deploy_url user pipeline time)

  abbrev pub group_or_new : Pipeline → String → (id : String) → Option String → M Call String
  group_or_new p vpc id (some arn) = return arn
  group_or_new p vpc id none = call env (create_target_group (target_group_name id) (port_of p) vpc)

  unfoldable pub setup_target_group : (id vpc : String) → Pipeline → M Call String
  setup_target_group id vpc p =
      try_catch
        (try_catch
          (do
            groups ← call env list_target_groups
            group_or_new p vpc id (group_named (target_group_name id) groups))
          (rethrow_as "타겟 그룹 설정 실패"))
        (rethrow_as "타겟 그룹 생성 실패")

  abbrev pub modify_or_create : (listener url group : String) → List String → M Call (Unit {0})
  modify_or_create listener url group (rule ∷ rules) = call env (modify_rule rule group)
  modify_or_create listener url group [] = do
    n ← call env (random 50000)
    call env (create_rule listener url group (n + 1))

  unfoldable pub setup_alb_routing : (listener url group : String) → M Call (Unit {0})
  setup_alb_routing listener url group =
      try_catch
        (do rules ← call env (find_rules listener url); modify_or_create listener url group rules)
        (rethrow_as "ALB 라우팅 설정 실패")

  abbrev pub zone_or_new : String → Option String → M Call String
  zone_or_new domain (some zone) = return zone
  zone_or_new domain none = call env (create_zone domain)

  abbrev pub unless_there : Error → M Call (Unit {0})
  unless_there e =
      if includes "already exists" e.message then return tt else rethrow_as "Route53 설정 실패" e

  unfoldable pub setup_route53_record : (url dns alias_zone : String) → M Call (Unit {0})
  unfolding extract_base_domain
  setup_route53_record url dns alias_zone =
      try_catch
        (do
          found ← call env (find_zone (extract_base_domain url))
          zone ← zone_or_new (extract_base_domain url) found
          call env (create_record zone url dns alias_zone))
        unless_there
