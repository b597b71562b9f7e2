-- ===== src/Deployment/Rules.antt =====
-- The class `DeploymentEventBridgeService` of src/deployment/deployment-eventbridge.service.ts.
pub mod Cleanup
use otto_handler.Prelude.{
  ℕ, zero, suc, Bool, String, List, [], ◌∷◌, Option, none, some, nonempty, or_text, str_eq,
  if◌then◌else◌,
}
use otto_handler.Prelude.Text.{template, split, last_of, part_at, shown_part}
use otto_handler.Prelude.Effects.{Error, error, Env, M, ◌>>=◌, ◌>>◌, return, fail, call, try_catch}
use otto_handler.Deployment.Types.{
  EventPattern, ecs_service, target_health, Call, put_rule, put_targets, remove_targets,
  delete_rule, add_permission, remove_permission, Ret, Config,
}

-- `error.message || 'Unknown error'`
abbrev pub message_of : Error → String
message_of e = or_text (some e.message) "Unknown error"

-- `lambdaArn.split(':').pop()`
pub function_name : String → String
function_name arn = last_of (split b':' arn)

-- The ARN of the rule, in the account of the Lambda function.
pub source_arn : Config → String → String → String
source_arn config arn rule = template (
    "arn:aws:events:"
    ∷ config.region
    ∷ ":"
    ∷ shown_part (part_at 4 (split b':' arn))
    ∷ ":rule/"
    ∷ rule
    ∷ [])

abbrev pub deploy_rule : Config → String → String
deploy_rule config id = template ("otto-deploy-" ∷ config.environment ∷ "-" ∷ id ∷ [])

abbrev pub health_rule : Config → String → String
health_rule config id = template ("otto-health-" ∷ config.environment ∷ "-" ∷ id ∷ [])

abbrev pub statement_of : String → String
statement_of rule = template (rule ∷ "-permission" ∷ [])

-- `if (!lambdaArn)`: a configured function, or none
abbrev pub lambda_of : Config → Option String
lambda_of config = elim config.lambda_arn [
  | none ↦ none
  | some arn ↦ if nonempty arn then some arn else none
]

module _ (env : Env Call Ret) (config : Config) where
  -- a failure passes if it is of this kind
  abbrev pub unless_named : String → (Error → Error) → Error → M Call (Unit {0})
  unless_named kind wrap e = if str_eq e.name kind then return tt else fail (wrap e)

  unfoldable pub add_lambda_permission : String → String → M Call (Unit {0})
  unfolding function_name source_arn
  add_lambda_permission rule arn =
      try_catch
        (do
          try_catch (call env (remove_permission (function_name arn) (statement_of rule)))
              (λ _. return tt)
          call env
              (add_permission (function_name arn) (statement_of rule) (source_arn config arn rule)))
        (unless_named "ResourceConflictException"
          (λ e. error (template ("Lambda 권한 추가 실패: " ∷ message_of e ∷ []))))

  -- The target of a rule and the permission to call it, if a function is configured.
  abbrev pub attach : String → ℕ → Option String → M Call (Unit {0})
  attach rule age none = return tt
  attach rule age (some arn) = do
    call env (put_targets rule arn age)
    add_lambda_permission rule arn

  unfoldable pub create_deployment_event_rule : (service cluster id : String) → M Call String
  unfolding add_lambda_permission
  create_deployment_event_rule service cluster id =
      try_catch
        (do
          call env (put_rule (deploy_rule config id) (ecs_service service cluster))
          attach (deploy_rule config id) 3600 (lambda_of config)
          return (deploy_rule config id))
        (λ e. fail (error (template ("Deployment EventBridge Rule 생성 실패: " ∷ message_of e ∷ []))))

  unfoldable pub create_target_health_event_rule : (target_group_arn id : String) → M Call String
  unfolding add_lambda_permission
  create_target_health_event_rule arn id =
      try_catch
        (do
          call env (put_rule (health_rule config id) (target_health arn))
          attach (health_rule config id) 1800 (lambda_of config)
          return (health_rule config id))
        (λ e.
          fail (error (template ("Target Health EventBridge Rule 생성 실패: " ∷ message_of e ∷ []))))

  abbrev pub detach : String → Option String → M Call (Unit {0})
  detach rule none = return tt
  detach rule (some arn) =
      try_catch (call env (remove_permission (function_name arn) (statement_of rule)))
        (λ _. return tt)

  unfoldable pub delete_rule_by_name : String → M Call (Unit {0})
  unfolding function_name
  delete_rule_by_name rule =
      try_catch
        (do
          try_catch (call env (remove_targets rule)) (λ _. return tt)
          detach rule (lambda_of config)
          call env (delete_rule rule))
        (unless_named "ResourceNotFoundException" (λ e. e))

  unfoldable pub cleanup_deployment_event_rules : String → M Call (Unit {0})
  unfolding delete_rule_by_name
  cleanup_deployment_event_rules id =
      try_catch
        (do
          delete_rule_by_name (deploy_rule config id)
          delete_rule_by_name (health_rule config id))
        (λ _. return tt)
