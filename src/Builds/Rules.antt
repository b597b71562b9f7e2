-- ===== src/Builds/Rules.antt =====
-- `EventBridgeService` of src/codebuild/eventbridge.service.ts: the rule that reports on the builds of a
-- project.
pub mod Names
pub mod Permission
use otto_handler.Prelude.{
  String, List, [], ◌∷◌, Option, none, some, truthy, or_text, str_eq, if◌then◌else◌,
}
use otto_handler.Prelude.Text.{template, split, part_at, shown_part}
use otto_handler.Prelude.Effects.{Error, error, Env, M, ◌>>=◌, ◌>>◌, return, fail, call, try_catch}
use otto_handler.Deployment.Rules.{message_of, function_name}
use otto_handler.Builds.Types.{
  Setting, Call, put_rule, put_targets, remove_targets, delete_rule, add_permission,
  remove_permission, Ret,
}

-- `parts[parts.length - 2]`
abbrev pub second_last : List String → Option String
second_last [] = none
second_last (s ∷ []) = none
second_last (s ∷ t ∷ []) = some s
second_last (s ∷ t ∷ u ∷ ss) = second_last (t ∷ u ∷ ss)

-- `NODE_ENV === 'production' ? 'prod' : 'dev'`
abbrev pub short_environment : Option String → String
short_environment none = "dev"
short_environment (some node_env) = if str_eq node_env "production" then "prod" else "dev"

-- The rule of a build project.
unfoldable pub rule_name : Option String → String → String
rule_name node_env name =
    template
      ("otto-" ∷ short_environment node_env ∷ "-" ∷ shown_part (second_last (split b'-' name)) ∷ [])

abbrev pub rule_permission : String → String
rule_permission rule = template (rule ∷ "-permission" ∷ [])

-- The ARN of a rule, in the account of the Lambda function.
abbrev pub rule_arn : (region lambda rule : String) → String
rule_arn region lambda rule = template (
    "arn:aws:events:"
    ∷ region
    ∷ ":"
    ∷ shown_part (part_at 4 (split b':' lambda))
    ∷ ":rule/"
    ∷ rule
    ∷ [])

module _ (env : Env Call Ret) (s : Setting) where
  abbrev pub ignored : M Call (Unit {0}) → M Call (Unit {0})
  ignored m = try_catch m (λ _. return tt)

  abbrev pub remove_lambda_permission : String → M Call (Unit {0})
  remove_lambda_permission rule =
      if truthy s.lambda_arn
      then ignored (
          call env
            (remove_permission (function_name (or_text s.lambda_arn "")) (rule_permission rule)))
      else return tt

  abbrev pub remove_rule : String → M Call (Unit {0})
  remove_rule rule = remove_lambda_permission rule >> call env (delete_rule rule)

  abbrev pub unless_missing : Error → M Call (Unit {0})
  unless_missing e = if str_eq e.name "ResourceNotFoundException" then return tt else fail e

  -- The target, the permission and the rule; only the last may fail, unless there is no such rule.
  unfoldable pub delete_rule_by_name : String → M Call (Unit {0})
  delete_rule_by_name rule =
      try_catch (ignored (call env (remove_targets rule)) >> remove_rule rule) unless_missing

  unfoldable pub delete_codebuild_event_rule : String → M Call (Unit {0})
  unfolding rule_name
  delete_codebuild_event_rule name =
      let rule = rule_name s.node_env name in
      try_catch (ignored (call env (remove_targets rule)) >> remove_rule rule) unless_missing

  -- A permission that cannot be given takes the rule back.
  abbrev pub permission_failed : String → Error → M Call (Unit {0})
  permission_failed rule e =
      if str_eq e.name "ResourceConflictException"
      then return tt
      else delete_rule_by_name rule
        >> fail (error (template ("Lambda 권한 추가 실패: " ∷ message_of e ∷ [])))

  abbrev pub renew_permission : (rule lambda : String) → M Call (Unit {0})
  renew_permission rule lambda =
      ignored (call env (remove_permission (function_name lambda) (rule_permission rule)))
      >> call env (
          add_permission (function_name lambda) (rule_permission rule)
            (rule_arn s.region lambda rule))

  abbrev pub permit : (rule lambda : String) → M Call (Unit {0})
  permit rule lambda = try_catch (renew_permission rule lambda) (permission_failed rule)

  abbrev pub add_target : String → M Call String
  add_target rule =
      if truthy s.lambda_arn
      then call env (put_targets rule (or_text s.lambda_arn ""))
        >> (permit rule (or_text s.lambda_arn "") >> return rule)
      else return rule

  abbrev pub rule_failed : Error → M Call String
  rule_failed e = fail (error (template ("EventBridge Rule 생성 실패: " ∷ message_of e ∷ [])))

  unfoldable pub create_codebuild_event_rule : String → M Call String
  unfolding rule_name
  create_codebuild_event_rule name =
      let rule = rule_name s.node_env name in
      try_catch (call env (put_rule rule name) >> add_target rule) rule_failed
