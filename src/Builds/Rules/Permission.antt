-- ===== src/Builds/Rules/Permission.antt =====
-- The roll-back of a rule whose target may not be called (src/codebuild/eventbridge.service.ts).
use otto_handler.Prelude.{
  inl, inr, ◌≡◌, refl, true, false, String, List, [], ◌∷◌, truthy, or_text, str_eq,
}
use otto_handler.Prelude.Text.{template}
use otto_handler.Prelude.Effects.{
  ok, throw, error, Reply-cases, Outcome-cases, Error, Env, resolve, reject, history, call, ◌>>◌,
}
use otto_handler.Prelude.Grows.{Made, Grows, Grows-return, Grows-fail, Grows-if}
use otto_handler.Prelude.Resolves.{
  Resolves, caught-Resolves, return-Resolves, if-Resolves, Makes, Makes-call, Makes-next,
  Makes-try_catch,
}
use otto_handler.Deployment.Rules.{function_name, message_of}
use otto_handler.Builds.Types.{
  Setting, Call, put_rule, put_targets, remove_targets, delete_rule, add_permission,
  remove_permission, Ret,
}
use otto_handler.Builds.Rules.{
  rule_name, rule_permission, rule_arn, ignored, remove_rule, unless_missing,
  remove_lambda_permission, delete_rule_by_name, permission_failed, permit,
  create_codebuild_event_rule,
}

module _ (env : Env Call Ret) (s : Setting) where
  removed-Resolves : (rule : String) → Resolves (remove_lambda_permission env s rule)
  removed-Resolves rule = if-Resolves (truthy s.lambda_arn) _ _ (caught-Resolves _) return-Resolves

  missing-Grows : (e : Error) → Grows (unless_missing env s e)
  missing-Grows e =
      Grows-if (str_eq e.name "ResourceNotFoundException") _ _ (Grows-return tt) (Grows-fail e)

  -- A deletion always reaches the rule.
  pub Makes-delete_rule_by_name :
      (rule : String) → Makes (delete_rule rule) (delete_rule_by_name env s rule)
  unfolding delete_rule_by_name
  Makes-delete_rule_by_name rule =
      Makes-try_catch (ignored env s (call env (remove_targets rule)) >> remove_rule env s rule)
        (unless_missing env s) (delete_rule rule)
        (Makes-next (ignored env s (call env (remove_targets rule))) (remove_rule env s rule)
          (delete_rule rule) (caught-Resolves _)
          (Makes-next (remove_lambda_permission env s rule) (call env (delete_rule rule))
            (delete_rule rule) (removed-Resolves rule) (Makes-call env (delete_rule rule))))
        missing-Grows

  permission_removed :
      (function statement : String) (h : List Call)
      → ignored env s (call env (remove_permission function statement)) h
        ≡ ok tt (remove_permission function statement ∷ h)
  permission_removed function statement h =
      elim (Reply-cases (env h (remove_permission function statement))) [
        | inl (tt, f) ↦ rw f refl
        | inr (e, f) ↦ rw f refl
      ]

  -- Where the permission is refused for another reason than that it is there, the rule is deleted, and
  -- the failure is passed on.
  refused_permission :
      (rule : String) (e : Error) (h : List Call)
      → str_eq e.name "ResourceConflictException" ≡ false
      → (x : Error) × (permission_failed env s rule e h
          ≡ throw x (history (delete_rule_by_name env s rule h)))
  refused_permission rule e h n = elim (Outcome-cases (delete_rule_by_name env s rule h)) [
    | inl (tt, k, f) ↦ (error (template ("Lambda 권한 추가 실패: " ∷ message_of e ∷ [])), rw (n, f) refl)
    | inr (x, k, f) ↦ (x, rw (n, f) refl)
  ]

  abbrev removal : (rule lambda : String) → Call
  removal rule lambda = remove_permission (function_name lambda) (rule_permission rule)

  abbrev addition : (rule lambda : String) → Call
  addition rule lambda =
      add_permission (function_name lambda) (rule_permission rule) (rule_arn s.region lambda rule)

  refused_permit :
      (rule lambda : String) (e : Error) (h : List Call)
      → env (removal rule lambda ∷ h) (addition rule lambda) ≡ reject e
      → str_eq e.name "ResourceConflictException" ≡ false
      → (x : Error) × (permit env s rule lambda h
          ≡ throw x (
              history
                (delete_rule_by_name env s rule (addition rule lambda ∷ removal rule lambda ∷ h))))
  refused_permit rule lambda e h r n =
      let (x, thrown) =
        refused_permission rule e (addition rule lambda ∷ removal rule lambda ∷ h) n in
      (x, rw (permission_removed (function_name lambda) (rule_permission rule) h, r) thrown)

  module _ (name : String) (h : List Call) where
    abbrev rule : String
    rule = rule_name s.node_env name

    abbrev lambda : String
    lambda = or_text s.lambda_arn ""

    abbrev targeted : List Call
    targeted = put_targets rule lambda ∷ put_rule rule name ∷ h

    -- Where the permission cannot be given, for another reason than that it is there, the creation of
    -- a rule fails, and has tried to delete the rule.
    pub create_codebuild_event_rule-Made :
        (e : Error)
        → truthy s.lambda_arn ≡ true
        → env h (put_rule rule name) ≡ resolve tt
        → env (put_rule rule name ∷ h) (put_targets rule lambda) ≡ resolve tt
        → env (removal rule lambda ∷ targeted) (addition rule lambda) ≡ reject e
        → str_eq e.name "ResourceConflictException" ≡ false
        → (x : Error) × (k : List Call) × (create_codebuild_event_rule env s name h ≡ throw x k)
          × Made (delete_rule rule) k
    unfolding create_codebuild_event_rule
    create_codebuild_event_rule-Made e t f g r n =
        let start = addition rule lambda ∷ removal rule lambda ∷ targeted in
        let (x, thrown) = refused_permit rule lambda e targeted r n in
        (
          error (template ("EventBridge Rule 생성 실패: " ∷ message_of x ∷ [])),
          history (delete_rule_by_name env s rule start),
          rw (t, f, g, thrown) refl,
          (Makes-delete_rule_by_name rule).at start,
        )
