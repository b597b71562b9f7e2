-- ===== src/Deployment/Tracker/Saved.antt =====
-- The rows that the calls of src/deployment/deployment-tracker.service.ts and
-- src/deployment/deployment-eventbridge.service.ts save.
use otto_handler.Prelude.{refl, String, List, [], ◌∷◌, Option, none, some, str_eq}
use otto_handler.Prelude.Effects.{Error, M, ◌>>=◌, return, call, try_catch, Env}
use otto_handler.Prelude.Keeps.{
  Keeps, Keeps-return, Keeps-fail, Keeps->>=, Keeps-try_catch, Keeps-if, Keeps-call,
}
use otto_handler.Deployment.Types.{
  Deployment, Call, save, remove_targets, remove_permission, delete_rule, Ret, Config,
}
use otto_handler.Deployment.Rules.{
  delete_rule_by_name, cleanup_deployment_event_rules, unless_named, deploy_rule, health_rule,
  detach, lambda_of, function_name, statement_of,
}

-- The rows saved, newest first.
unfoldable pub saved : List Call → List Deployment
saved [] = []
saved (save d ∷ cs) = d ∷ saved cs
saved (_ ∷ cs) = saved cs

-- A computation that saves no row.
abbrev pub Quiet : {A : Type 0} → M Call A → Type 0
Quiet m = Keeps saved m

module _ (env : Env Call Ret) where
  module _ (config : Config) where
    unless_named-Quiet :
        (kind : String) (wrap : Error → Error) (e : Error)
        → Quiet (unless_named env config kind wrap e)
    unless_named-Quiet kind wrap e =
        Keeps-if saved (str_eq e.name kind) _ _ (Keeps-return saved tt) (Keeps-fail saved (wrap e))

    detach-Quiet : (rule : String) (lambda : Option String) → Quiet (detach env config rule lambda)
    unfolding saved
    detach-Quiet rule none = Keeps-return saved tt
    detach-Quiet rule (some arn) =
        Keeps-try_catch saved (call env (remove_permission (function_name arn) (statement_of rule)))
          (λ _. return tt)
          (Keeps-call saved env (remove_permission (function_name arn) (statement_of rule))
            (λ h. refl))
          (λ _. Keeps-return saved tt)

    -- Removes the targets of a rule, if it can.
    abbrev untargeted : String → M Call (Unit {0})
    untargeted rule = try_catch (call env (remove_targets rule)) (λ _. return tt)

    delete_rule_by_name-Quiet : (rule : String) → Quiet (delete_rule_by_name env config rule)
    unfolding delete_rule_by_name saved
    delete_rule_by_name-Quiet rule =
        Keeps-try_catch saved
          (untargeted rule >>= λ _.
            detach env config rule (lambda_of config) >>= λ _. call env (delete_rule rule))
          (unless_named env config "ResourceNotFoundException" (λ e. e))
          (Keeps->>= saved (untargeted rule)
            (λ _. detach env config rule (lambda_of config) >>= λ _. call env (delete_rule rule))
            (Keeps-try_catch saved (call env (remove_targets rule)) (λ _. return tt)
              (Keeps-call saved env (remove_targets rule) (λ h. refl)) (λ _. Keeps-return saved tt))
            (λ _.
              Keeps->>= saved (detach env config rule (lambda_of config))
                (λ _. call env (delete_rule rule)) (detach-Quiet rule (lambda_of config))
                (λ _. Keeps-call saved env (delete_rule rule) (λ h. refl))))
          (unless_named-Quiet "ResourceNotFoundException" (λ e. e))

    pub cleanup_deployment_event_rules-Quiet :
        (id : String) → Quiet (cleanup_deployment_event_rules env config id)
    unfolding cleanup_deployment_event_rules
    cleanup_deployment_event_rules-Quiet id =
        let first = delete_rule_by_name env config (deploy_rule config id) in
        let second = delete_rule_by_name env config (health_rule config id) in
        Keeps-try_catch saved (first >>= λ _. second) (λ _. return tt)
          (Keeps->>= saved first (λ _. second) (delete_rule_by_name-Quiet (deploy_rule config id))
            (λ _. delete_rule_by_name-Quiet (health_rule config id)))
          (λ _. Keeps-return saved tt)
