-- ===== src/Deployment/Rules/Cleanup.antt =====
-- The removal of the rules (src/deployment/deployment-eventbridge.service.ts).
use otto_handler.Prelude.{◌≡◌, refl, inl, inr, String, List}
use otto_handler.Prelude.Effects.{ok, Env, Outcome-cases, ◌>>=◌}
use otto_handler.Deployment.Types.{Call, Ret, Config}
use otto_handler.Deployment.Rules.{
  cleanup_deployment_event_rules, delete_rule_by_name, deploy_rule, health_rule,
}

-- The removal of a deployment's rules never rejects, whatever EventBridge and Lambda answer.
cleanup_deployment_event_rules_resolves :
    (env : Env Call Ret) (config : Config) (id : String) (h : List Call)
    → (k : List Call) × (cleanup_deployment_event_rules env config id h ≡ ok tt k)
unfolding cleanup_deployment_event_rules
cleanup_deployment_event_rules_resolves env config id h =
    elim (Outcome-cases (
      (delete_rule_by_name env config (deploy_rule config id) >>= λ _.
      delete_rule_by_name env config (health_rule config id))
        h)) [ inl (tt, k, e) ↦ (k, rw e refl) | inr (x, k, e) ↦ (k, rw e refl) ]
