-- ===== src/EventBridge/Examples.antt =====
-- Runs of lambda/index.ts and src/logs/eventbridge.service.ts over a Redis that keeps its keys.
use otto_handler.Prelude.{
  ◌≡◌, refl, ap, ℕ, Bool, true, false, Bool-cases, inl, inr, String, List, [], ◌∷◌, none, some,
  str_eq, eq_refl, if◌then◌else◌,
}
use otto_handler.Prelude.Effects.{ok, Env, Clock, resolve}
use otto_handler.Prelude.Grows.{Made, newest, older}
use otto_handler.Cloudwatch.Examples as BuildRuns
use otto_handler.Deployment.Examples as DeployRuns
use otto_handler.EventBridge.Types
use otto_handler.EventBridge.Types.{Detail, Event, Call, setnx, expire, Ret}
use otto_handler.EventBridge.Lambda.{Setting, handler}
use otto_handler.EventBridge.Lambda.Ignored.{handler_ignores}

is_set : String → List Call → Bool
is_set key [] = false
is_set key (setnx k t ∷ h) = let rest = is_set key h in if str_eq k key then true else rest
is_set key (_ ∷ h) = is_set key h

abbrev answer_of : Bool → ℕ
answer_of true = 0
answer_of false = 1

abbrev env : Env Call Ret
env h (setnx key t) = resolve (answer_of (is_set key h))
env h (Types.logs c) = BuildRuns.env_of (resolve tt) [] c
env h (Types.deployments c) = DeployRuns.env [] c
env h (Types.find_by_build id) = resolve none
env h (Types.create_build b) = resolve BuildRuns.execution
env h (Types.is_polling id) = resolve false
env h (Types.find_pipeline id) = resolve none
env h (Types.find_latest_pipeline id) = resolve none
env h (Types.deploy_after_build_success p u x) =
    resolve (record { deploy_url = none; ecs_service_arn = none })
env h (expire key n) = resolve tt
env h (Types.setex key n) = resolve tt
env h (Types.emit_phase i p s) = resolve tt
env h (Types.broadcast_status i s) = resolve tt
env h (Types.broadcast_logs i m) = resolve tt
env h (Types.broadcast_rows i r) = resolve tt
env h (Types.broadcast_complete i s) = resolve tt
env h (Types.sleep n) = resolve tt

abbrev clock : Clock Call
clock h = 7

is_set-behind :
    (key : String) (d : Call) (h : List Call) → is_set key h ≡ true → is_set key (d ∷ h) ≡ true
unfolding is_set
is_set-behind key (setnx k t) h e = elim (Bool-cases (str_eq k key)) [
  | inl f ↦ rw f refl
  | inr f ↦ rw f e
]
is_set-behind key (Types.expire k n) h e = e
is_set-behind key (Types.setex k n) h e = e
is_set-behind key (Types.logs c) h e = e
is_set-behind key (Types.find_by_build i) h e = e
is_set-behind key (Types.create_build b) h e = e
is_set-behind key (Types.is_polling i) h e = e
is_set-behind key (Types.emit_phase i p s) h e = e
is_set-behind key (Types.broadcast_status i s) h e = e
is_set-behind key (Types.broadcast_logs i m) h e = e
is_set-behind key (Types.broadcast_rows i r) h e = e
is_set-behind key (Types.broadcast_complete i s) h e = e
is_set-behind key (Types.sleep n) h e = e
is_set-behind key (Types.find_pipeline i) h e = e
is_set-behind key (Types.find_latest_pipeline i) h e = e
is_set-behind key (Types.deploy_after_build_success p u x) h e = e
is_set-behind key (Types.deployments c) h e = e

Made-is_set : (key : String) (t : ℕ) (k : List Call) → Made (setnx key t) k → is_set key k ≡ true
unfolding is_set
Made-is_set key t k newest = rw (eq_refl key) refl
Made-is_set key t k (older d m) = is_set-behind key d _ (Made-is_set key t _ m)

abbrev detail : Detail
detail = record {
  build_status = some "SUCCEEDED";
  build_id = "otto:e1";
  project_name = "otto-production-p1-build";
  current_phase = none;
  current_phase_context = none;
  completed_phase = none;
  current_phase_status = none;
  completed_phase_status = none;
  variables = none;
  log_group = none;
  log_stream = none;
  task_group = none;
  last_status = none;
}

abbrev event : Event
event = record {
  id = "ev";
  source = "aws.codebuild";
  detail_type = "CodeBuild Build State Change";
  time = 5;
  region = "r";
  account = "a";
  detail = some detail;
}

abbrev setting : Setting
setting = record {
  lambda_key = "k";
  backend_key = "k";
  config = DeployRuns.config;
  node_env = "production";
  status_line = λ e. e.message;
}

kept :
    (k : List Call) (t u : ℕ)
    → Made (setnx "eventbridge:event:ev" t) k
    → env k (setnx "eventbridge:event:ev" u) ≡ resolve 0
kept k t u m = ap (λ b. resolve (answer_of b)) (Made-is_set "eventbridge:event:ev" t k m)

handler_ignores_example :
    (t : ℕ) × (handler env clock setting event []
      ≡ ok
          (record {
            status_code = 200;
            success = true;
            message = "Event processed successfully";
            event_id = "ev";
          })
          (setnx "eventbridge:event:ev" t
            ∷ expire "eventbridge:event:ev" 3600
            ∷ setnx "eventbridge:event:ev" 7
            ∷ []))
unfolding is_set
handler_ignores_example =
    handler_ignores env clock setting event detail [] refl refl refl refl refl refl kept refl refl
