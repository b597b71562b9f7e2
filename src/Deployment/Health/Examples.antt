-- ===== src/Deployment/Health/Examples.antt =====
-- Runs of src/deployment/health-check.service.ts, where the server refuses with the status 404.
use otto_handler.Prelude.{◌≡◌, refl, true, false, some, [], ◌∷◌}
use otto_handler.Prelude.Effects.{Env, Clock, ok, resolve}
use otto_handler.Deployment.Health.{Call, Ret, Health, axios_error, check_deployment_health}
use otto_handler.Deployment.Health.Found.{Found, check_deployment_health-Found}

abbrev clock : Clock Call
clock [] = 1000
clock (_ ∷ _) = 1250

abbrev refusing : Env Call Ret
refusing h c = resolve (axios_error (some 404) "ERR_BAD_REQUEST" "Not found")

abbrev missing : Health
missing = record {
  is_healthy = true;
  response_status = 404;
  response_time = 250;
  error_message = some "Not found";
  last_checked = 1000;
}

check_missing :
    check_deployment_health refusing clock false "a.codecat-otto.shop" []
    ≡ ok missing (Call.get "http://a.codecat-otto.shop" "a.codecat-otto.shop" ∷ [])
unfolding check_deployment_health
check_missing = refl

check_deployment_health-Found_example : Found refusing clock "a.codecat-otto.shop" []
check_deployment_health-Found_example =
    check_deployment_health-Found refusing clock "a.codecat-otto.shop" []
