-- ===== src/Deployment/Health/Found.antt =====
-- What a health check finds in production (src/deployment/health-check.service.ts).
use otto_handler.Prelude.{
  ◌≡◌, refl, ◌≤◌, ◌<◌, ℕ, Bool, true, false, Bool-cases, inl, inr, String, List, [], ◌∷◌, Option,
  none, some, ltb, ltb→lt, lt→ltb, ltb→ge, arith, zero, suc, ◌⊎◌,
}
use otto_handler.Prelude.Text.{template}
use otto_handler.Prelude.Effects.{Reply, resolve, reject, Error, ok, Env, Clock, Reply-cases}
use otto_handler.Deployment.Health.{
  HttpResult, answered, axios_error, Health, Call, get, Ret, of_error, of_result, unknown_error,
  check_deployment_health,
}

-- What the reply to the request of a health check says of the deployment.
pub data Verdict : Reply HttpResult → Bool → Type 0 where
  served : (n : ℕ) → n < 500 → Verdict (resolve (answered n)) true
  broken : (n : ℕ) → 500 ≤ n → Verdict (resolve (answered n)) false
  refused :
      (n : ℕ) (code message : String)
      → 0 < n
      → n < 500
      → Verdict (resolve (axios_error (some n) code message)) true
  failed :
      (n : ℕ) (code message : String)
      → 500 ≤ n
      → Verdict (resolve (axios_error (some n) code message)) false
  no_status : (code message : String) → Verdict (resolve (axios_error (some 0) code message)) false
  silent : (code message : String) → Verdict (resolve (axios_error none code message)) false
  rejected : (e : Error) → Verdict (reject e) false

below : (n m : ℕ) → ((n < m) × (ltb n m ≡ true)) ⊎ ((m ≤ n) × (ltb n m ≡ false))
below n m = elim (Bool-cases (ltb n m)) [
  | inl e ↦ inl (ltb→lt n m e, e)
  | inr e ↦ inr (ltb→ge n m e, e)
]

-- A response that the client takes for an error is judged by its status.
judged :
    (start time : ℕ) (status : Option ℕ) (code message : String)
    → Verdict
        (resolve (axios_error status code message))
        (of_error false start time status code message).is_healthy
judged start time none code message = silent code message
judged start time (some zero) code message = no_status code message
judged start time (some (suc n)) code message = elim (below (suc n) 500) [
  | inl (l, e) ↦
      rw (e, lt→ltb 0 (suc n) (omega arith)) (refused (suc n) code message (omega arith) l)
  | inr (l, e) ↦ rw (e, lt→ltb 0 (suc n) (omega arith)) (failed (suc n) code message l)
]

module _ (env : Env Call Ret) (clock : Clock Call) (url : String) (h : List Call) where
  abbrev request : Call
  request = get (template ("http://" ∷ url ∷ [])) url

  -- A check that ends, with one request, and the verdict on its reply.
  pub record Found : Type 0 where
    pub health : Health
    pub resolves : check_deployment_health env clock false url h ≡ ok health (request ∷ h)
    pub verdict : Verdict (env h request) health.is_healthy

  found_answer : (result : HttpResult) → env h request ≡ resolve result → Found
  unfolding check_deployment_health
  found_answer (answered n) f = elim (below n 500) [
    | inl (l, e) ↦ record {
      health = of_result false (clock h) (clock (request ∷ h)) (answered n);
      resolves = rw f refl;
      verdict = rw (f, e) (served n l);
    }
    | inr (l, e) ↦ record {
      health = of_result false (clock h) (clock (request ∷ h)) (answered n);
      resolves = rw f refl;
      verdict = rw (f, e) (broken n l);
    }
  ]
  found_answer (axios_error status code message) f = record {
    health = of_error false (clock h) (clock (request ∷ h)) status code message;
    resolves = rw f refl;
    verdict = rw f (judged (clock h) (clock (request ∷ h)) status code message);
  }

  -- Outside development, a health check never rejects and makes one request: the deployment is healthy
  -- where it was answered with a status below 500, also where the client took the response for an
  -- error with a status above 0, and is not healthy where there was no response, or another error.
  pub check_deployment_health-Found : Found
  unfolding check_deployment_health
  check_deployment_health-Found = elim (Reply-cases (env h request)) [
    | inl (result, f) ↦ found_answer result f
    | inr (e, f) ↦ record {
      health = unknown_error (clock h) (clock (request ∷ h)) e;
      resolves = rw f refl;
      verdict = rw f (rejected e);
    }
  ]
