-- ===== src/Deployment/Cleanup/Waits.antt =====
-- The wait for the tasks of a service to stop (src/deployment/pipeline-cleanup.service.ts).
use otto_handler.Prelude.{
  ◌≡◌, refl, ◌≤◌, ◌+◌, ℕ, zero, suc, Bool, true, false, Bool-cases, inl, inr, String, List, [],
  Option, ◌∷◌, arith,
}
use otto_handler.Prelude.Effects.{ok, resolve, Env, Reply-cases}
use otto_handler.Deployment.Types.{TaskCounts, Config, Call, describe_services, sleep, Ret}
use otto_handler.Deployment.Cleanup.{is_stopped, look, wait_loop, wait_for_tasks_to_stop}

-- How often the tasks of a service were looked at.
unfoldable pub looks : List Call → ℕ
looks [] = 0
looks (describe_services c s ∷ h) = suc (looks h)
looks (_ ∷ h) = looks h

module _ (env : Env Call Ret) (config : Config) (alb_name : Option String)
    (name cluster : String) where
  -- A look that resolves, and the calls made then.
  record Looked (left : ℕ) (h : List Call) : Type 0 where
    again : Bool
    calls : List Call
    resolves : look env config alb_name name cluster left h ≡ ok again calls
    once : looks calls ≡ suc (looks h)

  look_found :
      (left : ℕ) (h : List Call) (services : List TaskCounts)
      → env h (describe_services cluster name) ≡ resolve services
      → Looked left h
  unfolding looks
  look_found left h [] f = record {
    again = false;
    calls = describe_services cluster name ∷ h;
    resolves = rw f refl;
    once = refl;
  }
  look_found zero h (s ∷ ss) f = elim (Bool-cases (is_stopped s)) [
    | inl e ↦ record {
      again = false;
      calls = describe_services cluster name ∷ h;
      resolves = rw (f, e) refl;
      once = refl;
    }
    | inr e ↦ record {
      again = true;
      calls = describe_services cluster name ∷ h;
      resolves = rw (f, e) refl;
      once = refl;
    }
  ]
  look_found (suc left) h (s ∷ ss) f = elim (Bool-cases (is_stopped s)) [
    | inl e ↦ record {
      again = false;
      calls = describe_services cluster name ∷ h;
      resolves = rw (f, e) refl;
      once = refl;
    }
    | inr e ↦ elim (Reply-cases (env (describe_services cluster name ∷ h) (sleep 10000))) [
      | inl (_, g) ↦ record {
        again = true;
        calls = sleep 10000 ∷ describe_services cluster name ∷ h;
        resolves = rw (f, e, g) refl;
        once = refl;
      }
      | inr (_, g) ↦ record {
        again = false;
        calls = sleep 10000 ∷ describe_services cluster name ∷ h;
        resolves = rw (f, e, g) refl;
        once = refl;
      }
    ]
  ]

  looked : (left : ℕ) (h : List Call) → Looked left h
  unfolding looks
  looked left h = elim (Reply-cases (env h (describe_services cluster name))) [
    | inl (services, f) ↦ look_found left h services f
    | inr (_, f) ↦ record {
      again = false;
      calls = describe_services cluster name ∷ h;
      resolves = rw f refl;
      once = refl;
    }
  ]

  looks-wait_loop :
      (left : ℕ) (h : List Call)
      → (k : List Call) × (wait_loop env config alb_name name cluster left h ≡ ok tt k)
        × (looks k ≤ left + looks h)
  unfolding wait_loop
  looks-wait_loop zero h = (h, refl, omega arith)
  looks-wait_loop (suc left) h =
      let l = looked left h in
      let (k, e, b) = looks-wait_loop left l.calls in
      elim (Bool-cases l.again) [
        | inl t ↦ (k, rw (l.resolves, t, e) refl, omega (arith, l.once))
        | inr t ↦ (l.calls, rw (l.resolves, t) refl, omega (arith, l.once))
      ]

  -- The wait ends, also where the tasks never stop or cannot be looked at, after at most 30 looks.
  pub looks-wait_for_tasks_to_stop :
      (h : List Call)
      → (k : List Call) × (wait_for_tasks_to_stop env config alb_name name cluster h ≡ ok tt k)
        × (looks k ≤ 30 + looks h)
  unfolding wait_for_tasks_to_stop
  looks-wait_for_tasks_to_stop h = looks-wait_loop 30 h
