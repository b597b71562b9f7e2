-- ===== src/Logs/Gateway/Access.antt =====
-- Who joins the room of an execution (src/logs/logs.gateway.ts).
use otto_handler.Prelude.{
  ◌≡◌, refl, ◌⊎◌, inl, inr, true, false, Bool-cases, String, List, [], ◌∷◌, Option, none, some,
  nonempty, str_eq, eq_iff,
}
use otto_handler.Prelude.Effects.{Env, Clock, resolve, Reply-cases, history, call, try_catch}
use otto_handler.Cloudwatch.Types.{Execution, find_execution}
use otto_handler.Logs.Executions.{has_owner, no_execution}
use otto_handler.Logs.Executions.Laws.{owned}
use otto_handler.Logs.Gateway.{Call, logs, join, emit_error, Ret, handle_subscribe}

-- The rooms that were joined, newest first.
unfoldable pub joined : List Call → List String
joined [] = []
joined (join room ∷ h) = room ∷ joined h
joined (_ ∷ h) = joined h

module _ (env : Env Call Ret) (clock : Clock Call) where
  -- The user of the connection owns the execution or its project.
  pub record Granted (user : Option String) (id : String) (h : List Call) : Type 0 where
    pub name : String
    pub is_user : user ≡ some name
    pub execution : Execution
    pub found : env h (logs (find_execution id)) ≡ resolve (some execution)
    pub owns : (execution.user_id ≡ name) ⊎ (execution.project_owner ≡ some name)

  joined-call :
      (a b : String) (o : Option String) (h : List Call)
      → joined (history (call env (emit_error a b o) h)) ≡ joined h
  unfolding joined
  joined-call a b o h = elim (Reply-cases (env h (emit_error a b o))) [
    | inl (_, f) ↦ rw f refl
    | inr (e, f) ↦ rw f refl
  ]

  -- An error that is sent, and then that of the failure to send it.
  joined-try_catch :
      (a b m c : String) (o : Option String) (h : List Call)
      → joined (
          history (
            try_catch
              (call env (emit_error a b o))
              (λ e. call env (emit_error m c (some e.message)))
              h))
        ≡ joined h
  unfolding joined
  joined-try_catch a b m c o h = elim (Reply-cases (env h (emit_error a b o))) [
    | inl (_, f) ↦ rw f refl
    | inr (e, f) ↦ rw f (joined-call m c (some e.message) (emit_error a b o ∷ h))
  ]

  -- A user who may be granted access, once the execution is found.
  found_access :
      (name id : String) (h : List Call) (x : Execution)
      → nonempty name ≡ true
      → nonempty id ≡ true
      → env h (logs (find_execution id)) ≡ resolve (some x)
      → (joined (history (handle_subscribe env clock false (some name) id h)) ≡ joined h)
        ⊎ Granted (some name) id h
  unfolding handle_subscribe joined
  found_access name id h x n i f = elim (Bool-cases (str_eq x.user_id name)) [
    | inl q ↦ inr (record {
      name = name;
      is_user = refl;
      execution = x;
      found = f;
      owns = inl ((eq_iff x.user_id name).0 q);
    })
    | inr q ↦ elim (Bool-cases (has_owner x.project_owner name)) [
      | inl p ↦ inr (record {
        name = name;
        is_user = refl;
        execution = x;
        found = f;
        owns = inr (owned x.project_owner name p);
      })
      | inr p ↦ inl (
          rw (n, i, f, q, p)
            (joined-try_catch "Access denied to this execution" "ACCESS_DENIED"
              "Failed to subscribe to execution logs" "SUBSCRIBE_FAILED" none
              (logs (find_execution id) ∷ h)))
    ]
  ]

  -- Outside development, a subscription joins no room, or the user of the connection owns the execution or
  -- its project.
  pub handle_subscribe-Granted :
      (user : Option String) (id : String) (h : List Call)
      → (joined (history (handle_subscribe env clock false user id h)) ≡ joined h)
        ⊎ Granted user id h
  unfolding handle_subscribe joined
  handle_subscribe-Granted none id h = inl (
      joined-try_catch "Unauthorized" "UNAUTHORIZED" "Failed to subscribe to execution logs"
        "SUBSCRIBE_FAILED" none h)
  handle_subscribe-Granted (some name) id h = elim (Bool-cases (nonempty name)) [
    | inr n ↦ inl (
        rw n (
          joined-try_catch "Unauthorized" "UNAUTHORIZED" "Failed to subscribe to execution logs"
            "SUBSCRIBE_FAILED" none h))
    | inl n ↦ elim (Bool-cases (nonempty id)) [
      | inr i ↦ inl (
          rw (n, i)
            (joined-try_catch "Execution ID is required" "INVALID_PAYLOAD"
              "Failed to subscribe to execution logs" "SUBSCRIBE_FAILED" none h))
      | inl i ↦ elim (Reply-cases (env h (logs (find_execution id)))) [
        | inl (some x, f) ↦ found_access name id h x n i f
        | inl (none, f) ↦ inl (
            rw (n, i, f)
              (joined-call "Failed to subscribe to execution logs" "SUBSCRIBE_FAILED"
                (some (no_execution id).message) (logs (find_execution id) ∷ h)))
        | inr (e, f) ↦ inl (
            rw (n, i, f)
              (joined-call "Failed to subscribe to execution logs" "SUBSCRIBE_FAILED"
                (some e.message) (logs (find_execution id) ∷ h)))
      ]
    ]
  ]
