-- ===== src/Logs/Executions/Laws.antt =====
-- Access to executions and the end of an execution (src/logs/logs.service.ts).
use otto_handler.Prelude.{
  ◌≡◌, refl, ap, ◌⊎◌, inl, inr, true, false, Bool-cases, String, List, ◌∷◌, Option, none, some,
  truthy, arith, eq_iff,
}
use otto_handler.Prelude.Json.{Metadata}
use otto_handler.Prelude.Effects.{ok, Env, Clock, resolve, Reply-cases}
use otto_handler.Cloudwatch.Types.{
  Execution, ExecutionStatus, Call, find_execution, stop_timer, save_execution, Ret,
}
use otto_handler.Logs.Executions.{
  is_final, is_denied, has_owner, new_duration, with_status, get_execution_by_id,
  update_execution_status, check_access,
}

not_denied :
    (user : String) (x : Execution)
    → truthy (some user) ≡ true
    → is_denied (some user) x ≡ false
    → x.user_id ≡ user
not_denied user x t d = ground (arith, eq_iff x.user_id user)

same_row : {x y : Execution} {h k : List Call} → ok x h ≡ ok y k → x ≡ y
same_row e = cc

-- The test for the owner of a project.
pub owned : (o : Option String) (user : String) → has_owner o user ≡ true → o ≡ some user
owned none user e = cc
owned (some owner) user e = ap some ((eq_iff owner user).0 e)

module _ (env : Env Call Ret) (clock : Clock Call) where
  -- An execution that is handed to a user is the one with the id, and it is theirs.
  get_execution_by_id_owner :
      (id user : String) (h : List Call) (x : Execution) (h' : List Call)
      → truthy (some user) ≡ true
      → get_execution_by_id env clock id (some user) h ≡ ok x h'
      → (env h (find_execution id) ≡ resolve (some x)) × (x.user_id ≡ user)
  unfolding get_execution_by_id
  get_execution_by_id_owner id user h x h' t e = elim (Reply-cases (env h (find_execution id))) [
    | inl (some y, f) ↦ elim (Bool-cases (is_denied (some user) y)) [
      | inl d ↦ absurd (ground arith)
      | inr d ↦
          let same = same_row (rw (f, d) at e) in
          (rw (f, same) refl, rw (← same) (not_denied user y t d))
    ]
    | inl (none, f) ↦ absurd (ground arith)
    | inr (e', f) ↦ absurd (ground arith)
  ]

  -- Outside development, access is granted only to the owner of the execution or of its project.
  check_access_owner :
      (user id : String) (h h' : List Call)
      → check_access env clock false user id h ≡ ok true h'
      → (x : Execution) × (env h (find_execution id) ≡ resolve (some x))
        × ((x.user_id ≡ user) ⊎ (x.project_owner ≡ some user))
  unfolding check_access
  check_access_owner user id h h' e = elim (Reply-cases (env h (find_execution id))) [
    | inl (some x, f) ↦ (x, f, ground (arith, eq_iff x.user_id user, owned x.project_owner user))
    | inl (none, f) ↦ absurd (ground arith)
    | inr (e', f) ↦ absurd (ground arith)
  ]

  -- How an update to a final status came about.
  pub record Finished (id : String) (status : ExecutionStatus) (metadata : Option Metadata)
      (h h' : List Call) : Type 0 where
    pub row : Execution
    pub found : env h (find_execution id) ≡ resolve (some row)
    pub saved : Execution
    pub calls : h' ≡ save_execution saved ∷ stop_timer id ∷ find_execution id ∷ h
    pub is_status : saved.status ≡ status
    pub completed : saved.completed_at ≡ some (clock (find_execution id ∷ h))
    pub lasted :
        saved.duration ≡ new_duration row.started_at (clock (find_execution id ∷ h)) row.duration
    pub same_execution : (saved.execution_id ≡ row.execution_id) × (saved.user_id ≡ row.user_id)

  found-Finished :
      (id : String) (status : ExecutionStatus) (metadata : Option Metadata) (h h' : List Call)
      (x : Execution)
      → is_final status ≡ true
      → env h (find_execution id) ≡ resolve (some x)
      → update_execution_status env clock id status metadata h ≡ ok tt h'
      → Finished id status metadata h h'
  unfolding update_execution_status
  found-Finished id status metadata h h' x final f e =
      let time = clock (find_execution id ∷ h) in
      record {
        row = x;
        found = f;
        saved = with_status status metadata time x;
        calls = ground arith;
        is_status = ground arith;
        completed = ground arith;
        lasted = ground arith;
        same_execution = ground arith;
      }

  -- An update to SUCCESS or FAILED that resolves stopped the poller and saved the row with the status,
  -- the time of completion and the seconds since its start.
  pub update_execution_status-Finished :
      (id : String) (status : ExecutionStatus) (metadata : Option Metadata) (h h' : List Call)
      → is_final status ≡ true
      → update_execution_status env clock id status metadata h ≡ ok tt h'
      → Finished id status metadata h h'
  unfolding update_execution_status
  update_execution_status-Finished id status metadata h h' final e =
      elim (Reply-cases (env h (find_execution id))) [
        | inl (some x, f) ↦ found-Finished id status metadata h h' x final f e
        | inl (none, f) ↦ absurd (ground arith)
        | inr (e', f) ↦ absurd (ground arith)
      ]
