-- ===== src/Projects/Service/Deletion.antt =====
-- The deletion of a project (src/project/project.service.ts).
use otto_handler.Prelude.{ℕ, zero, suc, ◌≡◌, true, nonempty, String, List, ◌∷◌, some}
use otto_handler.Prelude.Effects.{
  resolve, history, Env, Clock, M, ◌>>=◌, ◌>>◌, return, call, try_catch,
}
use otto_handler.Prelude.Grows.{
  Made, Grows, Grows->>=, Grows-call, Grows-return, Grows-fail, Grows-inside, Grows-try_catch,
}
use otto_handler.Prelude.Resolves.{
  caught-Resolves, Makes, Makes-call, Makes-next, Makes->>=, Makes-inside, Makes-try_catch,
}
use otto_handler.Builds.Types.{
  Setting, delete_repository, delete_rule, delete_log_group, delete_build_project,
}
use otto_handler.Builds.Rules.{delete_rule_by_name}
use otto_handler.Builds.Rules.Permission.{Makes-delete_rule_by_name}
use otto_handler.Builds.LogGroups.{delete_group}
use otto_handler.Builds.Service.Deletion.{Makes-delete_group}
use otto_handler.Projects.Types.{
  Project, Call, builds, find_project, delete_pipelines, delete_row, with_builds, Ret,
}
use otto_handler.Projects.Service.Parts.{
  without_project, without_repository, if-named-Resolves, if-named-Grows, if-some-Makes,
  without_project-Makes, without_repository-Makes, without_repository-Grows,
}
use otto_handler.Projects.Service.{
  deleted_if, cleanup_rule, cleanup_project_aws_resources, unless_zero, delete_project,
}

module _ (env : Env Call Ret) (clock : Clock Call) (s : Setting) where
  -- The deletion of a rule and of a log group, as the clean-up calls them.
  abbrev without_rule : String → M Call (Unit {0})
  without_rule id =
      try_catch (with_builds env clock (λ e _. delete_rule_by_name e s (cleanup_rule s id)))
        (λ _. return tt)

  abbrev without_logs : String → M Call (Unit {0})
  without_logs name = with_builds env clock (λ e _. delete_group e name)

  abbrev after_repository : Project → M Call (Unit {0})
  after_repository p =
      without_rule p.project_id >> deleted_if env clock s p.cloudwatch_log_group without_logs

  abbrev after_project : Project → M Call (Unit {0})
  after_project p =
      deleted_if env clock s p.ecr_repository (without_repository env clock s) >> after_repository p

  logs-Grows : (p : Project) → Grows (deleted_if env clock s p.cloudwatch_log_group without_logs)
  logs-Grows p = if-named-Grows env clock s p.cloudwatch_log_group without_logs (λ name.
      Grows-inside {R = λ c. Ret (builds c)} builds (λ h c. env h (builds c)) clock
        (λ e _. delete_group e name))

  after_repository-Grows : (p : Project) → Grows (after_repository p)
  after_repository-Grows p =
      Grows->>= (without_rule p.project_id) _
        (Grows-try_catch _ (λ _. return tt)
          (Grows-inside {R = λ c. Ret (builds c)} builds (λ h c. env h (builds c)) clock
            (λ e _. delete_rule_by_name e s (cleanup_rule s p.project_id)))
          (λ _. Grows-return tt))
        (λ _. logs-Grows p)

  after_project-Grows : (p : Project) → Grows (after_project p)
  after_project-Grows p =
      Grows->>= (deleted_if env clock s p.ecr_repository (without_repository env clock s)) _
        (if-named-Grows env clock s p.ecr_repository (without_repository env clock s)
          (without_repository-Grows env clock s))
        (λ _. after_repository-Grows p)

  -- The clean-up of a project reaches each of its resources.
  module _ (p : Project) where
    skipped-project :
        (c : Call)
        → Makes c (after_project p)
        → Makes c (cleanup_project_aws_resources env clock s p)
    unfolding cleanup_project_aws_resources
    skipped-project c m =
        Makes-next (deleted_if env clock s p.codebuild_project_name (without_project env clock s))
          (after_project p) c
          (if-named-Resolves env clock s p.codebuild_project_name (without_project env clock s)) m

    skipped-repository : (c : Call) → Makes c (after_repository p) → Makes c (after_project p)
    skipped-repository c m =
        Makes-next (deleted_if env clock s p.ecr_repository (without_repository env clock s))
          (after_repository p) c
          (if-named-Resolves env clock s p.ecr_repository (without_repository env clock s)) m

    cleanup-project :
        (name : String)
        → p.codebuild_project_name ≡ some name
        → nonempty name ≡ true
        → Makes (builds (delete_build_project name)) (cleanup_project_aws_resources env clock s p)
    unfolding cleanup_project_aws_resources
    cleanup-project name f e =
        Makes->>= (deleted_if env clock s p.codebuild_project_name (without_project env clock s))
          (λ _. after_project p) (builds (delete_build_project name))
          (if-some-Makes env clock s p.codebuild_project_name name (without_project env clock s) _ f
            e (without_project-Makes env clock s name))
          (λ _. after_project-Grows p)

    cleanup-repository :
        (name : String)
        → p.ecr_repository ≡ some name
        → nonempty name ≡ true
        → Makes (builds (delete_repository name)) (cleanup_project_aws_resources env clock s p)
    cleanup-repository name f e = skipped-project (builds (delete_repository name)) (
        Makes->>= (deleted_if env clock s p.ecr_repository (without_repository env clock s))
          (λ _. after_repository p) (builds (delete_repository name))
          (if-some-Makes env clock s p.ecr_repository name (without_repository env clock s) _ f e
            (without_repository-Makes env clock s name))
          (λ _. after_repository-Grows p))

    cleanup-rule :
        Makes
          (builds (delete_rule (cleanup_rule s p.project_id)))
          (cleanup_project_aws_resources env clock s p)
    cleanup-rule =
        let rule = cleanup_rule s p.project_id in
        skipped-project (builds (delete_rule rule)) (
          skipped-repository (builds (delete_rule rule)) (
            Makes->>= (without_rule p.project_id)
              (λ _. deleted_if env clock s p.cloudwatch_log_group without_logs)
              (builds (delete_rule rule))
              (Makes-try_catch _ (λ _. return tt) (builds (delete_rule rule))
                (Makes-inside builds (λ h c. env h (builds c)) clock
                  (λ e _. delete_rule_by_name e s rule) (delete_rule rule)
                  (λ e _. Makes-delete_rule_by_name e s rule))
                (λ _. Grows-return tt))
              (λ _. logs-Grows p)))

    cleanup-logs :
        (name : String)
        → p.cloudwatch_log_group ≡ some name
        → nonempty name ≡ true
        → Makes (builds (delete_log_group name)) (cleanup_project_aws_resources env clock s p)
    cleanup-logs name f e = skipped-project (builds (delete_log_group name)) (
        skipped-repository (builds (delete_log_group name)) (
          Makes-next (without_rule p.project_id)
            (deleted_if env clock s p.cloudwatch_log_group without_logs)
            (builds (delete_log_group name)) (caught-Resolves _)
            (if-some-Makes env clock s p.cloudwatch_log_group name without_logs _ f e (
              Makes-inside builds (λ h c. env h (builds c)) clock (λ e _. delete_group e name)
                (delete_log_group name) (λ e _. Makes-delete_group e name)))))

  -- What is left of a deletion after the clean-up.
  abbrev rows_deleted : (id user : String) → M Call (Unit {0})
  rows_deleted id user = do
    call env (delete_pipelines id)
    affected ← call env (delete_row id user)
    unless_zero env clock s affected

  zero-Grows : (n : ℕ) → Grows (unless_zero env clock s n)
  zero-Grows zero = Grows-fail _
  zero-Grows (suc n) = Grows-return tt

  rows_deleted-Grows : (id user : String) → Grows (rows_deleted id user)
  rows_deleted-Grows id user =
      Grows->>= (call env (delete_pipelines id)) _ (Grows-call env (delete_pipelines id)) (λ _.
        Grows->>= (call env (delete_row id user)) (unless_zero env clock s)
          (Grows-call env (delete_row id user)) zero-Grows)

  rows_deleted-Makes : (id user : String) → Makes (delete_pipelines id) (rows_deleted id user)
  rows_deleted-Makes id user =
      Makes->>= (call env (delete_pipelines id)) _ (delete_pipelines id)
        (Makes-call env (delete_pipelines id))
        (λ _.
          Grows->>= (call env (delete_row id user)) (unless_zero env clock s)
            (Grows-call env (delete_row id user)) zero-Grows)

  abbrev cleaned : Project → M Call (Unit {0})
  cleaned p = try_catch (cleanup_project_aws_resources env clock s p) (λ _. return tt)

  kept_call :
      (p : Project) (c : Call) (id user : String)
      → Makes c (cleanup_project_aws_resources env clock s p)
      → Makes c (cleaned p >> rows_deleted id user)
  kept_call p c id user m =
      Makes->>= (cleaned p) (λ _. rows_deleted id user) c
        (Makes-try_catch (cleanup_project_aws_resources env clock s p) (λ _. return tt) c m
          (λ _. Grows-return tt))
        (λ _. rows_deleted-Grows id user)

  -- The deletion of a project that is found tries to delete the build project, the image repository and
  -- the log group that its row names, the rule of its id, and the rows of its pipelines, whatever fails.
  pub delete_project-Made :
      (id user : String) (h : List Call) (p : Project) (project repository group : String)
      → env h (find_project id user) ≡ resolve (some p)
      → p.codebuild_project_name ≡ some project
      → nonempty project ≡ true
      → p.ecr_repository ≡ some repository
      → nonempty repository ≡ true
      → p.cloudwatch_log_group ≡ some group
      → nonempty group ≡ true
      → Made
          (builds (delete_build_project project))
          (history (delete_project env clock s id user h))
        × Made
            (builds (delete_repository repository))
            (history (delete_project env clock s id user h))
        × Made
            (builds (delete_rule (cleanup_rule s p.project_id)))
            (history (delete_project env clock s id user h))
        × Made (builds (delete_log_group group)) (history (delete_project env clock s id user h))
        × Made (delete_pipelines id) (history (delete_project env clock s id user h))
  unfolding delete_project
  delete_project-Made id user h p project repository group f a a' b b' c c' =
      let start = find_project id user ∷ h in
      (
        rw f ((kept_call p _ id user (cleanup-project p project a a')).at start),
        rw f ((kept_call p _ id user (cleanup-repository p repository b b')).at start),
        rw f ((kept_call p _ id user (cleanup-rule p)).at start),
        rw f ((kept_call p _ id user (cleanup-logs p group c c')).at start),
        rw f (
            (Makes-next (cleaned p) (rows_deleted id user) (delete_pipelines id) (caught-Resolves _)
                (rows_deleted-Makes id user)).at
              start),
      )
