-- ===== src/Builds/Service/Undone.antt =====
-- What the creation of a build project leaves behind (src/codebuild/codebuild.service.ts).
use otto_handler.Prelude.{
  ◌≡◌, refl, ap, sym, ◌∙◌, ◌++◌, append_assoc, String, List, [], ◌∷◌, Option, none, some, truthy,
  or_text, str_eq, ltb, ℕ,
}
use otto_handler.Prelude.Text.{template}
use otto_handler.Prelude.Effects.{Error, error, Env, Clock, M, ◌>>◌, return, fail, call, when}
use otto_handler.Prelude.Keeps.{
  Keeps, Keeps-return, Keeps-fail, Keeps->>=, Keeps-try_catch, Keeps-if, Keeps-call,
}
use otto_handler.Deployment.Rules.{function_name, message_of}
use otto_handler.Builds.Types.{
  Setting, Repository, ReadyRepository, NewProject, Call, describe_repositories, create_repository,
  delete_repository, caller_identity, create_log_group, put_retention, delete_log_group, put_rule,
  put_targets, remove_targets, delete_rule, add_permission, remove_permission, create_build_project,
  delete_build_project, Ret,
}
use otto_handler.Builds.Registry.{
  repository_name, resource_tags, first_repository, ready, find_repository, use_or_create,
  create_repository_if_not_exists,
}
use otto_handler.Builds.LogGroups.{create_group}
use otto_handler.Builds.Rules.{
  rule_name, rule_permission, rule_arn, ignored, remove_lambda_permission, remove_rule,
  unless_missing, delete_rule_by_name, permission_failed, renew_permission, permit, add_target,
  rule_failed, create_codebuild_event_rule,
}
use otto_handler.Builds.Runs.{build_error}
use otto_handler.Builds.Service.{
  build_project_name, log_group_of, build_project, created, create_in, create_project,
}

-- The image repository, log group or build project that a call deletes.
abbrev pub target : Call → List String
target (delete_repository name) = name ∷ []
target (delete_log_group name) = name ∷ []
target (delete_build_project name) = name ∷ []
target _ = []

-- Those whose deletion was called, newest first.
unfoldable pub undone : List Call → List String
undone [] = []
undone (c ∷ cs) = target c ++ undone cs

pub undone-append : (k h : List Call) → undone (k ++ h) ≡ undone k ++ undone h
unfolding undone
undone-append [] h = refl
undone-append (c ∷ k) h =
    ap (λ rest. target c ++ rest) (undone-append k h)
    ∙ sym (append_assoc (target c) (undone k) (undone h))

module _ (env : Env Call Ret) (s : Setting) where
  abbrev creation : (user project : String) → Call
  creation user project =
      create_repository (repository_name s user project) (resource_tags s user project)

  new-Keeps :
      (user project : String) (found : Option Repository)
      → Keeps undone (use_or_create env s user project found)
  unfolding undone
  new-Keeps user project (some r) = Keeps-return undone (ready (repository_name s user project) r)
  new-Keeps user project none =
      Keeps-try_catch undone _ _
        (Keeps->>= undone (call env (creation user project))
          (λ r. return (ready (repository_name s user project) r))
          (Keeps-call undone env (creation user project) (λ h. refl))
          (λ r. Keeps-return undone (ready (repository_name s user project) r)))
        (λ e. Keeps-fail undone (error (template ("ECR Repository 생성 실패: " ∷ message_of e ∷ []))))

  repository-Keeps :
      (user project : String) → Keeps undone (create_repository_if_not_exists env s user project)
  unfolding create_repository_if_not_exists undone
  repository-Keeps user project =
      Keeps->>= undone (find_repository env s (repository_name s user project))
        (use_or_create env s user project)
        (Keeps-try_catch undone _ _
          (Keeps->>= undone (call env (describe_repositories (repository_name s user project)))
            (λ rs. return (first_repository rs))
            (Keeps-call undone env (describe_repositories (repository_name s user project))
              (λ h. refl))
            (λ rs. Keeps-return undone (first_repository rs)))
          (λ e.
            Keeps-if undone (str_eq e.name "RepositoryNotFoundException") _ _
              (Keeps-return undone none) (Keeps-fail undone e)))
        (new-Keeps user project)

  group-Keeps : (name : String) (days : ℕ) → Keeps undone (create_group env name days)
  unfolding create_group undone
  group-Keeps name days =
      Keeps-try_catch undone _ _
        (Keeps->>= undone (call env (create_log_group name))
          (λ _. when (ltb 0 days) (call env (put_retention name days)))
          (Keeps-call undone env (create_log_group name) (λ h. refl))
          (λ _.
            Keeps-if undone (ltb 0 days) _ _
              (Keeps-call undone env (put_retention name days) (λ h. refl))
              (Keeps-return undone tt)))
        (λ e.
          Keeps-if undone (str_eq e.name "ResourceAlreadyExistsException") _ _
            (Keeps-return undone tt) (Keeps-fail undone _))

  ignored-Keeps : (m : M Call (Unit {0})) → Keeps undone m → Keeps undone (ignored env s m)
  ignored-Keeps m k = Keeps-try_catch undone m (λ _. return tt) k (λ _. Keeps-return undone tt)

  removed-Keeps : (rule : String) → Keeps undone (remove_rule env s rule)
  unfolding undone
  removed-Keeps rule =
      Keeps->>= undone (remove_lambda_permission env s rule) (λ _. call env (delete_rule rule))
        (Keeps-if undone (truthy s.lambda_arn) _ _
          (ignored-Keeps _ (
            Keeps-call undone env
              (remove_permission (function_name (or_text s.lambda_arn "")) (rule_permission rule))
              (λ h. refl)))
          (Keeps-return undone tt))
        (λ _. Keeps-call undone env (delete_rule rule) (λ h. refl))

  rule_deleted-Keeps : (rule : String) → Keeps undone (delete_rule_by_name env s rule)
  unfolding delete_rule_by_name undone
  rule_deleted-Keeps rule =
      Keeps-try_catch undone
        (ignored env s (call env (remove_targets rule)) >> remove_rule env s rule)
        (unless_missing env s)
        (Keeps->>= undone (ignored env s (call env (remove_targets rule)))
          (λ _. remove_rule env s rule)
          (ignored-Keeps _ (Keeps-call undone env (remove_targets rule) (λ h. refl)))
          (λ _. removed-Keeps rule))
        (λ e.
          Keeps-if undone (str_eq e.name "ResourceNotFoundException") _ _ (Keeps-return undone tt)
            (Keeps-fail undone e))

  permission_failed-Keeps :
      (rule : String) (e : Error) → Keeps undone (permission_failed env s rule e)
  permission_failed-Keeps rule e =
      Keeps-if undone (str_eq e.name "ResourceConflictException") _ _ (Keeps-return undone tt) (
        Keeps->>= undone (delete_rule_by_name env s rule)
          (λ _. fail (error (template ("Lambda 권한 추가 실패: " ∷ message_of e ∷ []))))
          (rule_deleted-Keeps rule) (λ _. Keeps-fail undone _))

  permit-Keeps : (rule lambda : String) → Keeps undone (permit env s rule lambda)
  unfolding undone
  permit-Keeps rule lambda =
      let removal = remove_permission (function_name lambda) (rule_permission rule) in
      let addition =
        add_permission (function_name lambda) (rule_permission rule)
          (rule_arn s.region lambda rule) in
      Keeps-try_catch undone (renew_permission env s rule lambda) (permission_failed env s rule)
        (Keeps->>= undone (ignored env s (call env removal)) (λ _. call env addition)
          (ignored-Keeps _ (Keeps-call undone env removal (λ h. refl)))
          (λ _. Keeps-call undone env addition (λ h. refl)))
        (permission_failed-Keeps rule)

  target-Keeps : (rule : String) → Keeps undone (add_target env s rule)
  unfolding undone
  target-Keeps rule =
      let lambda = or_text s.lambda_arn "" in
      Keeps-if undone (truthy s.lambda_arn) _ _
        (Keeps->>= undone (call env (put_targets rule lambda))
          (λ _. permit env s rule lambda >> return rule)
          (Keeps-call undone env (put_targets rule lambda) (λ h. refl))
          (λ _.
            Keeps->>= undone (permit env s rule lambda) (λ _. return rule)
              (permit-Keeps rule lambda) (λ _. Keeps-return undone rule)))
        (Keeps-return undone rule)

  rule-Keeps : (name : String) → Keeps undone (create_codebuild_event_rule env s name)
  unfolding create_codebuild_event_rule undone
  rule-Keeps name =
      let rule = rule_name s.node_env name in
      Keeps-try_catch undone (call env (put_rule rule name) >> add_target env s rule)
        (rule_failed env s)
        (Keeps->>= undone (call env (put_rule rule name)) (λ _. add_target env s rule)
          (Keeps-call undone env (put_rule rule name) (λ h. refl)) (λ _. target-Keeps rule))
        (λ e. Keeps-fail undone _)

module _ (env : Env Call Ret) (clock : Clock Call) (s : Setting) where
  created-Keeps :
      (c : NewProject) (account : Option String) (r : ReadyRepository)
      → Keeps undone (create_in env clock s c account r)
  unfolding undone
  created-Keeps c account r =
      let project = build_project s c account r in
      Keeps->>= undone (create_group env (log_group_of s c.user_id c.project_id) 7) _
        (group-Keeps env s (log_group_of s c.user_id c.project_id) 7)
        (λ _.
          Keeps->>= undone (call env (create_build_project project)) _
            (Keeps-call undone env (create_build_project project) (λ h. refl))
            (λ arn.
              Keeps->>= undone
                (create_codebuild_event_rule env s (build_project_name s c.project_id))
                (λ _. return (created s c r arn))
                (rule-Keeps env s (build_project_name s c.project_id))
                (λ _. Keeps-return undone (created s c r arn))))

  -- The creation of a build project deletes no image repository, log group or build project, also where
  -- it fails.
  pub create_project-Keeps : (c : NewProject) → Keeps undone (create_project env clock s c)
  unfolding create_project undone
  create_project-Keeps c =
      Keeps-try_catch undone _ _
        (Keeps->>= undone (call env caller_identity) _
          (Keeps-call undone env caller_identity (λ h. refl))
          (λ account.
            Keeps->>= undone (create_repository_if_not_exists env s c.user_id c.project_id)
              (create_in env clock s c account) (repository-Keeps env s c.user_id c.project_id)
              (created-Keeps c account)))
        (λ e. Keeps-fail undone (build_error "CodeBuild 프로젝트 생성 실패: " e))
