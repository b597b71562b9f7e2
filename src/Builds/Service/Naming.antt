-- ===== src/Builds/Service/Naming.antt =====
-- The names of what src/codebuild/codebuild.service.ts creates for a project.
use otto_handler.Prelude.{◌≡◌, refl, ap, true, nonempty, String, [], ◌∷◌, Option, none, some}
use text.Mathlib.TextLemmas.{cons-append}
use otto_handler.Prelude.Text.{template}
use otto_handler.Prelude.Effects.{error, Env, Clock, return, call}
use otto_handler.Prelude.Yields.{
  Yields, Yields-return, Yields-fail, Yields->>=, Yields->>=_given, Yields-try_catch,
}
use otto_handler.Deployment.Rules.{message_of}
use otto_handler.Builds.Types.{
  Setting, Repository, ReadyRepository, Created, NewProject, Call, create_repository,
  caller_identity, create_build_project, Ret,
}
use otto_handler.Builds.Registry.{
  environment, repository_name, resource_tags, ready, find_repository, use_or_create,
  create_repository_if_not_exists,
}
use otto_handler.Builds.LogGroups.{create_group}
use otto_handler.Builds.Rules.{create_codebuild_event_rule}
use otto_handler.Builds.Runs.{build_error}
use otto_handler.Builds.Service.{
  build_project_name, log_group_of, build_project, created, create_in, create_project,
}

-- What is created for a project has the names that its id and its user give.
pub record Named (s : Setting) (user id : String) (c : Created) : Type 0 where
  pub project : c.project_name ≡ build_project_name s id
  pub repository : c.ecr_repository ≡ repository_name s user id
  pub group : c.log_group ≡ log_group_of s user id

pub nonempty-names :
    (s : Setting) (user id : String)
    → (nonempty (build_project_name s id) ≡ true)
      × (nonempty (repository_name s user id) ≡ true)
      × (nonempty (log_group_of s user id) ≡ true)
nonempty-names s user id = (
  ap nonempty (cons-append "o" "tto-" (template (environment s ∷ "-" ∷ id ∷ "-build" ∷ []))),
  ap nonempty (cons-append "o" "tto/" (template (environment s ∷ "/" ∷ user ∷ "/" ∷ id ∷ []))),
  ap nonempty (
      cons-append "/" "aws/codebuild/otto/"
        (template (environment s ∷ "/" ∷ user ∷ "/" ∷ id ∷ []))),
)

module _ (env : Env Call Ret) (s : Setting) (user id : String) where
  abbrev Ready : ReadyRepository → Type 0
  Ready r = r.repository_name ≡ repository_name s user id

  used-Ready : (found : Option Repository) → Yields Ready (use_or_create env s user id found)
  used-Ready (some r) = Yields-return Ready (ready (repository_name s user id) r) refl
  used-Ready none =
      Yields-try_catch Ready _ _
        (Yields->>= Ready
          (call env (create_repository (repository_name s user id) (resource_tags s user id)))
          (λ r. return (ready (repository_name s user id) r))
          (λ r. Yields-return Ready (ready (repository_name s user id) r) refl))
        (λ e. Yields-fail Ready (error (template ("ECR Repository 생성 실패: " ∷ message_of e ∷ []))))

  repository-Ready : Yields Ready (create_repository_if_not_exists env s user id)
  unfolding create_repository_if_not_exists
  repository-Ready =
      Yields->>= Ready (find_repository env s (repository_name s user id))
        (use_or_create env s user id) used-Ready

module _ (env : Env Call Ret) (clock : Clock Call) (s : Setting) (c : NewProject) where
  in-Named :
      (account : Option String) (r : ReadyRepository)
      → Ready env s c.user_id c.project_id r
      → Yields (Named s c.user_id c.project_id) (create_in env clock s c account r)
  unfolding created
  in-Named account r e =
      let P = Named s c.user_id c.project_id in
      Yields->>= P (create_group env (log_group_of s c.user_id c.project_id) 7) _ (λ _.
        Yields->>= P (call env (create_build_project (build_project s c account r))) _ (λ arn.
          Yields->>= P (create_codebuild_event_rule env s (build_project_name s c.project_id))
            (λ _. return (created s c r arn))
            (λ _.
              Yields-return P (created s c r arn)
                (record { project = refl; repository = e; group = refl }))))

  pub create_project-Named : Yields (Named s c.user_id c.project_id) (create_project env clock s c)
  unfolding create_project
  create_project-Named =
      let P = Named s c.user_id c.project_id in
      Yields-try_catch P _ _
        (Yields->>= P (call env caller_identity) _ (λ account.
          Yields->>=_given (Ready env s c.user_id c.project_id) P
            (create_repository_if_not_exists env s c.user_id c.project_id)
            (create_in env clock s c account) (repository-Ready env s c.user_id c.project_id)
            (in-Named account)))
        (λ e. Yields-fail P (build_error "CodeBuild 프로젝트 생성 실패: " e))
