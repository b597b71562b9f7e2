-- ===== src/Builds/Service.antt =====
-- `CodeBuildService` of src/codebuild/codebuild.service.ts: the build projects.
pub mod Names
pub mod Undone
pub mod Naming
pub mod Deletion
use otto_handler.Prelude.{
  ℕ, zero, suc, Bool, true, false, String, List, [], ◌∷◌, Option, none, some, truthy, or_text,
  nonempty, str_eq, if◌then◌else◌,
}
use otto_handler.Prelude.Text.{template, split, part_at, shown_part}
use otto_handler.Prelude.Json.{Metadata, text}
use otto_handler.Prelude.Effects.{
  Error, error, Env, Clock, M, ◌>>=◌, ◌>>◌, return, fail, call, now, try_catch, when, or_throw,
}
use otto_handler.BuildSpec.Types.{Node, BuildSpec}
use otto_handler.BuildSpec.Generator.{generate_build_spec}
use otto_handler.Cloudwatch.Types.{Execution}
use otto_handler.Cloudwatch.Service.{start_polling}
use otto_handler.Builds.Types.{
  Setting, ReadyRepository, BuildProject, NewProject, Created, NewBuild, Started, Build,
  NewExecution, Call, caller_identity, create_build_project, delete_build_project, start_codebuild,
  get_builds, save_execution, get_cloudwatch_service, with_logs, Ret,
}
use otto_handler.Builds.Registry.{
  environment, resource_tags, create_repository_if_not_exists, generate_image_tag,
  delete_image_repository,
}
use otto_handler.Builds.LogGroups.{create_group, delete_group}
use otto_handler.Builds.Rules.{create_codebuild_event_rule, delete_codebuild_event_rule}
use otto_handler.Builds.Runs.{build_error}

abbrev pub build_project_name : Setting → String → String
build_project_name s project = template ("otto-" ∷ environment s ∷ "-" ∷ project ∷ "-build" ∷ [])

abbrev pub log_group_of : Setting → (user project : String) → String
log_group_of s user project =
    template ("/aws/codebuild/otto/" ∷ environment s ∷ "/" ∷ user ∷ "/" ∷ project ∷ [])

abbrev pub service_role : Setting → Option String → String → String
service_role s account name = or_text s.service_role_arn (
    template
      ("arn:aws:iam::" ∷ shown_part account ∷ ":role/codebuild-" ∷ name ∷ "-service-role" ∷ []))

-- `timeoutInMinutes || 60`
abbrev pub timeout_or_hour : Option ℕ → ℕ
timeout_or_hour none = 60
timeout_or_hour (some zero) = 60
timeout_or_hour (some (suc n)) = suc n

unfoldable pub build_project : Setting → NewProject → Option String → ReadyRepository → BuildProject
build_project s c account r = record {
  name = build_project_name s c.project_id;
  description = template ("Otto project: " ∷ c.project_name ∷ []);
  location = c.github_repository_url;
  build_spec = generate_build_spec c.flow_nodes;
  source_version = c.branch;
  image = or_text c.build_image "aws/codebuild/standard:7.0";
  compute_type = or_text c.compute_type "BUILD_GENERAL1_MEDIUM";
  timeout_in_minutes = timeout_or_hour c.timeout_in_minutes;
  log_group = log_group_of s c.user_id c.project_id;
  service_role = service_role s account (build_project_name s c.project_id);
  variables =
      ("AWS_ACCOUNT_ID", shown_part account)
      ∷ ("AWS_DEFAULT_REGION", s.region)
      ∷ ("IMAGE_REPO_NAME", r.repository_name)
      ∷ ("USER_ID", c.user_id)
      ∷ ("PROJECT_ID", c.project_id)
      ∷ ("PROJECT_NAME", c.project_name)
      ∷ ("NODE_ENV", environment s)
      ∷ [];
  tags = resource_tags s c.user_id c.project_id;
}

unfoldable pub created : Setting → NewProject → ReadyRepository → Option String → Created
created s c r arn = record {
  arn = or_text arn "";
  project_name = build_project_name s c.project_id;
  log_group = log_group_of s c.user_id c.project_id;
  ecr_repository = r.repository_name;
  ecr_repository_uri = r.repository_uri;
}

module _ (env : Env Call Ret) (clock : Clock Call) (s : Setting) where
  abbrev pub create_in : NewProject → Option String → ReadyRepository → M Call Created
  create_in c account r = do
    create_group env (log_group_of s c.user_id c.project_id) 7
    arn ← call env (create_build_project (build_project s c account r))
    create_codebuild_event_rule env s (build_project_name s c.project_id)
    return (created s c r arn)

  unfoldable pub create_project : NewProject → M Call Created
  unfolding create_repository_if_not_exists create_group create_codebuild_event_rule build_project
      created
  create_project c =
      try_catch
        (do
          account ← call env caller_identity
          r ← create_repository_if_not_exists env s c.user_id c.project_id
          create_in c account r)
        (λ e. fail (build_error "CodeBuild 프로젝트 생성 실패: " e))

  unfoldable pub delete_project : String → M Call (Unit {0})
  unfolding delete_codebuild_event_rule
  delete_project name =
      try_catch
        (do
          try_catch (delete_codebuild_event_rule env s name) (λ _. return tt)
          call env (delete_build_project name))
        (λ e.
          if str_eq e.name "ResourceNotFoundException"
          then return tt
          else fail (build_error "CodeBuild 프로젝트 삭제 실패: " e))

  unfoldable pub delete_ecr_repository : String → M Call (Unit {0})
  unfolding delete_image_repository
  delete_ecr_repository name = delete_image_repository env s name

  unfoldable pub delete_cloudwatch_log_group : String → M Call (Unit {0})
  unfolding delete_group
  delete_cloudwatch_log_group name = delete_group env name
