-- ===== src/Builds/Runs.antt =====
-- The builds of `CodeBuildService` of src/codebuild/codebuild.service.ts: how one is started, and its
-- status.
pub mod Starts
use otto_handler.Prelude.{
  ℕ, zero, suc, Bool, true, false, String, List, [], ◌∷◌, Option, none, some, truthy, or_text,
  nonempty, str_eq, if◌then◌else◌,
}
use otto_handler.Prelude.Text.{template, split, part_at, shown_part}
use otto_handler.Prelude.Json.{Metadata, text}
use otto_handler.Prelude.Effects.{
  Error, error, Env, Clock, M, ◌>>=◌, ◌>>◌, return, fail, call, now, try_catch, when, or_throw,
}
use otto_handler.BuildSpec.Types.{Node, BuildSpec}
use otto_handler.BuildSpec.Generator.{generate_build_spec}
use otto_handler.Cloudwatch.Types.{Execution}
use otto_handler.Cloudwatch.Service.{start_polling}
use otto_handler.Builds.Types.{
  Setting, ReadyRepository, BuildProject, NewProject, Created, NewBuild, Started, Build,
  NewExecution, Call, caller_identity, create_build_project, delete_build_project, start_codebuild,
  get_builds, save_execution, get_cloudwatch_service, with_logs, Ret,
}
use otto_handler.Builds.Registry.{
  environment, resource_tags, create_repository_if_not_exists, generate_image_tag,
  delete_image_repository,
}
use otto_handler.Builds.LogGroups.{create_group, delete_group}
use otto_handler.Builds.Rules.{create_codebuild_event_rule, delete_codebuild_event_rule}

-- The variables of a build.
abbrev pub overrides : Setting → NewBuild → ℕ → List (String × String)
overrides s c time =
    ("PIPELINE_ID", or_text c.pipeline_id "manual")
    ∷ ("EXECUTION_TIMESTAMP", s.to_iso time)
    ∷ ("OTTO_USER_ID", c.user_id)
    ∷ ("OTTO_PROJECT_ID", c.project_id)
    ∷ []

abbrev pub spec_override : List Node → Option BuildSpec
spec_override [] = none
spec_override (node ∷ nodes) = some (generate_build_spec (node ∷ nodes))

-- `build?.id`, if it is not empty
abbrev pub id_of : Option Build → Option String
id_of none = none
id_of (some b) = if truthy b.id then b.id else none

-- `build?.buildNumber`, if it is not 0
abbrev pub nonzero : Option ℕ → Option ℕ
nonzero none = none
nonzero (some zero) = none
nonzero (some (suc n)) = some (suc n)

abbrev pub number_of : Option Build → Option ℕ
number_of none = none
number_of (some b) = nonzero b.build_number

abbrev pub first_build : List Build → Option Build
first_build [] = none
first_build (b ∷ bs) = some b

abbrev pub tag_of : NewBuild → String → String
tag_of c number = generate_image_tag c.user_id c.project_id number

unfoldable pub new_execution : NewBuild → (build number : String) → ℕ → NewExecution
new_execution c build number time = record {
  execution_id = part_at 1 (split b':' build);
  aws_build_id = build;
  project_id = c.project_id;
  pipeline_id = or_text c.pipeline_id "";
  user_id = c.user_id;
  log_stream_name = part_at 1 (split b':' build);
  started_at = time;
  metadata =
      ("source", text "otto-ui")
      ∷ ("buildNumber", text number)
      ∷ ("imageTag", text (tag_of c number))
      ∷ ("projectName", text c.project_name)
      ∷ [];
}

abbrev pub build_error : String → Error → Error
build_error what e = error (template (what ∷ e.message ∷ []))

module _ (env : Env Call Ret) (clock : Clock Call) (s : Setting) where
  abbrev pub looked_up : Option ℕ → M Call String
  looked_up none = do time ← now clock; return (s.to_text time)
  looked_up (some n) = return (s.to_text n)

  -- The number of the build: as it was started, looked up, or the time in its place.
  abbrev pub number_or_time : String → Option ℕ → M Call String
  number_or_time id (some n) = return (s.to_text n)
  number_or_time id none = do
    builds ← call env (get_builds id)
    looked_up (number_of (first_build builds))

  abbrev pub poll_if : Execution → Bool → M Call (Unit {0})
  poll_if x there =
      if (if there then truthy x.log_stream_name else false)
      then (do with_logs env clock (λ e c. start_polling e c x); return tt)
      else return tt

  -- A poller that cannot be started is only logged.
  abbrev pub poll_now : Execution → M Call (Unit {0})
  poll_now x =
      try_catch (do there ← call env get_cloudwatch_service; poll_if x there) (λ _. return tt)

  -- A row that cannot be stored is only logged.
  unfoldable pub record_execution : NewBuild → (build number : String) → M Call (Unit {0})
  unfolding new_execution start_polling
  record_execution c build number =
      try_catch
        (do
          time ← now clock
          x ← call env (save_execution (new_execution c build number time))
          poll_now x)
        (λ _. return tt)

  abbrev pub started : NewBuild → (build number : String) → Started
  started c build number = record {
    build_id = build;
    build_number = number;
    image_tag = tag_of c number;
  }

  abbrev pub is_eventbridge : Bool
  is_eventbridge = str_eq (or_text s.use_eventbridge "") "true"

  abbrev pub finish : NewBuild → (build number : String) → M Call Started
  finish c build number = do
    when is_eventbridge (record_execution c build number)
    return (started c build number)

  abbrev pub numbered : NewBuild → Option Build → String → M Call Started
  numbered c b build = do number ← number_or_time build (number_of b); finish c build number

  unfoldable pub start_build : NewBuild → M Call Started
  unfolding record_execution
  start_build c =
      try_catch
        (do
          time ← now clock
          b ←
              call env
                (start_codebuild c.project_name (overrides s c time) (spec_override c.flow_nodes))
          build ← or_throw (id_of b) (error "Failed to get build ID from CodeBuild response")
          numbered c b build)
        (λ e. fail (build_error "빌드 실행 실패: " e))

  -- The status of a build that is none is `UNKNOWN`.
  abbrev pub known_status : Build → Build
  known_status b = record b { build_status = some (or_text b.build_status "UNKNOWN") }

  unfoldable pub get_build_status : String → M Call Build
  get_build_status id =
      try_catch
        (do
          builds ← call env (get_builds id)
          b ← or_throw (first_build builds) (error (template ("Build not found: " ∷ id ∷ [])))
          return (known_status b))
        (λ e. fail (build_error "빌드 상태 조회 실패: " e))
