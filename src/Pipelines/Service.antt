-- ===== src/Pipelines/Service.antt =====
-- `PipelineService` of src/pipeline/pipeline.service.ts.
pub mod Images
pub mod Deletion
use otto_handler.Prelude.{
  ℕ, String, List, [], ◌∷◌, map, Option, none, some, truthy, or_text, nonempty, if◌then◌else◌,
}
use otto_handler.Prelude.Text.{template}
use otto_handler.Prelude.Effects.{
  Error, error, Env, Clock, M, ◌>>=◌, ◌>>◌, return, fail, call, now, try_catch, or_throw,
}
use otto_handler.BuildSpec.Types.{Node}
use otto_handler.Builds
use otto_handler.Builds.Types.{Started, Build}
use otto_handler.Builds.Registry.{generate_image_uri}
use otto_handler.Deployment.Cleanup.{cleanup_pipeline_resources}
use otto_handler.Deployment.Health.{check_deployment_health}
use otto_handler.Rollout
use otto_handler.Rollout.Service.{deploy_after_build}
use otto_handler.Pipelines.Types.{
  Project, PipelineData, DeployOption, Pipeline, CreatePipeline, UpdatePipeline, PipelineResponse,
  Executed, Latest, Deployed, Checked, Setting, Call, find_project, save_new, save, remove,
  find_mine, list_mine, count_mine, find_pipeline, update_images, find_latest, with_builds,
  with_rollouts, with_cleanups, with_checks, Ret,
}

abbrev pub not_found : String → Error
not_found m = record { name = "NotFoundException"; message = m }

abbrev pub no_pipeline : Error
no_pipeline = not_found "Pipeline not found or access denied"

-- `String(error)`
abbrev pub error_text : Error → String
error_text e =
    if nonempty e.name
    then (if nonempty e.message then template (e.name ∷ ": " ∷ e.message ∷ []) else e.name)
    else e.message

abbrev pub map_to_response_dto : Pipeline → PipelineResponse
map_to_response_dto p = record {
  pipeline_id = p.pipeline_id;
  project_id = p.project_id;
  pipeline_name = p.pipeline_name;
  content = p.content;
  ecr_image_uri = p.ecr_image_uri;
  image_tag = p.image_tag;
  created_at = p.created_at;
  updated_at = p.updated_at;
  deploy_url = p.deploy_url;
}

abbrev pub or_old : {A : Type 0} → Option A → A → A
or_old none old = old
or_old (some new) old = new

abbrev pub or_old_option : {A : Type 0} → Option A → Option A → Option A
or_old_option none old = old
or_old_option (some new) old = some new

unfoldable pub updated : UpdatePipeline → Pipeline → Pipeline
updated u p = record p {
  pipeline_name = or_old u.pipeline_name p.pipeline_name;
  content = or_old u.content p.content;
  variables = or_old_option u.variables p.variables;
  deploy_option = or_old_option u.deploy_option p.deploy_option;
}

-- `pipeline.data?.flowNodes || []`
abbrev pub flow_nodes_of : Pipeline → List Node
flow_nodes_of p = elim p.content.flow_nodes [ none ↦ [] | some nodes ↦ nodes ]

-- `if (projectId)`
abbrev pub filter_of : Option String → Option String
filter_of o = if truthy o then o else none

abbrev pub build_request : (pipeline : String) → Pipeline → Project → Builds.Types.NewBuild
build_request id p project = record {
  project_name = or_text project.codebuild_project_name "";
  user_id = project.user_id;
  project_id = project.project_id;
  pipeline_id = some id;
  flow_nodes = flow_nodes_of p;
}

abbrev pub executed : Started → String → Executed
executed b uri = record {
  build_id = b.build_id;
  build_number = b.build_number;
  image_tag = b.image_tag;
  ecr_image_uri = uri;
}

abbrev pub deployed : Latest → Deployed
deployed d = record { status = some d.status; deploy_url = d.deploy_url; updated_at = d.updated_at }

module _ (env : Env Call Ret) (clock : Clock Call) (s : Setting) where
  -- The pipeline with the id, if it is one of the user's.
  abbrev pub mine : (id user : String) → M Call Pipeline
  mine id user = do found ← call env (find_mine id user); or_throw found no_pipeline

  unfoldable pub create_pipeline : CreatePipeline → String → M Call PipelineResponse
  create_pipeline dto user = do
    found ← call env (find_project dto.project_id user)
    or_throw found (not_found "Project not found or access denied")
    p ← call env (save_new dto)
    return (map_to_response_dto p)

  unfoldable pub get_pipelines : Option String → String → M Call (List PipelineResponse)
  get_pipelines project user = do
    ps ← call env (list_mine user (filter_of project))
    return (map map_to_response_dto ps)

  unfoldable pub get_pipeline_by_id : (id user : String) → M Call PipelineResponse
  get_pipeline_by_id id user = do p ← mine id user; return (map_to_response_dto p)

  unfoldable pub update_pipeline : String → UpdatePipeline → String → M Call PipelineResponse
  unfolding updated
  update_pipeline id u user = do
    p ← mine id user
    p' ← call env (save (updated u p))
    return (map_to_response_dto p')

  abbrev pub deletion_failed : Error → Error
  deletion_failed e = error (template ("파이프라인 삭제 실패: " ∷ e.message ∷ []))

  abbrev pub delete_mine : String → Pipeline → M Call (Unit {0})
  delete_mine id p =
      try_catch
        (do
          with_cleanups env clock
              (λ e _. cleanup_pipeline_resources e s.rollout.config s.rollout.alb_name id)
          call env (remove p))
        (λ e. fail (deletion_failed e))

  unfoldable pub delete_pipeline : (id user : String) → M Call (Unit {0})
  unfolding cleanup_pipeline_resources
  delete_pipeline id user = do p ← mine id user; delete_mine id p

  unfoldable pub get_pipeline_count_by_project : (project user : String) → M Call ℕ
  get_pipeline_count_by_project project user = call env (count_mine project user)

  abbrev pub store_images : String → Started → String → M Call Executed
  store_images id b uri = do call env (update_images id uri b.image_tag); return (executed b uri)

  abbrev pub name_image : String → Project → Started → M Call Executed
  name_image id project b = do
    uri ←
        with_builds env clock
          (λ e _. generate_image_uri e s.builds project.user_id project.project_id b.build_number)
    store_images id b uri

  abbrev pub execute_in : String → Pipeline → Project → M Call Executed
  execute_in id p project =
      if truthy project.codebuild_project_name
      then (do
        b ←
            with_builds env clock
              (λ e c. Builds.Runs.start_build e c s.builds (build_request id p project))
        name_image id project b)
      else fail (error "CodeBuild project not configured for this project")

  abbrev pub execute_mine : String → Pipeline → M Call Executed
  execute_mine id p = do
    project ← or_throw p.project (not_found "Project not found")
    execute_in id p project

  unfoldable pub execute_pipeline : (id user : String) → M Call Executed
  unfolding Builds.Runs.start_build generate_image_uri
  execute_pipeline id user = do p ← mine id user; execute_mine id p

  abbrev pub deploy_built :
      (id user : String) → Option String → Pipeline → M Call Rollout.Types.Deployed
  deploy_built id user execution p =
      if truthy p.ecr_image_uri
      then with_rollouts env clock (λ e c. deploy_after_build e c s.rollout id user execution)
      else fail (error "ECR 이미지 URI가 없습니다. 빌드가 완료되지 않았을 수 있습니다.")

  unfoldable pub deploy_after_build_success :
      (id user : String) → Option String → M Call Rollout.Types.Deployed
  unfolding deploy_after_build
  deploy_after_build_success id user execution =
      try_catch
        (do
          found ← call env (find_pipeline id)
          p ← or_throw found (not_found "파이프라인을 찾을 수 없습니다")
          deploy_built id user execution p)
        (λ e. fail (error (template ("배포 실패: " ∷ error_text e ∷ []))))

  unfoldable pub get_build_status : (id build user : String) → M Call Build
  unfolding Builds.Runs.get_build_status
  get_build_status id build user = do
    mine id user
    with_builds env clock (λ e c. Builds.Runs.get_build_status e c s.builds build)

  abbrev pub check_url : Pipeline → M Call Checked
  check_url p =
      if truthy p.deploy_url
      then (do
        health ←
            with_checks env clock
              (λ e c. check_deployment_health e c s.development (or_text p.deploy_url ""))
        return (record { health = health; deploy_url = or_text p.deploy_url "" }))
      else fail (error "배포 URL이 설정되지 않았습니다")

  unfoldable pub get_deployment_health : (id user : String) → M Call Checked
  unfolding check_deployment_health
  get_deployment_health id user = do p ← mine id user; check_url p

  abbrev pub status_of : Option Latest → M Call Deployed
  status_of none = do
    time ← now clock
    return (record { status = none; deploy_url = none; updated_at = time })
  status_of (some d) = return (deployed d)

  unfoldable pub get_deployment_status : (id user : String) → M Call Deployed
  get_deployment_status id user = do
    mine id user
    found ← call env (find_latest id)
    status_of found
