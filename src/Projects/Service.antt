-- ===== src/Projects/Service.antt =====
-- `ProjectService` of src/project/project.service.ts.
pub mod Creation
pub mod Rollback
pub mod Deletion
pub mod Parts
use otto_handler.Prelude.{
  ℕ, zero, suc, ◌+◌, ◌%◌, Bool, String, List, [], ◌∷◌, Option, none, some, truthy, or_text, ◌==◌,
  if◌then◌else◌,
}
use Prim.Native.String
use Prim.Native.Char.{code}
use otto_handler.Prelude.Text.{template, part_at, shown_part}
use otto_handler.Prelude.Effects.{
  Error, error, Env, Clock, M, ◌>>=◌, ◌>>◌, return, fail, call, try_catch,
}
use otto_handler.BuildSpec.Types.{Node}
use otto_handler.Builds
use otto_handler.Builds.Types.{Setting, Created, NewProject}
use otto_handler.Builds.Registry.{delete_image_repository}
use otto_handler.Builds.LogGroups.{delete_group}
use otto_handler.Builds.Rules.{delete_rule_by_name}
use otto_handler.Projects.Types.{
  Project, CreateProject, UpdateProject, Resources, Call, random_digit, save_project, find_project,
  find_projects, delete_pipelines, delete_row, with_builds, Ret,
}

-- `v.toString(16)` for a digit.
abbrev pub hex : ℕ → String
hex n = shown_part (
    part_at n (
      "0" ∷ "1" ∷ "2" ∷ "3" ∷ "4" ∷ "5" ∷ "6" ∷ "7" ∷ "8" ∷ "9" ∷ "a" ∷ "b" ∷ "c" ∷ "d" ∷ "e" ∷ "f"
      ∷ []))

abbrev pub nodes_or_none : Option (List Node) → List Node
nodes_or_none none = []
nodes_or_none (some nodes) = nodes

abbrev pub build_request : CreateProject → (user id : String) → NewProject
build_request dto user id = record {
  user_id = user;
  project_id = id;
  project_name = dto.project_name;
  github_repository_url =
      template ("https://github.com/" ∷ dto.github_owner ∷ "/" ∷ dto.github_repository_name ∷ []);
  branch = dto.selected_branch;
  flow_nodes = nodes_or_none dto.flow_nodes;
  build_image = none;
  compute_type = none;
  timeout_in_minutes = none;
}

abbrev pub new_project : CreateProject → (user id : String) → Created → Project
new_project dto user id c = record {
  project_id = id;
  user_id = user;
  project_name = dto.project_name;
  project_description = dto.project_description;
  github_repository_name = dto.github_repository_name;
  github_repository_id = dto.github_repository_id;
  github_owner = dto.github_owner;
  selected_branch = dto.selected_branch;
  installation_id = dto.installation_id;
  codebuild_project_name = some c.project_name;
  codebuild_project_arn = some c.arn;
  cloudwatch_log_group = some c.log_group;
  ecr_repository = some c.ecr_repository;
  codebuild_status = some "SUCCESS";
  codebuild_error_message = none;
}

abbrev pub none_created : Resources
none_created = record {
  ecr_repository = none;
  codebuild_project = none;
  event_bridge_rule = none;
  cloudwatch_log_group = none;
}

abbrev pub resources_of : String → Created → Resources
resources_of id c = record {
  ecr_repository = some c.ecr_repository;
  codebuild_project = some c.project_name;
  event_bridge_rule = some (template ("otto-dev-" ∷ id ∷ []));
  cloudwatch_log_group = some c.log_group;
}

abbrev pub creation_error : Error → Error
creation_error e = error (template ("프로젝트 생성 실패: " ∷ e.message ∷ []))

-- `NotFoundException`
abbrev pub not_found : String → Error
not_found m = record { name = "NotFoundException"; message = m }

abbrev pub or_old : Option String → String → String
or_old none old = old
or_old (some new) old = new

abbrev pub or_old_description : Option String → Option String → Option String
or_old_description none old = old
or_old_description (some new) old = some new

-- `Object.assign(project, updateDto)`
abbrev pub assigned : Project → UpdateProject → Project
assigned p u = record p {
  project_name = or_old u.project_name p.project_name;
  project_description = or_old_description u.project_description p.project_description;
  selected_branch = or_old u.selected_branch p.selected_branch;
}

-- The rule that the clean-up of a project names.
abbrev pub cleanup_rule : Setting → String → String
cleanup_rule s id = template ("otto-" ∷ or_text s.node_env "development" ∷ "-" ∷ id ∷ [])

module _ (env : Env Call Ret) (clock : Clock Call) (s : Setting) where
  -- The pattern with a random digit for each x, and one of 8, 9, a and b for each y.
  unfoldable pub fill : String → M Call String
  fill String.[] = return ""
  fill (String.◌∷◌ c rest) =
      let more = fill rest in
      if code c == b'x'
      then (do r ← call env random_digit; t ← more; return (String.◌++◌ (hex r) t))
      else if code c == b'y'
      then (do r ← call env random_digit; t ← more; return (String.◌++◌ (hex (r % 4 + 8)) t))
      else (do t ← more; return (String.◌∷◌ c t))

  unfoldable pub generate_project_id : M Call String
  unfolding fill
  generate_project_id = fill "xxxxxxxx-xxxx-4xxx-yxxx-xxxxxxxxxxxx"

  -- `if (name) { ... .catch(...) }`
  abbrev pub deleted_if : Option String → (String → M Call (Unit {0})) → M Call (Unit {0})
  deleted_if name delete =
      if truthy name then try_catch (delete (or_text name "")) (λ _. return tt) else return tt

  -- The deletions are started together; each is followed to its end here, as none depends on another.
  unfoldable pub rollback_created_resources : Resources → M Call (Unit {0})
  unfolding Builds.Service.delete_project delete_image_repository
      Builds.Service.delete_cloudwatch_log_group
  rollback_created_resources r = do
    deleted_if r.codebuild_project
        (λ name. with_builds env clock (λ e c. Builds.Service.delete_project e c s name))
    deleted_if r.ecr_repository
        (λ name. with_builds env clock (λ e c. delete_image_repository e s name))
    deleted_if r.cloudwatch_log_group (λ name.
        with_builds env clock (λ e c. Builds.Service.delete_cloudwatch_log_group e c s name))

  -- A failure takes back what has been created by then.
  abbrev pub or_roll_back : {A : Type 0} → Resources → M Call A → M Call A
  or_roll_back r m = try_catch m (λ e. do rollback_created_resources r; fail (creation_error e))

  abbrev pub create_build : CreateProject → (user id : String) → M Call Created
  create_build dto user id =
      with_builds env clock (λ e c. Builds.Service.create_project e c s (build_request dto user id))

  abbrev pub create_with : CreateProject → (user id : String) → M Call Project
  create_with dto user id = do
    c ← or_roll_back none_created (create_build dto user id)
    or_roll_back (resources_of id c) (call env (save_project (new_project dto user id c)))

  unfoldable pub create_project : CreateProject → String → M Call Project
  unfolding generate_project_id rollback_created_resources Builds.Service.create_project
  create_project dto user = do
    id ← or_roll_back none_created generate_project_id
    create_with dto user id

  unfoldable pub get_projects_by_user_id : String → M Call (List Project)
  get_projects_by_user_id user = call env (find_projects user)

  unfoldable pub get_project_by_id : (id user : String) → M Call (Option Project)
  get_project_by_id id user = call env (find_project id user)

  abbrev pub update_found : UpdateProject → Option Project → M Call Project
  update_found u none = fail (not_found "Project not found")
  update_found u (some p) = call env (save_project (assigned p u))

  unfoldable pub update_project : String → UpdateProject → String → M Call Project
  update_project id u user = do found ← call env (find_project id user); update_found u found

  -- The resources of a project, each as far as it can be deleted.
  unfoldable pub cleanup_project_aws_resources : Project → M Call (Unit {0})
  unfolding Builds.Service.delete_project delete_image_repository delete_rule_by_name delete_group
  cleanup_project_aws_resources p = do
    deleted_if p.codebuild_project_name
        (λ name. with_builds env clock (λ e c. Builds.Service.delete_project e c s name))
    deleted_if p.ecr_repository
        (λ name. with_builds env clock (λ e c. delete_image_repository e s name))
    try_catch (with_builds env clock (λ e c. delete_rule_by_name e s (cleanup_rule s p.project_id)))
        (λ _. return tt)
    deleted_if p.cloudwatch_log_group (λ name. with_builds env clock (λ e c. delete_group e name))

  abbrev pub unless_zero : ℕ → M Call (Unit {0})
  unless_zero zero = fail (not_found "Project not found")
  unless_zero (suc n) = return tt

  abbrev pub delete_found : (id user : String) → Option Project → M Call (Unit {0})
  delete_found id user none = fail (not_found "Project not found")
  delete_found id user (some p) = do
    try_catch (cleanup_project_aws_resources p) (λ _. return tt)
    call env (delete_pipelines id)
    affected ← call env (delete_row id user)
    unless_zero affected

  unfoldable pub delete_project : (id user : String) → M Call (Unit {0})
  unfolding cleanup_project_aws_resources
  delete_project id user = do found ← call env (find_project id user); delete_found id user found
