-- ===== src/Projects/Types.antt =====
-- The rows and the external calls of src/project/project.service.ts, over the build services. An entity
-- holds the fields that the service reads or writes.
use otto_handler.Prelude.{ℕ, String, List, Option}
use otto_handler.Prelude.Effects.{Env, Clock, M}
use otto_handler.Prelude.Lift.{inside}
use otto_handler.BuildSpec.Types.{Node}
use otto_handler.Builds.Types

pub record Project : Type 0 where
  pub project_id : String
  pub user_id : String
  pub project_name : String
  pub project_description : Option String
  pub github_repository_name : String
  pub github_repository_id : String
  pub github_owner : String
  pub selected_branch : String
  pub installation_id : Option String
  pub codebuild_project_name : Option String
  pub codebuild_project_arn : Option String
  pub cloudwatch_log_group : Option String
  pub ecr_repository : Option String
  pub codebuild_status : Option String
  pub codebuild_error_message : Option String

-- `CreateProjectRequestDto`, with the fields that a client may give.
pub record CreateProject : Type 0 where
  pub project_name : String
  pub project_description : Option String
  pub github_repository_name : String
  pub github_repository_id : String
  pub github_owner : String
  pub selected_branch : String
  pub installation_id : Option String
  pub flow_nodes : Option (List Node)

-- `UpdateProjectRequestDto`: a field that is none is absent.
pub record UpdateProject : Type 0 where
  pub project_name : Option String
  pub project_description : Option String
  pub selected_branch : Option String

-- What the creation of a project has created so far.
pub record Resources : Type 0 where
  pub ecr_repository : Option String
  pub codebuild_project : Option String
  pub event_bridge_rule : Option String
  pub cloudwatch_log_group : Option String

-- `randomDigit` is `(Math.random() * 16) | 0`.
pub data Call : Type 0 where
  builds : Types.Call → Call
  random_digit : Call
  save_project : Project → Call
  find_project : (id user : String) → Call
  find_projects : String → Call
  delete_pipelines : String → Call
  delete_row : (id user : String) → Call

-- `deleteRow` gives the number of the rows deleted.
abbrev pub Ret : Call → Type 0
Ret (builds c) = Types.Ret c
Ret random_digit = ℕ
Ret (save_project p) = Project
Ret (find_project id user) = Option Project
Ret (find_projects user) = List Project
Ret (delete_row id user) = ℕ
Ret _ = Unit

-- A computation of the build services.
abbrev pub with_builds :
    {A : Type 0}
    → Env Call Ret
    → Clock Call
    → (Env Types.Call Types.Ret → Clock Types.Call → M Types.Call A)
    → M Call A
with_builds env clock run = inside builds (λ h c. env h (builds c)) clock run
