-- ===== src/GithubApp/Types.antt =====
-- The rows, the configuration and the external calls of src/github-app/github-app.service.ts.
use otto_handler.Prelude.{ℕ, Bool, String, List, Option}

pub record Owner : Type 0 where
  pub login : String
  pub id : ℕ
  pub avatar_url : String
  pub owner_type : String

-- A repository, with the fields of the API's answer that are copied.
pub record Repository : Type 0 where
  pub id : ℕ
  pub name : String
  pub full_name : String
  pub owner : Owner
  pub description : Option String
  pub is_private : Bool
  pub html_url : String
  pub clone_url : String
  pub ssh_url : String
  pub default_branch : String
  pub language : Option String
  pub stargazers_count : ℕ
  pub forks_count : ℕ
  pub open_issues_count : ℕ
  pub archived : Bool
  pub disabled : Bool
  pub pushed_at : Option String
  pub created_at : Option String
  pub updated_at : Option String

pub record Branch : Type 0 where
  pub name : String
  pub sha : String
  pub url : String
  pub is_protected : Bool

-- A row of the table of installations.
pub record GithubApp : Type 0 where
  pub installation_id : String
  pub account_login : String
  pub account_type : String
  pub created_at : ℕ
  pub updated_at : ℕ

-- A project, with whether its installation is there.
pub record Project : Type 0 where
  pub has_app : Bool
  pub github_repository_name : Option String
  pub github_owner : Option String
  pub installation_id : Option String

pub record Installation : Type 0 where
  pub id : String
  pub login : String
  pub account_id : ℕ
  pub account_type : String
  pub avatar_url : String
  pub repository_selection : String
  pub created_at : String
  pub updated_at : String

pub record InstallationUrl : Type 0 where
  pub installation_url : String
  pub app_slug : String

-- What the service reads of the configuration, `parseInt`, which may give no number, and `toISOString`.
pub record Setting : Type 0 where
  pub app_id : Option String
  pub private_key : Option String
  pub app_slug : Option String
  pub parse_int : String → Option ℕ
  pub to_iso : ℕ → String

-- `installationOctokit` is a client for the calls of an installation; `listRepositories` and
-- `listBranches` ask for a page of that many.
pub data Call : Type 0 where
  new_app : Option ℕ → (key : String) → Call
  installation_octokit : Option ℕ → Call
  list_repositories : Option ℕ → ℕ → Call
  list_branches : Option ℕ → (owner repo : String) → ℕ → Call
  find_project : (id user : String) → Call
  find_apps : (user : String) → Call
  find_newest_apps : (user : String) → Call

abbrev pub Ret : Call → Type 0
Ret (list_repositories id page) = List Repository
Ret (list_branches id owner repo page) = List Branch
Ret (find_project id user) = Option Project
Ret (find_apps user) = List GithubApp
Ret (find_newest_apps user) = List GithubApp
Ret _ = Unit
