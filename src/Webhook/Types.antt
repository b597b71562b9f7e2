-- ===== src/Webhook/Types.antt =====
-- The payload, the rows and the external calls of src/github-app/github-webhook.service.ts. A payload
-- holds the fields that are read for more than a log message.
use otto_handler.Prelude.{ℕ, String, List, Option}
use otto_handler.Auth.Types.{User}

-- A GitHub account: that of an installation, or the sender of an event.
pub record Account : Type 0 where
  pub login : String
  pub id : ℕ
  pub account_type : String

pub record Installation : Type 0 where
  pub id : ℕ
  pub account : Account

pub record PullRequest : Type 0 where
  pub number : ℕ
  pub head_ref : String
  pub base_ref : String

-- Of the repository, its id.
pub record Payload : Type 0 where
  pub action : Option String
  pub installation : Option Installation
  pub repository : Option ℕ
  pub ref : Option String
  pub pull_request : Option PullRequest
  pub sender : Option Account

pub record GithubApp : Type 0 where
  pub installation_id : String
  pub user_id : String
  pub account_login : String
  pub account_type : String

pub record Project : Type 0 where
  pub project_id : String
  pub project_name : String

pub data Call : Type 0 where
  find_projects : (installation repository branch : String) → Call
  count_projects : (repository branch : String) → Call
  find_app : String → Call
  find_apps : (login account_type user : String) → Call
  save_app : GithubApp → Call
  delete_app : String → Call
  update_projects : (installation : String) → Call
  all_users : Call
  find_user : ℕ → Call
  find_user_named : String → Call

abbrev pub Ret : Call → Type 0
Ret (find_projects installation repository branch) = List Project
Ret (count_projects repository branch) = ℕ
Ret (find_app id) = Option GithubApp
Ret (find_apps login account_type user) = List GithubApp
Ret (save_app app) = GithubApp
Ret all_users = List User
Ret (find_user id) = Option User
Ret (find_user_named name) = Option User
Ret _ = Unit
