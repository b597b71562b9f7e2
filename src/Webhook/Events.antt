-- ===== src/Webhook/Events.antt =====
-- `GithubWebhookService` of src/github-app/github-webhook.service.ts.
pub mod Links
use otto_handler.Prelude.{
  ℕ, Bool, true, false, String, List, [], ◌∷◌, Option, none, some, truthy, or_text, is_some, str_eq,
  if◌then◌else◌,
}
use otto_handler.Prelude.Text.{remove_first}
use otto_handler.Prelude.Effects.{Env, M, ◌>>=◌, ◌>>◌, return, call, for_each}
use otto_handler.Auth.Types.{User}
use otto_handler.Webhook.Types.{
  Account, Installation, PullRequest, Payload, GithubApp, Project, Call, find_projects,
  count_projects, find_app, find_apps, save_app, delete_app, update_projects, all_users, find_user,
  find_user_named, Ret,
}

abbrev pub is_organization : Account → Bool
is_organization account = str_eq account.account_type "Organization"

-- The start of a pipeline, which only writes log messages.
abbrev pub trigger_otto_pipeline : Project → M Call (Unit {0})
trigger_otto_pipeline project = return tt

-- `to_text` is Number.prototype.toString.
module _ (env : Env Call Ret) (to_text : ℕ → String) where
  abbrev pub trigger_all : (installation repository : ℕ) → String → M Call (Unit {0})
  trigger_all installation repository branch = do
    projects ← call env (find_projects (to_text installation) (to_text repository) branch)
    for_each projects trigger_otto_pipeline

  abbrev pub push_to : Option ℕ → Option Installation → Option String → M Call (Unit {0})
  push_to (some repository) (some installation) (some ref) =
      if truthy (some ref)
      then trigger_all installation.id repository (remove_first "refs/heads/" ref)
      else return tt
  push_to _ _ _ = return tt

  unfoldable pub handle_push_event : Payload → M Call (Unit {0})
  unfolding remove_first
  handle_push_event payload = push_to payload.repository payload.installation payload.ref

  -- A new branch is only logged.
  abbrev pub handle_branch_create_event : Payload → M Call (Unit {0})
  handle_branch_create_event payload = return tt

  abbrev pub count_branch : Option ℕ → Option String → M Call (Unit {0})
  count_branch (some repository) (some ref) =
      if truthy (some ref)
      then (do call env (count_projects (to_text repository) ref); return tt)
      else return tt
  count_branch _ _ = return tt

  -- The count only decides on a warning.
  unfoldable pub handle_branch_delete_event : Payload → M Call (Unit {0})
  handle_branch_delete_event payload = count_branch payload.repository payload.ref

  abbrev pub pull_from :
      Option ℕ → Option PullRequest → Option Installation → String → M Call (Unit {0})
  pull_from (some repository) (some request) (some installation) action =
      if str_eq action "opened"
      then trigger_all installation.id repository request.head_ref
      else if str_eq action "synchronize"
      then trigger_all installation.id repository request.head_ref
      else return tt
  pull_from _ _ _ action = return tt

  unfoldable pub handle_pull_request_event : Payload → M Call (Unit {0})
  handle_pull_request_event payload =
      pull_from payload.repository payload.pull_request payload.installation
        (or_text payload.action "")

  -- The user with the account's GitHub id, or else with its login.
  abbrev pub or_named : Option User → String → M Call (Option User)
  or_named (some user) login = return (some user)
  or_named none login = call env (find_user_named login)

  abbrev pub find_account : Account → M Call (Option User)
  find_account account = do found ← call env (find_user account.id); or_named found account.login

  abbrev pub find_sender : Option Account → M Call (Option User)
  find_sender none = return none
  find_sender (some sender) = find_account sender

  -- An organization is looked up by the account that installs the app.
  unfoldable pub find_installer : Installation → Option Account → M Call (Option User)
  find_installer installation sender =
      if is_organization installation.account
      then find_sender sender
      else find_account installation.account

  abbrev pub app_of : Installation → User → GithubApp
  app_of installation user = record {
    installation_id = to_text installation.id;
    user_id = user.user_id;
    account_login = installation.account.login;
    account_type = installation.account.account_type;
  }

  abbrev pub updated_app : Installation → User → GithubApp → GithubApp
  updated_app installation user app = record app {
    user_id = user.user_id;
    account_login = installation.account.login;
    account_type = installation.account.account_type;
  }

  -- A row that is there is updated; a new one is read back, for a log message.
  abbrev pub store_app : Installation → User → Option GithubApp → M Call (Unit {0})
  store_app installation user (some app) = do
    call env (save_app (updated_app installation user app))
    return tt
  store_app installation user none = do
    call env (save_app (app_of installation user))
    call env (find_app (to_text installation.id))
    return tt

  abbrev pub link_user : Installation → Option User → M Call (Unit {0})
  link_user installation none = return tt
  link_user installation (some user) = do
    call env (find_apps installation.account.login installation.account.account_type user.user_id)
    existing ← call env (find_app (to_text installation.id))
    store_app installation user existing

  unfoldable pub handle_installation_created : Installation → Option Account → M Call (Unit {0})
  unfolding find_installer
  handle_installation_created installation sender = do
    call env all_users
    user ← find_installer installation sender
    link_user installation user

  -- The update sets the installation of the projects to `undefined`.
  unfoldable pub handle_installation_deleted : Installation → M Call (Unit {0})
  handle_installation_deleted installation = do
    call env (update_projects (to_text installation.id))
    call env (delete_app (to_text installation.id))
    return tt

  abbrev pub by_action : String → Installation → Option Account → M Call (Unit {0})
  by_action action installation sender =
      if str_eq action "created"
      then handle_installation_created installation sender
      else if str_eq action "deleted"
      then handle_installation_deleted installation
      else return tt

  abbrev pub installed : Option Installation → Option String → Option Account → M Call (Unit {0})
  installed (some installation) (some action) sender =
      if truthy (some action) then by_action action installation sender else return tt
  installed _ _ sender = return tt

  unfoldable pub handle_installation_event : Payload → M Call (Unit {0})
  unfolding handle_installation_created handle_installation_deleted
  handle_installation_event payload = installed payload.installation payload.action payload.sender

  abbrev pub find_new_owner : Installation → Option Account → M Call (Option User)
  find_new_owner installation none = call env (find_user installation.account.id)
  find_new_owner installation (some sender) =
      if is_organization installation.account
      then find_account sender
      else call env (find_user installation.account.id)

  abbrev pub create_app : Installation → Option User → M Call (Unit {0})
  create_app installation none = return tt
  create_app installation (some user) = do call env (save_app (app_of installation user)); return tt

  abbrev pub unless_found : Installation → Option Account → Option GithubApp → M Call (Unit {0})
  unless_found installation sender (some app) = return tt
  unless_found installation sender none = do
    user ← find_new_owner installation sender
    create_app installation user

  unfoldable pub ensure_github_app_record : Installation → Option Account → M Call (Unit {0})
  ensure_github_app_record installation sender = do
    existing ← call env (find_app (to_text installation.id))
    unless_found installation sender existing

  abbrev pub ensure_if : Option Installation → Option String → Option Account → M Call (Unit {0})
  ensure_if (some installation) (some action) sender =
      if truthy (some action) then ensure_github_app_record installation sender else return tt
  ensure_if _ _ sender = return tt

  unfoldable pub handle_installation_repositories_event : Payload → M Call (Unit {0})
  unfolding ensure_github_app_record
  handle_installation_repositories_event payload =
      ensure_if payload.installation payload.action payload.sender
