-- ===== src/GithubApp/Examples.antt =====
-- Runs of src/github-app/github-app.service.ts for a user with two installations, one of which cannot be
-- read.
use otto_handler.Prelude.{
  ◌≡◌, refl, ℕ, true, false, String, List, [], ◌∷◌, Option, none, some, str_eq, if◌then◌else◌,
}
use otto_handler.Prelude.Effects.{ok, throw, resolve, reject, error, Env}
use otto_handler.Prelude.Text.{strip_prefix}
use otto_handler.Cloudwatch.Message.{includes}
use otto_handler.GithubApp.Types.{
  Repository, GithubApp, Setting, Call, new_app, installation_octokit, list_repositories,
  list_branches, find_project, find_apps, find_newest_apps, Ret,
}
use otto_handler.GithubApp.Service.{
  unescape_newlines, unique_repositories, not_found, bad_request, constructed,
  get_installation_repositories, get_user_repositories, get_user_installations,
  get_installation_url,
}
use otto_handler.GithubApp.Service.Unique.{has, distinct, unique_repositories-distinct}

abbrev setting : Setting
setting = record {
  app_id = some "1";
  private_key = some "key";
  app_slug = none;
  parse_int = λ s. if str_eq s "1" then some 1 else none;
  to_iso = λ n. "now";
}

abbrev repository : ℕ → String → Repository
repository id name = record {
  id = id;
  name = name;
  full_name = name;
  owner = record { login = "octocat"; id = 1; avatar_url = ""; owner_type = "User" };
  description = none;
  is_private = false;
  html_url = "";
  clone_url = "";
  ssh_url = "";
  default_branch = "main";
  language = none;
  stargazers_count = 0;
  forks_count = 0;
  open_issues_count = 0;
  archived = false;
  disabled = false;
  pushed_at = none;
  created_at = none;
  updated_at = none;
}

abbrev app : String → GithubApp
app id = record {
  installation_id = id;
  account_login = "octocat";
  account_type = "User";
  created_at = 0;
  updated_at = 0;
}

abbrev listed : Option ℕ → List Repository
listed none = []
listed (some n) = repository 1 "a" ∷ repository 2 "b" ∷ repository 1 "a" ∷ []

abbrev env : Env Call Ret
env h (new_app id key) = resolve tt
env h (installation_octokit none) = reject (error "no such installation")
env h (installation_octokit (some n)) = resolve tt
env h (list_repositories id page) = resolve (listed id)
env h (list_branches id owner repo page) = resolve []
env h (find_project id user) = resolve none
env h (find_apps user) = resolve (app "1" ∷ app "x" ∷ [])
env h (find_newest_apps user) = resolve []

unescaped : unescape_newlines "a\\nb\\" ≡ "a\nb\\"
unfolding unescape_newlines
unescaped = refl

unique :
    unique_repositories (repository 1 "a" ∷ repository 2 "b" ∷ repository 1 "c" ∷ [])
    ≡ repository 1 "a" ∷ repository 2 "b" ∷ []
unfolding unique_repositories
unique = refl

unique_repositories-distinct_example :
    (distinct (unique_repositories (repository 1 "a" ∷ repository 1 "c" ∷ [])) ≡ true)
    × (has 1 (unique_repositories (repository 1 "a" ∷ repository 1 "c" ∷ []))
        ≡ has 1 (repository 1 "a" ∷ repository 1 "c" ∷ []))
unique_repositories-distinct_example =
    unique_repositories-distinct (repository 1 "a" ∷ repository 1 "c" ∷ []) 1

-- The installation that cannot be read is left out, and a repository listed twice is given once.
readable :
    get_user_repositories env setting "u1" []
    ≡ ok (repository 1 "a" ∷ repository 2 "b" ∷ []) (
        installation_octokit none
        ∷ list_repositories (some 1) 100
        ∷ installation_octokit (some 1)
        ∷ find_apps "u1"
        ∷ [])
unfolding get_user_repositories
readable = refl

unreadable :
    get_installation_repositories env setting "x" []
    ≡ throw (not_found "GitHub App installation not found") (installation_octokit none ∷ [])
unfolding get_installation_repositories
unreadable = refl

-- A key without a header stops the application before a call.
key_refused : constructed env setting [] ≡ throw (error "Failed to initialize GitHub App") []
unfolding constructed includes strip_prefix
key_refused = refl

not_configured :
    get_installation_url env setting [] ≡ throw (bad_request "GitHub App slug not configured") []
unfolding get_installation_url
not_configured = refl

none_installed : get_user_installations env setting "u1" [] ≡ ok [] (find_newest_apps "u1" ∷ [])
unfolding get_user_installations
none_installed = refl
