-- ===== src/GithubApp/Service.antt =====
-- `GithubAppService` of src/github-app/github-app.service.ts.
pub mod Unique
use otto_handler.Prelude.{
  ℕ, zero, suc, Bool, true, false, String, List, [], ◌∷◌, ◌++◌, map, Option, none, some, truthy,
  or_text, ◌==◌, if◌then◌else◌,
}
use Prim.Native.String
use Prim.Native.Char.{code}
use otto_handler.Prelude.Text.{template}
use otto_handler.Prelude.Effects.{Error, error, Env, M, ◌>>=◌, ◌>>◌, return, fail, call, try_catch}
use otto_handler.Cloudwatch.Message.{includes}
use otto_handler.GithubApp.Types.{
  Repository, Branch, GithubApp, Project, Installation, InstallationUrl, Setting, Call, new_app,
  installation_octokit, list_repositories, list_branches, find_project, find_apps, find_newest_apps,
  Ret,
}

abbrev pub not_found : String → Error
not_found m = record { name = "NotFoundException"; message = m }

abbrev pub bad_request : String → Error
bad_request m = record { name = "BadRequestException"; message = m }

-- `key.replace(/\\n/g, '\n')`: a backslash and an n become the end of a line.
unfoldable pub unescape_newlines : String → String
unescape_newlines String.[] = ""
unescape_newlines (String.◌∷◌ c String.[]) = String.◌∷◌ c ""
unescape_newlines (String.◌∷◌ c (String.◌∷◌ d s)) =
    let replaced = String.◌∷◌ "\n" (unescape_newlines s) in
    let kept = String.◌∷◌ c (unescape_newlines (String.◌∷◌ d s)) in
    if (if code c == 92 then code d == b'n' else false) then replaced else kept

-- A key with the beginning or the end of the PEM format.
abbrev pub has_header : String → Bool
has_header key = if includes "-----BEGIN" key then true else includes "-----END" key

-- `self.findIndex((r) => r.id === id)`: none is -1.
unfoldable pub find_index : ℕ → List Repository → Option ℕ
find_index id [] = none
find_index id (r ∷ rs) =
    if r.id == id then some 0 else elim (find_index id rs) [ none ↦ none | some n ↦ some (suc n) ]

abbrev pub is_at : ℕ → Option ℕ → Bool
is_at index none = false
is_at index (some n) = index == n

-- The loop of the filter, over the items from an index on.
unfoldable pub filter_from : List Repository → ℕ → List Repository → List Repository
filter_from self index [] = []
filter_from self index (r ∷ rs) =
    let rest = filter_from self (suc index) rs in
    if is_at index (find_index r.id self) then r ∷ rest else rest

unfoldable pub unique_repositories : List Repository → List Repository
unfolding filter_from find_index
unique_repositories rs = filter_from rs 0 rs

abbrev pub installation_of : Setting → GithubApp → Installation
installation_of s app = record {
  id = app.installation_id;
  login = app.account_login;
  account_id = 0;
  account_type = app.account_type;
  avatar_url = template ("https://github.com/" ∷ app.account_login ∷ ".png" ∷ []);
  repository_selection = "selected";
  created_at = s.to_iso app.created_at;
  updated_at = s.to_iso app.updated_at;
}

-- `!project || !project.githubApp || ...`
abbrev pub is_connected : Project → Bool
is_connected p =
    if p.has_app
    then (if truthy p.github_repository_name
        then (if truthy p.github_owner then truthy p.installation_id else false)
        else false)
    else false

module _ (env : Env Call Ret) (s : Setting) where
  -- The App is made with a key of several lines.
  abbrev pub initialize_app : (id key : String) → M Call (Unit {0})
  initialize_app id key =
      let formatted = if includes "\\n" key then unescape_newlines key else key in
      if has_header formatted
      then call env (new_app (s.parse_int id) formatted)
      else fail (error "Invalid private key format")

  -- The constructor, with the failure that the initialization is turned into.
  unfoldable pub constructed : M Call (Unit {0})
  unfolding unescape_newlines
  constructed =
      if (if truthy s.app_id then truthy s.private_key else false)
      then try_catch (initialize_app (or_text s.app_id "") (or_text s.private_key ""))
          (λ _. fail (error "Failed to initialize GitHub App"))
      else fail (error "GitHub App configuration missing")

  -- The first hundred repositories of an installation.
  unfoldable pub get_installation_repositories : String → M Call (List Repository)
  get_installation_repositories id =
      try_catch
        (do
          call env (installation_octokit (s.parse_int id))
          call env (list_repositories (s.parse_int id) 100))
        (λ _. fail (not_found "GitHub App installation not found"))

  unfoldable pub get_repository_branches : (id owner repo : String) → M Call (List Branch)
  get_repository_branches id owner repo =
      try_catch
        (do
          call env (installation_octokit (s.parse_int id))
          call env (list_branches (s.parse_int id) owner repo 100))
        (λ _. fail (bad_request "Failed to fetch repository branches"))

  abbrev pub unconnected : Error
  unconnected = not_found "Project or GitHub configuration not found"

  abbrev pub branches_of : Option Project → M Call (List Branch)
  branches_of none = fail unconnected
  branches_of (some p) =
      if is_connected p
      then get_repository_branches (or_text p.installation_id "") (or_text p.github_owner "")
          (or_text p.github_repository_name "")
      else fail unconnected

  unfoldable pub get_project_branches : (id user : String) → M Call (List Branch)
  unfolding get_repository_branches
  get_project_branches id user = do found ← call env (find_project id user); branches_of found

  -- The repositories of an installation, or none where they cannot be read.
  abbrev pub read_or_none : String → M Call (List Repository)
  read_or_none id = try_catch (get_installation_repositories id) (λ _. return [])

  -- The loop over the installations.
  unfoldable pub read_all : List GithubApp → M Call (List Repository)
  unfolding get_installation_repositories
  read_all [] = return []
  read_all (app ∷ apps) = do
    rs ← read_or_none app.installation_id
    rest ← read_all apps
    return (rs ++ rest)

  unfoldable pub get_user_repositories : String → M Call (List Repository)
  unfolding read_all unique_repositories
  get_user_repositories user =
      try_catch
        (do apps ← call env (find_apps user); rs ← read_all apps; return (unique_repositories rs))
        (λ _. fail (bad_request "Failed to fetch user repositories"))

  unfoldable pub get_user_installations : String → M Call (List Installation)
  get_user_installations user =
      try_catch (do apps ← call env (find_newest_apps user); return (map (installation_of s) apps))
        (λ _. fail (bad_request "Failed to fetch user installations"))

  unfoldable pub get_installation_url : M Call InstallationUrl
  get_installation_url =
      if truthy s.app_slug
      then return (record {
        installation_url =
            template
              ("https://github.com/apps/" ∷ or_text s.app_slug "" ∷ "/installations/new" ∷ []);
        app_slug = or_text s.app_slug "";
      })
      else fail (bad_request "GitHub App slug not configured")
