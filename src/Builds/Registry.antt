-- ===== src/Builds/Registry.antt =====
-- `ECRService` of src/codebuild/ecr.service.ts: the repositories of images and the names of images.
use otto_handler.Prelude.{String, List, [], ◌∷◌, Option, none, some, or_text, str_eq, if◌then◌else◌}
use otto_handler.Prelude.Text.{template, shown_part}
use otto_handler.Prelude.Effects.{error, Env, M, ◌>>=◌, return, fail, call, try_catch}
use otto_handler.Deployment.Rules.{message_of}
use otto_handler.Builds.Types.{
  Setting, Repository, ReadyRepository, Call, describe_repositories, create_repository,
  delete_repository, caller_identity, Ret,
}

-- `process.env.NODE_ENV || 'development'`
abbrev pub environment : Setting → String
environment s = or_text s.node_env "development"

abbrev pub repository_name : Setting → (user project : String) → String
repository_name s user project =
    template ("otto/" ∷ environment s ∷ "/" ∷ user ∷ "/" ∷ project ∷ [])

abbrev pub generate_image_tag : (user project number : String) → String
generate_image_tag user project number =
    template ("user-" ∷ user ∷ "-project-" ∷ project ∷ "-build-" ∷ number ∷ [])

abbrev pub ready : String → Repository → ReadyRepository
ready name r = record {
  repository_name = name;
  repository_uri = r.repository_uri;
  registry_id = r.registry_id;
}

abbrev pub resource_tags : Setting → (user project : String) → List (String × String)
resource_tags s user project =
    ("Project", "Otto")
    ∷ ("Environment", environment s)
    ∷ ("UserId", user)
    ∷ ("ProjectId", project)
    ∷ ("ManagedBy", "Otto-System")
    ∷ []

abbrev pub first_repository : List Repository → Option Repository
first_repository [] = none
first_repository (r ∷ rs) = some r

abbrev pub image_uri : Setting → Option String → (user project number : String) → String
image_uri s account user project number = template (
    shown_part account
    ∷ ".dkr.ecr."
    ∷ s.region
    ∷ ".amazonaws.com/"
    ∷ repository_name s user project
    ∷ ":"
    ∷ generate_image_tag user project number
    ∷ [])

module _ (env : Env Call Ret) (s : Setting) where
  -- A repository that is not there yet is no failure.
  abbrev pub find_repository : String → M Call (Option Repository)
  find_repository name =
      try_catch (do rs ← call env (describe_repositories name); return (first_repository rs))
        (λ e. if str_eq e.name "RepositoryNotFoundException" then return none else fail e)

  abbrev pub create_new : (user project : String) → M Call ReadyRepository
  create_new user project =
      try_catch
        (do
          r ←
              call env
                (create_repository (repository_name s user project) (resource_tags s user project))
          return (ready (repository_name s user project) r))
        (λ e. fail (error (template ("ECR Repository 생성 실패: " ∷ message_of e ∷ []))))

  abbrev pub use_or_create : (user project : String) → Option Repository → M Call ReadyRepository
  use_or_create user project none = create_new user project
  use_or_create user project (some r) = return (ready (repository_name s user project) r)

  unfoldable pub create_repository_if_not_exists : (user project : String) → M Call ReadyRepository
  create_repository_if_not_exists user project = do
    found ← find_repository (repository_name s user project)
    use_or_create user project found

  unfoldable pub generate_image_uri : (user project number : String) → M Call String
  generate_image_uri user project number = do
    account ← call env caller_identity
    return (image_uri s account user project number)

  abbrev pub uri_of : Option Repository → Option String
  uri_of none = none
  uri_of (some r) = some r.repository_uri

  unfoldable pub get_repository_uri : String → M Call (Option String)
  get_repository_uri name =
      try_catch
        (do rs ← call env (describe_repositories name); return (uri_of (first_repository rs)))
        (λ _. return none)

  unfoldable pub get_account_id : M Call (Option String)
  get_account_id = try_catch (call env caller_identity) (λ _. fail (error "AWS Account ID 조회 실패"))

  unfoldable pub delete_image_repository : String → M Call (Unit {0})
  delete_image_repository name = try_catch (call env (delete_repository name)) (λ e.
      if str_eq e.name "RepositoryNotFoundException"
      then return tt
      else fail (error (template ("ECR Repository 삭제 실패: " ∷ message_of e ∷ []))))
