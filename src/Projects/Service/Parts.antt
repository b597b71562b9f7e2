-- ===== src/Projects/Service/Parts.antt =====
-- The deletions of resources by src/project/project.service.ts, one at a time.
use otto_handler.Prelude.{◌≡◌, true, String, Option, some, truthy, or_text, nonempty}
use otto_handler.Prelude.Effects.{Env, Clock, M, return}
use otto_handler.Prelude.Grows.{Grows, Grows-inside, Grows-if, Grows-return, Grows-try_catch}
use otto_handler.Prelude.Resolves.{
  Resolves, caught-Resolves, return-Resolves, if-Resolves, Makes, Makes-inside, Makes-try_catch,
}
use otto_handler.Builds
use otto_handler.Builds.Types.{Setting, delete_repository, delete_log_group, delete_build_project}
use otto_handler.Builds.Registry.{delete_image_repository}
use otto_handler.Builds.Service.Deletion.{
  Makes-delete_image_repository, Makes-delete_group, Makes-delete_project,
}
use otto_handler.Projects.Types.{Call, builds, with_builds, Ret}
use otto_handler.Projects.Service.{deleted_if}

module _ (env : Env Call Ret) (clock : Clock Call) (s : Setting) where
  abbrev pub without_project : String → M Call (Unit {0})
  without_project name = with_builds env clock (λ e c. Builds.Service.delete_project e c s name)

  abbrev pub without_repository : String → M Call (Unit {0})
  without_repository name = with_builds env clock (λ e _. delete_image_repository e s name)

  abbrev pub without_group : String → M Call (Unit {0})
  without_group name =
      with_builds env clock (λ e c. Builds.Service.delete_cloudwatch_log_group e c s name)

  pub without_repository-Grows : (name : String) → Grows (without_repository name)
  without_repository-Grows name =
      Grows-inside {R = λ c. Ret (builds c)} builds (λ h c. env h (builds c)) clock
        (λ e _. delete_image_repository e s name)

  pub without_group-Grows : (name : String) → Grows (without_group name)
  without_group-Grows name =
      Grows-inside {R = λ c. Ret (builds c)} builds (λ h c. env h (builds c)) clock
        (λ e c. Builds.Service.delete_cloudwatch_log_group e c s name)

  pub if-named-Resolves :
      (name : Option String) (delete : String → M Call (Unit {0}))
      → Resolves (deleted_if env clock s name delete)
  if-named-Resolves name delete = if-Resolves (truthy name) _ _ (caught-Resolves _) return-Resolves

  pub if-named-Grows :
      (name : Option String) (delete : String → M Call (Unit {0}))
      → ((n : String) → Grows (delete n))
      → Grows (deleted_if env clock s name delete)
  if-named-Grows name delete g =
      Grows-if (truthy name) _ _
        (Grows-try_catch (delete (or_text name "")) (λ _. return tt) (g (or_text name ""))
          (λ _. Grows-return tt))
        (Grows-return tt)

  pub if-named-Makes :
      (name : String) (delete : String → M Call (Unit {0})) (c : Call)
      → nonempty name ≡ true
      → Makes c (delete name)
      → Makes c (deleted_if env clock s (some name) delete)
  if-named-Makes name delete c e m =
      rw e (Makes-try_catch (delete name) (λ _. return tt) c m (λ _. Grows-return tt))

  pub if-some-Makes :
      (o : Option String) (name : String) (delete : String → M Call (Unit {0})) (c : Call)
      → o ≡ some name
      → nonempty name ≡ true
      → Makes c (delete name)
      → Makes c (deleted_if env clock s o delete)
  if-some-Makes o name delete c f e m = rw f (if-named-Makes name delete c e m)

  pub without_project-Makes :
      (name : String) → Makes (builds (delete_build_project name)) (without_project name)
  without_project-Makes name =
      Makes-inside builds (λ h c. env h (builds c)) clock _ (delete_build_project name)
        (λ e c. Makes-delete_project e c s name)

  pub without_repository-Makes :
      (name : String) → Makes (builds (delete_repository name)) (without_repository name)
  without_repository-Makes name =
      Makes-inside builds (λ h c. env h (builds c)) clock _ (delete_repository name)
        (λ e _. Makes-delete_image_repository e s name)

  pub without_group-Makes :
      (name : String) → Makes (builds (delete_log_group name)) (without_group name)
  unfolding Builds.Service.delete_cloudwatch_log_group
  without_group-Makes name =
      Makes-inside builds (λ h c. env h (builds c)) clock _ (delete_log_group name)
        (λ e _. Makes-delete_group e name)
