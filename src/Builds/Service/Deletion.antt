-- ===== src/Builds/Service/Deletion.antt =====
-- The deletions of src/codebuild reach what they are to delete.
use otto_handler.Prelude.{String, str_eq}
use otto_handler.Prelude.Effects.{Env, Clock, return, call, try_catch}
use otto_handler.Prelude.Grows.{Grows-if, Grows-return, Grows-fail}
use otto_handler.Prelude.Resolves.{caught-Resolves, Makes, Makes-call, Makes-next, Makes-try_catch}
use otto_handler.Builds.Types.{
  Setting, Call, delete_repository, delete_log_group, delete_build_project, Ret,
}
use otto_handler.Builds.Registry.{delete_image_repository}
use otto_handler.Builds.LogGroups.{delete_group}
use otto_handler.Builds.Rules.{delete_codebuild_event_rule}
use otto_handler.Builds.Service.{delete_project}

module _ (env : Env Call Ret) (s : Setting) where
  pub Makes-delete_image_repository :
      (name : String) → Makes (delete_repository name) (delete_image_repository env s name)
  unfolding delete_image_repository
  Makes-delete_image_repository name =
      Makes-try_catch (call env (delete_repository name)) _ (delete_repository name)
        (Makes-call env (delete_repository name))
        (λ e.
          Grows-if (str_eq e.name "RepositoryNotFoundException") _ _ (Grows-return tt)
            (Grows-fail _))

module _ (env : Env Call Ret) where
  pub Makes-delete_group : (name : String) → Makes (delete_log_group name) (delete_group env name)
  unfolding delete_group
  Makes-delete_group name =
      Makes-try_catch (call env (delete_log_group name)) _ (delete_log_group name)
        (Makes-call env (delete_log_group name))
        (λ e.
          Grows-if (str_eq e.name "ResourceNotFoundException") _ _ (Grows-return tt) (Grows-fail e))

module _ (env : Env Call Ret) (clock : Clock Call) (s : Setting) where
  pub Makes-delete_project :
      (name : String) → Makes (delete_build_project name) (delete_project env clock s name)
  unfolding delete_project
  Makes-delete_project name =
      Makes-try_catch _ _ (delete_build_project name)
        (Makes-next (try_catch (delete_codebuild_event_rule env s name) (λ _. return tt))
          (call env (delete_build_project name)) (delete_build_project name) (caught-Resolves _)
          (Makes-call env (delete_build_project name)))
        (λ e.
          Grows-if (str_eq e.name "ResourceNotFoundException") _ _ (Grows-return tt) (Grows-fail _))
