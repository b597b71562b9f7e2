-- ===== src/Builds/LogGroups.antt =====
-- `CloudWatchLogsService` of src/codebuild/cloudwatch-logs.service.ts.
use otto_handler.Prelude.{ℕ, String, [], ◌∷◌, str_eq, ltb, if◌then◌else◌}
use otto_handler.Prelude.Text.{template}
use otto_handler.Prelude.Effects.{error, Env, M, ◌>>◌, return, fail, call, try_catch, when}
use otto_handler.Builds.Types.{Call, create_log_group, put_retention, delete_log_group, Ret}

module _ (env : Env Call Ret) where
  unfoldable pub create_group : String → ℕ → M Call (Unit {0})
  create_group name days =
      try_catch
        (do
          call env (create_log_group name)
          when (ltb 0 days) (call env (put_retention name days)))
        (λ e.
          if str_eq e.name "ResourceAlreadyExistsException"
          then return tt
          else fail (error (template ("CloudWatch 로그 그룹 생성 실패: " ∷ e.message ∷ []))))

  unfoldable pub delete_group : String → M Call (Unit {0})
  delete_group name =
      try_catch (call env (delete_log_group name))
        (λ e. if str_eq e.name "ResourceNotFoundException" then return tt else fail e)
