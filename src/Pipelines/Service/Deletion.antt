-- ===== src/Pipelines/Service/Deletion.antt =====
-- The deletion of a pipeline with what its deployments have set up (src/pipeline/pipeline.service.ts over
-- src/deployment/pipeline-cleanup.service.ts).
use otto_handler.Prelude.{◌≡◌, refl, true, String, List, [], ◌∷◌, ◌++◌, map, some, truthy}
use otto_handler.Prelude.Effects.{Error, throw, resolve, history, Env, Clock, M, fail, call, ◌>>◌}
use otto_handler.Prelude.Grows.{
  Made, In, Made-and_then, Made-or_else, Made-lifted, Grows-call, Grows-fail,
}
use otto_handler.Deployment
use otto_handler.Deployment.Types.{
  delete_target_group, delete_all_of_pipeline, find_all_of_pipeline,
}
use otto_handler.Deployment.Cleanup.{cleanup_pipeline_resources}
use otto_handler.Deployment.Cleanup.Parts.{cleanup_pipeline_resources-Made}
use otto_handler.Pipelines.Types.{
  Pipeline, Setting, Call, cleanups, find_mine, remove, with_cleanups, Ret,
}
use otto_handler.Pipelines.Service.{deletion_failed, delete_mine, delete_pipeline}

module _ (env : Env Call Ret) (clock : Clock Call) (s : Setting) where
  abbrev cleaned : String → M Call (Unit {0})
  cleaned id =
      with_cleanups env clock
        (λ e _. cleanup_pipeline_resources e s.rollout.config s.rollout.alb_name id)

  -- The calls of the clean-up stay made in the deletion.
  Made-delete_mine :
      (id : String) (p : Pipeline) (c : Call) (h : List Call)
      → Made c (history (cleaned id h))
      → Made c (history (delete_mine env clock s id p h))
  Made-delete_mine id p c h m =
      Made-or_else ((cleaned id >> call env (remove p)) h)
        (λ e. fail (deletion_failed env clock s e)) c (λ e. Grows-fail _)
        (Made-and_then (cleaned id h) (λ _. call env (remove p)) c (λ _. Grows-call env (remove p))
          m)

  -- The deletion of a pipeline that is found, with its deployments, tries to delete the target group of
  -- each deployment that has one, and the rows of the deployments, whatever else fails.
  pub delete_pipeline-Made :
      (id user : String) (h : List Call) (p : Pipeline) (pipeline : Deployment.Types.Pipeline)
      (ds : List Deployment.Types.Deployment) (d : Deployment.Types.Deployment) (arn : String)
      → env h (find_mine id user) ≡ resolve (some p)
      → env (find_mine id user ∷ h) (cleanups (Deployment.Types.find_pipeline id))
        ≡ resolve (some pipeline)
      → env
          (cleanups (Deployment.Types.find_pipeline id) ∷ find_mine id user ∷ h)
          (cleanups (find_all_of_pipeline id))
        ≡ resolve ds
      → In d ds
      → d.target_group_arn ≡ some arn
      → truthy d.target_group_arn ≡ true
      → Made (cleanups (delete_target_group arn)) (history (delete_pipeline env clock s id user h))
        × Made
            (cleanups (delete_all_of_pipeline id))
            (history (delete_pipeline env clock s id user h))
  unfolding delete_pipeline
  delete_pipeline-Made id user h p pipeline ds d arn f g r i a t =
      let start = find_mine id user ∷ h in
      let inner : Env Deployment.Types.Call Deployment.Types.Ret =
        λ k c. env (map cleanups k ++ start) (cleanups c) in
      let o = cleanup_pipeline_resources inner s.rollout.config s.rollout.alb_name id [] in
      let (group, rows) =
        cleanup_pipeline_resources-Made inner s.rollout.config s.rollout.alb_name id pipeline ds []
          g r d arn i a t in
      (
        rw f (
            Made-delete_mine id p (cleanups (delete_target_group arn)) start
              (Made-lifted cleanups (delete_target_group arn) start o group)),
        rw f (
            Made-delete_mine id p (cleanups (delete_all_of_pipeline id)) start
              (Made-lifted cleanups (delete_all_of_pipeline id) start o rows)),
      )

  -- Where the clean-up fails, the deletion fails, and the row of the pipeline is kept.
  pub delete_pipeline_kept :
      (id user : String) (h k : List Call) (p : Pipeline) (e : Error)
      → env h (find_mine id user) ≡ resolve (some p)
      → cleaned id (find_mine id user ∷ h) ≡ throw e k
      → delete_pipeline env clock s id user h ≡ throw (deletion_failed env clock s e) k
  unfolding delete_pipeline
  delete_pipeline_kept id user h k p e f g = rw (f, g) refl
