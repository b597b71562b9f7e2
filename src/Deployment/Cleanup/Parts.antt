-- ===== src/Deployment/Cleanup/Parts.antt =====
-- A clean-up goes on after the failure of a part (src/deployment/pipeline-cleanup.service.ts).
use otto_handler.Prelude.{◌≡◌, refl, true, String, List, ◌∷◌, Option, some, truthy, or_text}
use otto_handler.Prelude.Effects.{Env, M, resolve, history, return, call, for_each, ◌>>◌}
use otto_handler.Prelude.Grows.{
  Made, In, Grows, Made-and_then, Made-or_else, Made-call, Made-for_each, Grows->>=, Grows-call,
  Grows-return, Grows-if, Grows-try_catch,
}
use otto_handler.Prelude.Resolves.{
  Resolves, caught-Resolves, return-Resolves, if-Resolves, Made-next,
}
use otto_handler.Deployment.Types.{
  Deployment, Pipeline, Config, Call, find_pipeline, find_all_of_pipeline, delete_all_of_pipeline,
  delete_target_group, Ret,
}
use otto_handler.Deployment.Cleanup.{
  cleanup_ecs_service, cleanup_alb_rules, remove_target_group, cleanup_target_groups,
  cleanup_route53_records, cleanup_event_bridge_rules, cleanup_deployment_records, clean_all,
  cleanup_pipeline_resources,
}
use otto_handler.Deployment.Cleanup.Steps.{
  ecs-Resolves, alb-Resolves, groups-Resolves, records-Resolves, rules-Resolves, records-Grows,
  rules-Grows, rows-Grows,
}

module _ (env : Env Call Ret) (config : Config) (alb_name : Option String) where
  group_removed-Resolves : (d : Deployment) → Resolves (remove_target_group env config alb_name d)
  group_removed-Resolves d =
      if-Resolves (truthy d.target_group_arn) _ _ (caught-Resolves _) return-Resolves

  group_removed-Grows : (d : Deployment) → Grows (remove_target_group env config alb_name d)
  group_removed-Grows d =
      Grows-if (truthy d.target_group_arn) _ _
        (Grows-try_catch (call env (delete_target_group (or_text d.target_group_arn "")))
          (λ _. return tt) (Grows-call env (delete_target_group (or_text d.target_group_arn "")))
          (λ _. Grows-return tt))
        (Grows-return tt)

  same_group :
      (d : Deployment) (a : String)
      → d.target_group_arn ≡ some a
      → truthy d.target_group_arn ≡ true
      → or_text d.target_group_arn "" ≡ a
  same_group d a e t = let t' = rw e at t in rw (e, t') refl

  Made-remove_target_group :
      (d : Deployment) (arn : String) (h : List Call)
      → d.target_group_arn ≡ some arn
      → truthy d.target_group_arn ≡ true
      → Made (delete_target_group arn) (history (remove_target_group env config alb_name d h))
  Made-remove_target_group d arn h e t =
      rw (t, same_group d arn e t)
        (Made-or_else (call env (delete_target_group arn) h) (λ _. return tt)
          (delete_target_group arn) (λ _. Grows-return tt)
          (Made-call env (delete_target_group arn) h))

  Made-cleanup_target_groups :
      (ds : List Deployment) (d : Deployment) (arn : String) (h : List Call)
      → In d ds
      → d.target_group_arn ≡ some arn
      → truthy d.target_group_arn ≡ true
      → Made (delete_target_group arn) (history (cleanup_target_groups env config alb_name ds h))
  unfolding cleanup_target_groups
  Made-cleanup_target_groups ds d arn h i e t =
      Made-or_else (for_each ds (remove_target_group env config alb_name) h) (λ _. return tt)
        (delete_target_group arn) (λ _. Grows-return tt)
        (Made-for_each ds (remove_target_group env config alb_name) d (delete_target_group arn) h
          (λ y. (group_removed-Resolves y).at) group_removed-Grows
          (λ k. Made-remove_target_group d arn k e t) i)

  -- What is left of a clean-up after its parts.
  abbrev after_records : String → List Deployment → M Call (Unit {0})
  after_records id ds =
      cleanup_event_bridge_rules env config alb_name ds
      >> cleanup_deployment_records env config alb_name id

  abbrev after_groups : String → List Deployment → M Call (Unit {0})
  after_groups id ds = cleanup_route53_records env config alb_name ds >> after_records id ds

  abbrev from_groups : String → List Deployment → M Call (Unit {0})
  from_groups id ds = cleanup_target_groups env config alb_name ds >> after_groups id ds

  -- What the part from the target groups on does is done.
  Made-clean_all :
      (id : String) (ds : List Deployment) (c : Call) (h : List Call)
      → ((k : List Call) → Made c (history (from_groups id ds k)))
      → Made c (history (clean_all env config alb_name id ds h))
  unfolding clean_all
  Made-clean_all id ds c h made =
      Made-next (cleanup_ecs_service env config alb_name id)
        (cleanup_alb_rules env config alb_name ds >> from_groups id ds) c h
        (ecs-Resolves env config alb_name id)
        (λ k.
          Made-next (cleanup_alb_rules env config alb_name ds) (from_groups id ds) c k
            (alb-Resolves env config alb_name ds) made)

  Made-from_groups-rows :
      (id : String) (ds : List Deployment) (h : List Call)
      → Made (delete_all_of_pipeline id) (history (from_groups id ds h))
  unfolding cleanup_deployment_records
  Made-from_groups-rows id ds h =
      Made-next (cleanup_target_groups env config alb_name ds) (after_groups id ds)
        (delete_all_of_pipeline id) h (groups-Resolves env config alb_name ds)
        (λ k.
          Made-next (cleanup_route53_records env config alb_name ds) (after_records id ds)
            (delete_all_of_pipeline id) k (records-Resolves env config alb_name ds)
            (λ k.
              Made-next (cleanup_event_bridge_rules env config alb_name ds)
                (cleanup_deployment_records env config alb_name id) (delete_all_of_pipeline id) k
                (rules-Resolves env config alb_name ds)
                (λ k.
                  Made-or_else (call env (delete_all_of_pipeline id) k) (λ _. return tt)
                    (delete_all_of_pipeline id) (λ _. Grows-return tt)
                    (Made-call env (delete_all_of_pipeline id) k))))

  after_groups-Grows : (id : String) (ds : List Deployment) → Grows (after_groups id ds)
  after_groups-Grows id ds = Grows->>= _ _ (records-Grows env config alb_name ds) (λ _.
      Grows->>= _ _ (rules-Grows env config alb_name ds) (λ _. rows-Grows env config alb_name id))

  -- A clean-up that finds the pipeline and its deployments tries to delete the target
  -- group of each deployment that has one, and to delete their rows, whatever else fails.
  pub cleanup_pipeline_resources-Made :
      (id : String) (pipeline : Pipeline) (ds : List Deployment) (h : List Call)
      → env h (find_pipeline id) ≡ resolve (some pipeline)
      → env (find_pipeline id ∷ h) (find_all_of_pipeline id) ≡ resolve ds
      → (d : Deployment) (arn : String) → In d ds
      → d.target_group_arn ≡ some arn
      → truthy d.target_group_arn ≡ true
      → Made
          (delete_target_group arn)
          (history (cleanup_pipeline_resources env config alb_name id h))
        × Made
            (delete_all_of_pipeline id)
            (history (cleanup_pipeline_resources env config alb_name id h))
  unfolding cleanup_pipeline_resources
  cleanup_pipeline_resources-Made id pipeline ds h f g d arn i e t =
      let start = find_all_of_pipeline id ∷ find_pipeline id ∷ h in
      (
        rw (f, g)
            (Made-clean_all id ds (delete_target_group arn) start (λ k.
              Made-and_then (cleanup_target_groups env config alb_name ds k)
                (λ _. after_groups id ds) (delete_target_group arn) (λ _. after_groups-Grows id ds)
                (Made-cleanup_target_groups ds d arn k i e t))),
        rw (f, g)
            (Made-clean_all id ds (delete_all_of_pipeline id) start (Made-from_groups-rows id ds)),
      )
