-- ===== src/Rollout/Keeps.antt =====
-- The URL of a deployment (src/deployment/deployment.service.ts).
use otto_handler.Prelude.{
  ◌++◌, ◌≡◌, refl, ap, ◌∙◌, ℕ, zero, suc, Bool, true, Bool-cases, inl, inr, String, List, [], ◌∷◌,
  Option, some, truthy, nonempty, ◌==◌, arith,
}
use Prim.Native.String
use Prim.Native.Char.{code}
use otto_handler.Prelude.Text.{template, split}
use otto_handler.Prelude.Splits.{lacks, split-lacks, split-append}
use otto_handler.Prelude.Effects.{ok, Env, Clock, resolve, return, call, ◌>>=◌}
use otto_handler.Prelude.Yields.{Yields, Yields-return, Yields->>=}
use otto_handler.Deployment.Types.{Deployment, waiting_health_check}
use otto_handler.Deployment.Tracker.{
  start_deployment_tracking, setup_ecs_event_tracking, setup_target_health_tracking,
  update_deployment_status,
}
use otto_handler.Rollout.Types.{
  Pipeline, Balancer, Setting, Deployed, Call, find_pipeline, infrastructure, with_deployments, Ret,
}
use otto_handler.Rollout.Network.{setup_application_load_balancer, ensure_log_group_exists}
use otto_handler.Rollout.Tasks.{service_name, setup_ecs_service}
use otto_handler.Rollout.Routing.{
  setup_target_group, setup_alb_routing, setup_route53_record, text_take, last_two,
  extract_base_domain, generate_deploy_url,
}
use otto_handler.Rollout.Service.{
  start_of, resource_updates, result, name_stream, track, route, set_up_resources, deploy_image,
  url_of, deploy_after_build,
}

-- No character of the text is a point.
abbrev pub has_no_point : String → Bool
has_no_point s = lacks b'.' s

text_take-has_no_point :
    (n : ℕ) (s : String) → has_no_point s ≡ true → has_no_point (text_take n s) ≡ true
unfolding lacks text_take
text_take-has_no_point zero s e = refl
text_take-has_no_point (suc n) String.[] e = refl
text_take-has_no_point (suc n) (String.◌∷◌ c s) e = elim (Bool-cases (code c == b'.')) [
  | inl f ↦ let g = rw f at e in absurd (ground arith)
  | inr f ↦ rw f (text_take-has_no_point n s (rw f at e))
]

split_name :
    (s : String)
    → has_no_point s ≡ true
    → split b'.' (String.◌++◌ s ".codecat-otto.shop") ≡ s ∷ "codecat-otto" ∷ "shop" ∷ []
unfolding split
split_name s e =
    split-append b'.' "." s "codecat-otto.shop" refl
    ∙ ap (λ parts. parts ++ split b'.' "codecat-otto.shop") (split-lacks b'.' s e)

module _ (env : Env Call Ret) (clock : Clock Call) (s : Setting) where
  -- Every URL that is generated lies in the zone codecat-otto.shop, if hashes have no point.
  pub extract_base_domain-generate_deploy_url :
      (user pipeline : String) (time : ℕ)
      → ((text : String) → has_no_point (s.sha256 text) ≡ true)
      → extract_base_domain (generate_deploy_url env clock s user pipeline time)
        ≡ "codecat-otto.shop"
  unfolding extract_base_domain generate_deploy_url
  extract_base_domain-generate_deploy_url user pipeline time no_point =
      ap (λ parts. last_two parts (generate_deploy_url env clock s user pipeline time))
        (split_name (text_take 10 (s.sha256 (template (s.to_text time ∷ user ∷ pipeline ∷ []))))
          (text_take-has_no_point 10 _ (no_point _)))

  abbrev Has : String → Deployed → Type 0
  Has url r = r.deploy_url ≡ url

  track-Yields :
      (p : Pipeline) (execution : Option String) (d : Deployment) (alb : Balancer)
      (url group service cluster : String)
      → Yields (Has url) (track env clock s p execution d alb url group service cluster)
  track-Yields p execution d alb url group service cluster =
      Yields->>= (Has url)
        (with_deployments env clock (λ e c.
          setup_ecs_event_tracking e s.config c d.deployment_id (service_name p.pipeline_id)
            cluster))
        _
        (λ _.
          Yields->>= (Has url)
            (with_deployments env clock
              (λ e c. setup_target_health_tracking e s.config c d.deployment_id group))
            _
            (λ _.
              Yields->>= (Has url)
                (with_deployments env clock (λ e c.
                  update_deployment_status e s.config c d.deployment_id waiting_health_check
                    (resource_updates url service group alb)))
                _
                (λ _.
                  Yields->>= (Has url)
                    (name_stream env clock s execution (service_name p.pipeline_id) d) _
                    (λ _. Yields-return (Has url) (result url service group alb d) refl))))

  route-Yields :
      (p : Pipeline) (id user : String) (execution : Option String) (d : Deployment) (url : String)
      (alb : Balancer) (group : String)
      → Yields (Has url) (route env clock s p id user execution d url alb group)
  route-Yields p id user execution d url alb group =
      Yields->>= (Has url) (setup_alb_routing env clock s alb.listener_arn url group) _ (λ _.
        Yields->>= (Has url) (ensure_log_group_exists env s id) _ (λ _.
          Yields->>= (Has url) (setup_ecs_service env s p url group execution) _ (λ service.
            Yields->>= (Has url)
              (setup_route53_record env clock s url alb.dns_name alb.canonical_hosted_zone_id) _
              (λ _.
                Yields->>= (Has url) (call env infrastructure) _
                  (λ i. track-Yields p execution d alb url group service i.cluster_name)))))

  set_up_resources-Yields :
      (p : Pipeline) (id user : String) (execution : Option String) (d : Deployment) (url : String)
      → Yields (Has url) (set_up_resources env clock s p id user execution d url)
  set_up_resources-Yields p id user execution d url =
      Yields->>= (Has url) (setup_application_load_balancer env s) _ (λ alb.
        Yields->>= (Has url) (setup_target_group env clock s id alb.vpc_id p) _
          (λ group. route-Yields p id user execution d url alb group))

  url_of-known :
      (p : Pipeline) (user id url : String)
      → p.deploy_url ≡ some url
      → nonempty url ≡ true
      → url_of env clock s p user id ≡ return url
  unfolding url_of
  url_of-known p user id url u n = rw (u, n) refl

  deploy_image-Yields :
      (p : Pipeline) (id user : String) (execution : Option String) (url : String)
      → p.deploy_url ≡ some url
      → nonempty url ≡ true
      → Yields (Has url) (deploy_image env clock s p id user execution)
  deploy_image-Yields p id user execution url u n =
      Yields->>= (Has url)
        (with_deployments env clock
          (λ e c. start_deployment_tracking e s.config c (start_of p id user)))
        (λ d. url_of env clock s p user id >>= set_up_resources env clock s p id user execution d)
        (λ d.
          rw (url_of-known p user id url u n) (set_up_resources-Yields p id user execution d url))

  -- A pipeline that has a URL keeps it: a deployment of it that resolves gives that URL back.
  deploy_after_build_url :
      (id user : String) (execution : Option String) (p : Pipeline) (url : String) (h k : List Call)
      (r : Deployed)
      → env h (find_pipeline id) ≡ resolve (some p)
      → p.deploy_url ≡ some url
      → nonempty url ≡ true
      → deploy_after_build env clock s id user execution h ≡ ok r k
      → r.deploy_url ≡ url
  unfolding deploy_after_build
  deploy_after_build_url id user execution p url h k r f u n e =
      elim (Bool-cases (truthy p.ecr_image_uri)) [
        | inl i ↦
            (deploy_image-Yields p id user execution url u n).at (find_pipeline id ∷ h) r k
              (rw (f, i) at e)
        | inr i ↦ absurd (ground arith)
      ]
