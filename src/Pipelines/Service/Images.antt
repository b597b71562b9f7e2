-- ===== src/Pipelines/Service/Images.antt =====
-- The image that a run of a pipeline builds (src/pipeline/pipeline.service.ts).
use otto_handler.Prelude.{
  ◌≡◌, Bool-cases, inl, inr, String, List, ◌∷◌, Option, none, some, truthy, subst, ap, ◌∙◌, arith,
}
use otto_handler.Prelude.Effects.{
  Error, ok, resolve, Env, Clock, M, Reply-cases, or_throw, >>=-eq-ok,
}
use otto_handler.Prelude.Yields.{Yields-inside}
use otto_handler.Builds
use otto_handler.Builds.Types
use otto_handler.Builds.Types.{Started, caller_identity}
use otto_handler.Builds.Registry.{generate_image_tag, image_uri, generate_image_uri}
use otto_handler.Builds.Runs.Starts.{Tagged, start_build-Tagged}
use otto_handler.Pipelines.Types.{
  Project, Pipeline, Executed, Setting, Call, builds, find_mine, update_images, with_builds, Ret,
}
use otto_handler.Pipelines.Service.{
  build_request, executed, not_found, mine, store_images, name_image, execute_in, execute_mine,
  execute_pipeline,
}

module _ (env : Env Call Ret) (clock : Clock Call) (s : Setting) where
  -- The run ended with the storing of the image's names, which are those of the project and of the
  -- build's number.
  pub record Imaged (id : String) (project : Project) (r : Executed) (k : List Call) : Type 0 where
    pub earlier : List Call
    pub account : Option String
    pub own_account : env earlier (builds caller_identity) ≡ resolve account
    pub calls : k ≡ update_images id r.ecr_image_uri r.image_tag ∷ builds caller_identity ∷ earlier
    pub tag : r.image_tag ≡ generate_image_tag project.user_id project.project_id r.build_number
    pub uri :
        r.ecr_image_uri
        ≡ image_uri s.builds account project.user_id project.project_id r.build_number

  -- The URI of an image in the registry of the account that is answered to the caller.
  record Named (project : Project) (number uri : String) (h k : List Call) : Type 0 where
    account : Option String
    answered : env h (builds caller_identity) ≡ resolve account
    named : uri ≡ image_uri s.builds account project.user_id project.project_id number
    asked : k ≡ builds caller_identity ∷ h

  uri-Named :
      (project : Project) (number uri : String) (h k : List Call)
      → with_builds env clock
          (λ e _. generate_image_uri e s.builds project.user_id project.project_id number)
          h
        ≡ ok uri k
      → Named project number uri h k
  unfolding generate_image_uri
  uri-Named project number uri h k e = elim (Reply-cases (env h (builds caller_identity))) [
    | inl (a, f) ↦ let d = rw f at e in record { account = a; answered = f; named = cc; asked = cc }
    | inr (x, f) ↦ let d = rw f at e in absurd (ground arith)
  ]

  moved-Imaged :
      (id : String) (project : Project) (a b : Executed) (j k : List Call)
      → ok a j ≡ ok b k
      → Imaged id project a j
      → Imaged id project b k
  moved-Imaged id project a b j k e stored =
      let same : a ≡ b = cc in
      let calls : j ≡ k = cc in
      subst (λ r. Imaged id project r k) same (subst (Imaged id project a) calls stored)

  store_images-Imaged :
      (id : String) (project : Project) (b : Started) (uri : String) (h j : List Call)
      (r : Executed) (k : List Call)
      → b.image_tag ≡ generate_image_tag project.user_id project.project_id b.build_number
      → Named project b.build_number uri h j
      → store_images env clock s id b uri j ≡ ok r k
      → Imaged id project r k
  store_images-Imaged id project b uri h j r k t n e =
      elim (Reply-cases (env j (update_images id uri b.image_tag))) [
        | inl (tt, f) ↦
            moved-Imaged id project (executed b uri) r (update_images id uri b.image_tag ∷ j) k
              (rw f at e)
              (record {
                earlier = h;
                account = n.account;
                own_account = n.answered;
                calls = ap (λ c. update_images id uri b.image_tag ∷ c) n.asked;
                tag = t;
                uri = n.named;
              })
        | inr (x, f) ↦ let d = rw f at e in absurd (ground arith)
      ]

  named-Imaged :
      (id : String) (project : Project) (b : Started) (h : List Call) (r : Executed) (k : List Call)
      → b.image_tag ≡ generate_image_tag project.user_id project.project_id b.build_number
      → name_image env clock s id project b h ≡ ok r k
      → Imaged id project r k
  named-Imaged id project b h r k t e =
      let run : (Env Types.Call Types.Ret → Clock Types.Call → M Types.Call String) =
        λ e _. generate_image_uri e s.builds project.user_id project.project_id b.build_number in
      let (uri, j, d, last) =
        >>=-eq-ok (with_builds env clock run h) (store_images env clock s id b) e in
      store_images-Imaged id project b uri h j r k t (uri-Named project b.build_number uri h j d)
        last

  executed-Imaged :
      (id : String) (p : Pipeline) (project : Project) (h : List Call) (r : Executed)
      (k : List Call)
      → execute_in env clock s id p project h ≡ ok r k
      → Imaged id project r k
  executed-Imaged id p project h r k e =
      let request = build_request id p project in
      let run : (Env Types.Call Types.Ret → Clock Types.Call → M Types.Call Started) =
        λ e c. Builds.Runs.start_build e c s.builds request in
      elim (Bool-cases (truthy project.codebuild_project_name)) [
        | inl t ↦
            let (b, j, d, rest) =
              >>=-eq-ok (with_builds env clock run h) (name_image env clock s id project)
                (rw t at e) in
            named-Imaged id project b j r k
              ((Yields-inside (Tagged request) builds (λ h c. env h (builds c)) clock run
                  (λ e c. start_build-Tagged e c s.builds request)).at
                h b j d)
              rest
        | inr f ↦ let d = rw f at e in absurd (ground arith)
      ]

  -- How a run that resolves came about: the pipeline is the one that was found for the user, the image
  -- is named for its project, and the names were stored last.
  pub record Stored (id user : String) (h : List Call) (r : Executed) (k : List Call) : Type 0 where
    pub pipeline : Pipeline
    pub found : env h (find_mine id user) ≡ resolve (some pipeline)
    pub project : Project
    pub of_pipeline : pipeline.project ≡ some project
    pub image : Imaged id project r k

  mine-found :
      (id user : String) (h : List Call) (p : Pipeline) (j : List Call)
      → mine env clock s id user h ≡ ok p j
      → env h (find_mine id user) ≡ resolve (some p)
  mine-found id user h p j e = elim (Reply-cases (env h (find_mine id user))) [
    | inl (some q, f) ↦
        let d = rw f at e in let same : q ≡ p = cc in f ∙ ap (λ x. resolve (some x)) same
    | inl (none, f) ↦ let d = rw f at e in absurd (ground arith)
    | inr (x, f) ↦ let d = rw f at e in absurd (ground arith)
  ]

  or_throw-some :
      (o : Option Project) (x : Error) (j : List Call) (a : Project) (i : List Call)
      → or_throw o x j ≡ ok a i
      → o ≡ some a
  or_throw-some none x j a i e = cc
  or_throw-some (some b) x j a i e = cc

  -- A run of a pipeline that resolves has stored the tag and the URI of the image last: both name the
  -- user and the project of the pipeline that was found for the caller, and the number of the build
  -- that it gives back, and the URI names the account that was answered just before.
  pub execute_pipeline-Stored :
      (id user : String) (h : List Call) (r : Executed) (k : List Call)
      → execute_pipeline env clock s id user h ≡ ok r k
      → Stored id user h r k
  unfolding execute_pipeline
  execute_pipeline-Stored id user h r k e =
      let (p, j, d, rest) =
        >>=-eq-ok (mine env clock s id user h) (execute_mine env clock s id) e in
      let (project, i, d', last) =
        >>=-eq-ok (or_throw p.project (not_found "Project not found") j)
          (execute_in env clock s id p) rest in
      record {
        pipeline = p;
        found = mine-found id user h p j d;
        project = project;
        of_pipeline = or_throw-some p.project (not_found "Project not found") j project i d';
        image = executed-Imaged id p project i r k last;
      }
