-- ===== src/Projects/Service/Creation.antt =====
-- The failures of the creation of a project (src/project/project.service.ts).
use otto_handler.Prelude.{◌≡◌, refl, ap, sym, ◌∙◌, String, List, [], ◌∷◌, map, ◌++◌}
use otto_handler.Prelude.Effects.{Error, ok, throw, history, Env, Clock}
use otto_handler.Prelude.Grows.{history-lifted}
use otto_handler.Prelude.Lift.{inner_clock}
use otto_handler.Builds
use otto_handler.Builds.Types
use otto_handler.Builds.Types.{
  Setting, Created, delete_repository, delete_log_group, delete_build_project,
}
use otto_handler.Builds.Service.Undone.{undone, undone-append, create_project-Keeps}
use otto_handler.Projects.Types.{CreateProject, Call, builds, Ret}
use otto_handler.Projects.Service.{
  build_request, creation_error, generate_project_id, rollback_created_resources, create_build,
  create_project,
}

-- The calls of the build services.
unfoldable pub build_calls : List Call → List Types.Call
build_calls [] = []
build_calls (builds c ∷ cs) = c ∷ build_calls cs
build_calls (_ ∷ cs) = build_calls cs

-- The image repositories, log groups and build projects whose deletion was called.
abbrev pub deleted : List Call → List String
deleted h = undone (build_calls h)

build_calls-append :
    (k : List Types.Call) (h : List Call) → build_calls (map builds k ++ h) ≡ k ++ build_calls h
unfolding build_calls
build_calls-append [] h = refl
build_calls-append (c ∷ k) h = rw (build_calls-append k h) refl

nothing : (h : List Types.Call) → undone [] ++ undone h ≡ undone h
unfolding undone
nothing h = refl

module _ (env : Env Call Ret) (clock : Clock Call) (s : Setting) where
  build-Keeps :
      (dto : CreateProject) (user id : String) (h : List Call)
      → deleted (history (create_build env clock s dto user id h)) ≡ deleted h
  build-Keeps dto user id h =
      let reply : Env Types.Call Types.Ret = λ k c. env (map builds k ++ h) (builds c) in
      let o =
        Builds.Service.create_project reply (inner_clock builds clock h) s
          (build_request dto user id) [] in
      ap deleted (history-lifted builds h o)
      ∙ ap undone (build_calls-append (history o) h)
      ∙ undone-append (history o) (build_calls h)
      ∙ ap (λ names. names ++ undone (build_calls h))
          ((create_project-Keeps reply (inner_clock builds clock h) s
              (build_request dto user id)).at
            [])
      ∙ nothing (build_calls h)

  -- Where the build project cannot be created, the creation fails with that error, and has called no
  -- deletion of an image repository, a log group or a build project: whatever of these the build services
  -- had created by then stays. The rule that reports on builds is not counted.
  pub create_project_leaves :
      (dto : CreateProject) (user id : String) (h k j : List Call) (e : Error)
      → generate_project_id env clock s h ≡ ok id k
      → create_build env clock s dto user id k ≡ throw e j
      → (create_project env clock s dto user h ≡ throw (creation_error e) j)
        × (deleted j ≡ deleted k)
  unfolding create_project rollback_created_resources
  create_project_leaves dto user id h k j e g f =
      (rw (g, f) refl, ap (λ o. deleted (history o)) (sym f) ∙ build-Keeps dto user id k)
