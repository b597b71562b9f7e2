-- ===== src/Projects/Service/Rollback.antt =====
-- The roll-back of src/project/project.service.ts, after a project that could not be stored.
use otto_handler.Prelude.{◌≡◌, refl, subst, ap, true, nonempty, String, List, ◌∷◌, some}
use otto_handler.Prelude.Effects.{Error, ok, throw, reject, history, Env, Clock, M, ◌>>◌}
use otto_handler.Prelude.Grows.{Made, Grows, Grows->>=}
use otto_handler.Prelude.Resolves.{Resolves, Makes, Makes-next, Makes->>=, >>-Resolves}
use otto_handler.Prelude.Yields.{Yields, Yields-inside}
use otto_handler.Builds.Registry.{repository_name}
use otto_handler.Builds.Service.{build_project_name, log_group_of}
use otto_handler.Builds.Service.Naming.{Named, nonempty-names, create_project-Named}
use otto_handler.Builds
use otto_handler.Builds.Types.{
  Setting, Created, delete_repository, delete_log_group, delete_build_project,
}
use otto_handler.Projects.Types.{Resources, CreateProject, Call, builds, save_project, Ret}
use otto_handler.Projects.Service.Parts.{
  without_project, without_repository, without_group, if-named-Resolves, if-named-Grows,
  if-named-Makes, without_project-Makes, without_repository-Makes, without_group-Makes,
  without_repository-Grows, without_group-Grows,
}
use otto_handler.Projects.Service.{
  deleted_if, build_request, new_project, resources_of, creation_error, generate_project_id,
  rollback_created_resources, create_build, create_project,
}

module _ (env : Env Call Ret) (clock : Clock Call) (s : Setting) where
  -- What is left of a roll-back after its first part.
  abbrev after_project : Resources → M Call (Unit {0})
  after_project r =
      deleted_if env clock s r.ecr_repository (without_repository env clock s)
      >> deleted_if env clock s r.cloudwatch_log_group (without_group env clock s)

  after_project-Grows : (r : Resources) → Grows (after_project r)
  after_project-Grows r =
      Grows->>= _ _
        (if-named-Grows env clock s r.ecr_repository (without_repository env clock s)
          (without_repository-Grows env clock s))
        (λ _.
          if-named-Grows env clock s r.cloudwatch_log_group (without_group env clock s)
            (without_group-Grows env clock s))

  rollback-Resolves : (r : Resources) → Resolves (rollback_created_resources env clock s r)
  unfolding rollback_created_resources
  rollback-Resolves r =
      >>-Resolves (deleted_if env clock s r.codebuild_project (without_project env clock s))
        (after_project r)
        (if-named-Resolves env clock s r.codebuild_project (without_project env clock s))
        (>>-Resolves _ _
          (if-named-Resolves env clock s r.ecr_repository (without_repository env clock s))
          (if-named-Resolves env clock s r.cloudwatch_log_group (without_group env clock s)))

  module _ (id : String) (c : Created) where
    rollback-project :
        nonempty c.project_name ≡ true
        → Makes
            (builds (delete_build_project c.project_name))
            (rollback_created_resources env clock s (resources_of id c))
    unfolding rollback_created_resources
    rollback-project e =
        Makes->>= _ (λ _. after_project (resources_of id c))
          (builds (delete_build_project c.project_name))
          (if-named-Makes env clock s c.project_name (without_project env clock s) _ e
            (without_project-Makes env clock s c.project_name))
          (λ _. after_project-Grows (resources_of id c))

    rollback-repository :
        nonempty c.ecr_repository ≡ true
        → Makes
            (builds (delete_repository c.ecr_repository))
            (rollback_created_resources env clock s (resources_of id c))
    unfolding rollback_created_resources
    rollback-repository e =
        Makes-next (deleted_if env clock s (some c.project_name) (without_project env clock s))
          (after_project (resources_of id c)) (builds (delete_repository c.ecr_repository))
          (if-named-Resolves env clock s (some c.project_name) (without_project env clock s))
          (Makes->>= _ (λ _. deleted_if env clock s (some c.log_group) (without_group env clock s))
            (builds (delete_repository c.ecr_repository))
            (if-named-Makes env clock s c.ecr_repository (without_repository env clock s) _ e
              (without_repository-Makes env clock s c.ecr_repository))
            (λ _.
              if-named-Grows env clock s (some c.log_group) (without_group env clock s)
                (without_group-Grows env clock s)))

    rollback-group :
        nonempty c.log_group ≡ true
        → Makes
            (builds (delete_log_group c.log_group))
            (rollback_created_resources env clock s (resources_of id c))
    unfolding rollback_created_resources
    rollback-group e =
        Makes-next (deleted_if env clock s (some c.project_name) (without_project env clock s))
          (after_project (resources_of id c)) (builds (delete_log_group c.log_group))
          (if-named-Resolves env clock s (some c.project_name) (without_project env clock s))
          (Makes-next
            (deleted_if env clock s (some c.ecr_repository) (without_repository env clock s))
            (deleted_if env clock s (some c.log_group) (without_group env clock s))
            (builds (delete_log_group c.log_group))
            (if-named-Resolves env clock s (some c.ecr_repository) (without_repository env clock s))
            (if-named-Makes env clock s c.log_group (without_group env clock s) _ e
              (without_group-Makes env clock s c.log_group)))

  create_build-Named :
      (dto : CreateProject) (user id : String)
      → Yields (Named s user id) (create_build env clock s dto user id)
  create_build-Named dto user id =
      Yields-inside (Named s user id) builds (λ h c. env h (builds c)) clock
        (λ e c. Builds.Service.create_project e c s (build_request dto user id))
        (λ e c. create_project-Named e c s (build_request dto user id))

  -- Where a project cannot be stored, the creation fails, and has tried to delete the build project, the
  -- image repository and the log group of the project.
  pub create_project-RolledBack :
      (dto : CreateProject) (user id : String) (h k j : List Call) (c : Created) (e : Error)
      → generate_project_id env clock s h ≡ ok id k
      → create_build env clock s dto user id k ≡ ok c j
      → env j (save_project (new_project dto user id c)) ≡ reject e
      → (l : List Call) × (create_project env clock s dto user h ≡ throw (creation_error e) l)
        × Made (builds (delete_build_project (build_project_name s id))) l
        × Made (builds (delete_repository (repository_name s user id))) l
        × Made (builds (delete_log_group (log_group_of s user id))) l
  unfolding create_project
  create_project-RolledBack dto user id h k j c e g f r =
      let names = (create_build-Named dto user id).at k c j f in
      let (p, q, t) = nonempty-names s user id in
      let failed = save_project (new_project dto user id c) ∷ j in
      let (l, done) = (rollback-Resolves (resources_of id c)).at failed in
      (
        l,
        rw (g, f, r, done) refl,
        rw (← names.project) (
            subst (Made _) (ap history done)
              ((rollback-project id c (rw names.project p)).at failed)),
        rw (← names.repository) (
            subst (Made _) (ap history done)
              ((rollback-repository id c (rw names.repository q)).at failed)),
        rw (← names.group)
            (subst (Made _) (ap history done) ((rollback-group id c (rw names.group t)).at failed)),
      )
