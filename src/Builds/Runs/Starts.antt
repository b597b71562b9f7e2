-- ===== src/Builds/Runs/Starts.antt =====
-- The start of a build (src/codebuild/codebuild.service.ts).
use otto_handler.Prelude.{◌≡◌, refl, ℕ, String, List, ◌∷◌, Option, some}
use otto_handler.Prelude.Effects.{error, ok, resolve, Env, Clock, return, call, now, when, or_throw}
use otto_handler.Prelude.Yields.{Yields, Yields-return, Yields-fail, Yields->>=, Yields-try_catch}
use otto_handler.Prelude.Resolves.{Resolves, caught-Resolves, return-Resolves, if-Resolves}
use otto_handler.Builds.Types.{Setting, NewBuild, Started, Build, Call, start_codebuild, Ret}
use otto_handler.Builds.Runs.{
  overrides, spec_override, id_of, number_of, tag_of, build_error, number_or_time, record_execution,
  started, is_eventbridge, finish, numbered, start_build,
}

-- The tag of the image has the number of the build.
abbrev pub Tagged : NewBuild → Started → Type 0
Tagged c b = b.image_tag ≡ tag_of c b.build_number

module _ (env : Env Call Ret) (clock : Clock Call) (s : Setting) where
  recorded-Resolves :
      (c : NewBuild) (build number : String)
      → Resolves (when (is_eventbridge env clock s) (record_execution env clock s c build number))
  unfolding record_execution
  recorded-Resolves c build number =
      if-Resolves (is_eventbridge env clock s) _ _ (caught-Resolves _) return-Resolves

  finish-Tagged :
      (c : NewBuild) (build number : String) → Yields (Tagged c) (finish env clock s c build number)
  finish-Tagged c build number =
      Yields->>= (Tagged c)
        (when (is_eventbridge env clock s) (record_execution env clock s c build number))
        (λ _. return (started env clock s c build number))
        (λ _. Yields-return (Tagged c) (started env clock s c build number) refl)

  numbered-Tagged :
      (c : NewBuild) (b : Option Build) (build : String)
      → Yields (Tagged c) (numbered env clock s c b build)
  numbered-Tagged c b build =
      Yields->>= (Tagged c) (number_or_time env clock s build (number_of b))
        (finish env clock s c build) (finish-Tagged c build)

  -- The image of a build that was started is tagged with the number of the build.
  pub start_build-Tagged : (c : NewBuild) → Yields (Tagged c) (start_build env clock s c)
  unfolding start_build
  start_build-Tagged c =
      Yields-try_catch (Tagged c) _ _
        (Yields->>= (Tagged c) (now clock) _ (λ time.
          Yields->>= (Tagged c)
            (call env
              (start_codebuild c.project_name (overrides s c time) (spec_override c.flow_nodes)))
            _
            (λ b.
              Yields->>= (Tagged c)
                (or_throw (id_of b) (error "Failed to get build ID from CodeBuild response"))
                (numbered env clock s c b) (numbered-Tagged c b))))
        (λ e. Yields-fail (Tagged c) (build_error "빌드 실행 실패: " e))

  -- A build that CodeBuild starts, and gives an id and a number, is started, also where no row can be
  -- stored for it and no poller started.
  pub start_build_resolves :
      (c : NewBuild) (h : List Call) (b : Option Build) (build : String) (n : ℕ)
      → env h
          (start_codebuild c.project_name (overrides s c (clock h)) (spec_override c.flow_nodes))
        ≡ resolve b
      → id_of b ≡ some build
      → number_of b ≡ some n
      → (k : List Call) × (start_build env clock s c h
          ≡ ok (started env clock s c build (s.to_text n)) k)
  unfolding start_build
  start_build_resolves c h b build n f i m =
      let next =
        start_codebuild c.project_name (overrides s c (clock h)) (spec_override c.flow_nodes) ∷ h in
      let (k, e) = (recorded-Resolves c build (s.to_text n)).at next in (k, rw (f, i, m, e) refl)
