-- ===== src/Builds/Rules/Names.antt =====
-- The names of the rules of src/codebuild/eventbridge.service.ts, for the build projects that
-- src/codebuild/codebuild.service.ts names.
use otto_handler.Prelude.{◌≡◌, refl, ap, ◌∙◌, true, String, List, [], ◌∷◌, ◌++◌, some}
use Prim.Native.String
use text.Mathlib.TextLemmas.{append_assoc, append-nil, cons-append}
use otto_handler.Prelude.Text.{template, split, shown_part}
use otto_handler.Prelude.Splits.{lacks, split-lacks, split-append}
use otto_handler.Builds.Types.{Setting}
use otto_handler.Builds.Registry.{environment}
use otto_handler.Builds.Rules.{second_last, short_environment, rule_name}
use otto_handler.Builds.Service.{build_project_name}

second_last-append : (xs : List String) (s t : String) → second_last (xs ++ (s ∷ t ∷ [])) ≡ some s
second_last-append [] s t = refl
second_last-append (x ∷ []) s t = refl
second_last-append (x ∷ y ∷ []) s t = refl
second_last-append (x ∷ y ∷ z ∷ xs) s t = second_last-append (y ∷ z ∷ xs) s t

-- The part before the last dash of a text.
second_last-split :
    (before part : String)
    → lacks b'-' part ≡ true
    → second_last (
        split b'-'
          (String.◌++◌ before (String.◌∷◌ "-" (String.◌++◌ part (String.◌∷◌ "-" "build")))))
      ≡ some part
unfolding split
second_last-split before part e =
    ap second_last (
      split-append b'-' "-" before (String.◌++◌ part (String.◌∷◌ "-" "build")) refl
      ∙ ap (λ parts. split b'-' before ++ parts)
          (split-append b'-' "-" part "build" refl
            ∙ ap (λ parts. parts ++ split b'-' "build") (split-lacks b'-' part e)))
    ∙ second_last-append (split b'-' before) part "build"

abbrev pub dashed : (s t : String) → String
dashed s t = String.◌++◌ s (String.◌∷◌ "-" t)

build_project_name-dashed :
    (s : Setting) (before part : String)
    → build_project_name s (dashed before part)
      ≡ String.◌++◌
          (template ("otto-" ∷ environment s ∷ "-" ∷ before ∷ []))
          (String.◌∷◌ "-" (String.◌++◌ part (String.◌∷◌ "-" "build")))
build_project_name-dashed s before part = simp (append_assoc, append-nil, cons-append)

-- The rule of a project is named by what stands behind the last dash of its id, whatever stands before
-- that.
pub rule_name-build_project_name :
    (s : Setting) (before part : String)
    → lacks b'-' part ≡ true
    → rule_name s.node_env (build_project_name s (dashed before part))
      ≡ template ("otto-" ∷ short_environment s.node_env ∷ "-" ∷ part ∷ [])
unfolding rule_name
rule_name-build_project_name s before part e =
    ap
      (λ name. template (
        "otto-"
        ∷ short_environment s.node_env
        ∷ "-"
        ∷ shown_part (second_last (split b'-' name))
        ∷ []))
      (build_project_name-dashed s before part)
    ∙ ap (λ found. template ("otto-" ∷ short_environment s.node_env ∷ "-" ∷ shown_part found ∷ []))
        (second_last-split (template ("otto-" ∷ environment s ∷ "-" ∷ before ∷ [])) part e)
