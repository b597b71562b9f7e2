-- ===== src/Builds/Service/Names.antt =====
-- The names of build projects: what src/codebuild/codebuild.service.ts writes is read by
-- src/logs/eventbridge.service.ts.
use otto_handler.Prelude.{
  ℕ, suc, ◌+◌, ◌≢◌, ◌≡◌, refl, ap, ◌∙◌, true, false, Bool-cases, inl, inr, String, [], ◌∷◌, Option,
  none, some, nonempty, or_text, str_eq, eq_iff, ◌==◌, arith,
}
use Prim.Native.String
use Prim.Native.Char.{Char, code}
use text.Mathlib.TextLemmas.{append_assoc, append-nil, cons-append, nil-append}
use otto_handler.Prelude.Text.{template, strip_prefix}
use otto_handler.EventBridge.Deploy.{before_suffix, some_nonempty, behind_prefix, project_of_name}
use otto_handler.Builds.Types.{Setting}
use otto_handler.Builds.Service.{build_project_name}

unfoldable size : String → ℕ
size String.[] = 0
size (String.◌∷◌ c s) = suc (size s)

size-append : (s t : String) → size (String.◌++◌ s t) ≡ size s + size t
unfolding size
size-append String.[] t = ap size (nil-append t) ∙ omega arith
size-append (String.◌∷◌ c s) t = ap size (cons-append c s t) ∙ omega (arith, size-append s t)

longer-ne-suffix : (c : Char) (s : String) → String.◌∷◌ c (String.◌++◌ s "-build") ≢ "-build"
unfolding size
longer-ne-suffix c s e =
    let same : suc (size (String.◌++◌ s "-build")) ≡ 6 = ap size e in
    absurd (omega (arith, size-append s "-build"))

-- The text before a suffix is found.
before_suffix-append : (s : String) → before_suffix "-build" (String.◌++◌ s "-build") ≡ some s
unfolding before_suffix
before_suffix-append String.[] = refl
before_suffix-append (String.◌∷◌ c s) =
    ap (before_suffix "-build") (cons-append c s "-build")
    ∙ elim (Bool-cases (str_eq (String.◌∷◌ c (String.◌++◌ s "-build")) "-build")) [
      | inl t ↦ absurd (longer-ne-suffix c s ((eq_iff _ _).0 t))
      | inr f ↦ rw (f, before_suffix-append s) refl
    ]

-- A value of NODE_ENV that the pattern of the event service knows.
pub data Known : Option String → Type 0 where
  development : Known (some "development")
  production : Known (some "production")
  unset : Known none

strip_prefix-append : (p s : String) → strip_prefix p (String.◌++◌ p s) ≡ some s
unfolding strip_prefix
strip_prefix-append String.[] s = ap (strip_prefix "") (nil-append s)
strip_prefix-append (String.◌∷◌ c p) s =
    ap (strip_prefix (String.◌∷◌ c p)) (cons-append c p s)
    ∙ rw (strip_prefix-append p s) (ground arith)

-- Two texts that part behind a common beginning.
strip_prefix-none :
    (a : String) (c d : Char) (p s : String)
    → (code c == code d) ≡ false
    → strip_prefix (String.◌++◌ a (String.◌∷◌ c p)) (String.◌++◌ a (String.◌∷◌ d s)) ≡ none
unfolding strip_prefix
strip_prefix-none String.[] c d p s e =
    rw (nil-append (String.◌∷◌ c p), nil-append (String.◌∷◌ d s)) (rw e refl)
strip_prefix-none (String.◌∷◌ b a) c d p s e =
    rw (cons-append b a (String.◌∷◌ c p), cons-append b a (String.◌∷◌ d s))
      (rw (strip_prefix-none a c d p s e) (ground arith))

abbrev printed : (node_env rest : String) → String
printed node_env rest = template ("otto-" ∷ node_env ∷ "-" ∷ rest ∷ "-build" ∷ [])

printed_assoc :
    (node_env rest : String)
    → printed node_env rest
      ≡ String.◌++◌ (String.◌++◌ "otto-" (String.◌++◌ node_env "-")) (String.◌++◌ rest "-build")
printed_assoc node_env rest = simp (append_assoc, append-nil)

of_development :
    (rest : String) → behind_prefix (printed "development" rest) ≡ some (String.◌++◌ rest "-build")
of_development rest =
    ap behind_prefix (printed_assoc "development" rest)
    ∙ rw (strip_prefix-append "otto-development-" (String.◌++◌ rest "-build"), behind_prefix) refl

not_development :
    (rest : String) → strip_prefix "otto-development-" (printed "production" rest) ≡ none
not_development rest =
    ap (λ t. strip_prefix "otto-development-" (String.◌++◌ "otto-" t))
      (cons-append "p" "roduction" (template ("-" ∷ rest ∷ "-build" ∷ [])))
    ∙ strip_prefix-none "otto-" "d" "p" "evelopment-"
        (String.◌++◌ "roduction" (template ("-" ∷ rest ∷ "-build" ∷ []))) refl

of_production :
    (rest : String) → behind_prefix (printed "production" rest) ≡ some (String.◌++◌ rest "-build")
of_production rest =
    rw (not_development rest, behind_prefix)
      (ap (strip_prefix "otto-production-") (printed_assoc "production" rest)
        ∙ strip_prefix-append "otto-production-" (String.◌++◌ rest "-build"))

behind_prefix-name :
    (node_env : Option String) (rest : String)
    → Known node_env
    → behind_prefix (printed (or_text node_env "development") rest)
      ≡ some (String.◌++◌ rest "-build")
behind_prefix-name _ rest development = of_development rest
behind_prefix-name _ rest production = of_production rest
behind_prefix-name _ rest unset = of_development rest

some_nonempty-some : (s : String) → nonempty s ≡ true → some_nonempty (some s) ≡ some s
some_nonempty-some s e = rw e refl

-- The id of a project is read back from the name of its build project.
pub project_of_name-build_project_name :
    (s : Setting) (id : String)
    → Known s.node_env
    → nonempty id ≡ true
    → project_of_name (build_project_name s id) ≡ some id
unfolding project_of_name
project_of_name-build_project_name s id k e =
    ap
      (λ (found : Option String). elim found [
        | none ↦ none
        | some t ↦ some_nonempty (before_suffix "-build" t)
      ])
      (behind_prefix-name s.node_env id k)
    ∙ ap some_nonempty (before_suffix-append id)
    ∙ some_nonempty-some id e
