-- ===== src/Prelude/Keeps.antt =====
-- What a computation leaves as it is: a view of the calls made.
use mathlib.Core.Path.{◌≡◌, refl, ◌∙◌}
use mathlib.Core.Bool.{Bool, true, false}
use mathlib.Core.List.{List, ◌∷◌}
use otto_handler.Prelude.Tests.{if◌then◌else◌}
use otto_handler.Prelude.Effects.{
  Error, Reply, resolve, reject, Outcome, ok, throw, history, and_then, or_else, answer, Env, M,
  ◌>>=◌, return, fail, call, try_catch,
}

pub record Keeps {Call A X : Type 0} (view : List Call → X) (m : M Call A) : Type 0 where
  pub at : (h : List Call) → view (history (m h)) ≡ view h

module _ {Call X : Type 0} (view : List Call → X) where
  kept-and_then :
      {A B : Type 0} (o : Outcome Call A) (f : A → M Call B)
      → ((a : A) → Keeps view (f a))
      → view (history (and_then o f)) ≡ view (history o)
  kept-and_then (ok a h) f q = (q a).at h
  kept-and_then (throw e h) f q = refl

  kept-or_else :
      {A : Type 0} (o : Outcome Call A) (f : Error → M Call A)
      → ((e : Error) → Keeps view (f e))
      → view (history (or_else o f)) ≡ view (history o)
  kept-or_else (ok a h) f q = refl
  kept-or_else (throw e h) f q = (q e).at h

  pub Keeps-return : {A : Type 0} (a : A) → Keeps view (return a)
  Keeps-return a = record { at = λ h. refl }

  pub Keeps-fail : {A : Type 0} (e : Error) → Keeps {A = A} view (fail e)
  Keeps-fail e = record { at = λ h. refl }

  pub Keeps->>= :
      {A B : Type 0} (m : M Call A) (f : A → M Call B)
      → Keeps view m
      → ((a : A) → Keeps view (f a))
      → Keeps view (m >>= f)
  Keeps->>= m f p q = record { at = λ h. kept-and_then (m h) f q ∙ p.at h }

  pub Keeps-try_catch :
      {A : Type 0} (m : M Call A) (f : Error → M Call A)
      → Keeps view m
      → ((e : Error) → Keeps view (f e))
      → Keeps view (try_catch m f)
  Keeps-try_catch m f p q = record { at = λ h. kept-or_else (m h) f q ∙ p.at h }

  pub Keeps-if :
      {A : Type 0} (b : Bool) (m n : M Call A)
      → Keeps view m
      → Keeps view n
      → Keeps view (if b then m else n)
  Keeps-if true m n p q = p
  Keeps-if false m n p q = q

  history-answer : {A : Type 0} (r : Reply A) (h : List Call) → view (history (answer r h)) ≡ view h
  history-answer (resolve a) h = refl
  history-answer (reject e) h = refl

  pub Keeps-call :
      {Ret : Call → Type 0} (env : Env Call Ret) (c : Call)
      → ((h : List Call) → view (c ∷ h) ≡ view h)
      → Keeps view (call env c)
  Keeps-call env c q = record { at = λ h. history-answer (env h c) (c ∷ h) ∙ q h }
