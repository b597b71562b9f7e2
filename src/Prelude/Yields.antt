-- ===== src/Prelude/Yields.antt =====
-- What holds of the result of a computation that resolves, whatever its steps do.
use mathlib.Core.Path.{◌≡◌, refl, subst, ◌∙◌}
use mathlib.Core.Logic.{inl, inr}
use mathlib.Core.List.{List, [], map, ◌++◌}
use otto_handler.Prelude.Lift.{lifted, inner_clock, inside}
use otto_handler.Prelude.Effects.{
  Error, Outcome, Outcome-cases, Reply, Env, Clock, try_catch, throw, ok, M, ◌>>=◌, return, fail,
  >>=-eq-ok,
}

pub record Yields {Call A : Type 0} (P : A → Type 0) (m : M Call A) : Type 0 where
  pub at : (h : List Call) (a : A) (k : List Call) → m h ≡ ok a k → P a

same_result : {Call A : Type 0} {a b : A} {h k : List Call} → ok a h ≡ ok b k → a ≡ b
same_result e = cc

lifted_result :
    {Inner Call A : Type 0} (P : A → Type 0) (wrap : Inner → Call) (h : List Call)
    (o : Outcome Inner A) (b : A) (k : List Call)
    → ((a : A) (j : List Inner) → o ≡ ok a j → P a)
    → lifted wrap h o ≡ ok b k
    → P b
lifted_result P wrap h (ok a j) b k p e = subst P (same_result e) (p a j refl)
lifted_result P wrap h (throw x j) b k p e = absurd cc

module _ {Call : Type 0} where
  pub Yields-return :
      {A : Type 0} (P : A → Type 0) (a : A) → P a → Yields {Call = Call} P (return a)
  Yields-return P a p = record { at = λ h b k e. subst P (same_result e) p }

  pub Yields-fail : {A : Type 0} (P : A → Type 0) (e : Error) → Yields {Call = Call} P (fail e)
  Yields-fail P e = record { at = λ h b k d. absurd cc }

  pub Yields->>= :
      {A B : Type 0} (P : B → Type 0) (m : M Call A) (f : A → M Call B)
      → ((a : A) → Yields P (f a))
      → Yields P (m >>= f)
  Yields->>= P m f p = record {
    at = λ h b k e. let (a, j, _, r) = >>=-eq-ok (m h) f e in (p a).at j b k r;
  }

  -- The rest of a computation may use what holds of the first result.
  pub Yields->>=_given :
      {A B : Type 0} (Q : A → Type 0) (P : B → Type 0) (m : M Call A) (f : A → M Call B)
      → Yields Q m
      → ((a : A) → Q a → Yields P (f a))
      → Yields P (m >>= f)
  Yields->>=_given Q P m f q p = record {
    at = λ h b k e. let (a, j, d, r) = >>=-eq-ok (m h) f e in (p a (q.at h a j d)).at j b k r;
  }

  pub Yields-try_catch :
      {A : Type 0} (P : A → Type 0) (m : M Call A) (f : Error → M Call A)
      → Yields P m
      → ((e : Error) → Yields P (f e))
      → Yields P (try_catch m f)
  Yields-try_catch P m f p q = record {
    at = λ h b k e. elim (Outcome-cases (m h)) [
      | inl (a, j, r) ↦ let d : ok a j ≡ ok b k = rw r at e in p.at h b k (r ∙ d)
      | inr (x, j, r) ↦ let d : f x j ≡ ok b k = rw r at e in (q x).at j b k d
    ];
  }

-- What holds of a result of the inner component.
pub Yields-inside :
    {Inner Call A : Type 0} {R : Inner → Type 0} (P : A → Type 0) (wrap : Inner → Call)
    (reply : List Call → (c : Inner) → Reply (R c)) (clock : Clock Call)
    (run : Env Inner R → Clock Inner → M Inner A)
    → ((e : Env Inner R) (c : Clock Inner) → Yields P (run e c))
    → Yields P (inside wrap reply clock run)
Yields-inside P wrap reply clock run p = record {
  at = λ h b k e.
      lifted_result P wrap h (run (λ k c. reply (map wrap k ++ h) c) (inner_clock wrap clock h) [])
        b k ((p (λ k c. reply (map wrap k ++ h) c) (inner_clock wrap clock h)).at []) e;
}
