-- ===== src/Prelude/Resolves.antt =====
-- Computations that never reject, and what is done after them.
use mathlib.Core.Path.{◌≡◌, refl}
use mathlib.Core.Bool.{Bool, true, false}
use mathlib.Core.List.{List, [], map, ◌++◌}
use otto_handler.Prelude.Tests.{if◌then◌else◌}
use otto_handler.Prelude.Effects.{
  Error, Reply, ok, history, Env, Clock, M, return, call, try_catch, ◌>>=◌, ◌>>◌,
}
use otto_handler.Prelude.Lift.{inner_clock, inside}
use otto_handler.Prelude.Grows.{
  Made, Grows, Made-and_then, Made-or_else, Made-call, Made-lifted, caught_resolves,
}

pub record Resolves {Call : Type 0} (m : M Call (Unit {0})) : Type 0 where
  pub at : (h : List Call) → (k : List Call) × (m h ≡ ok tt k)

module _ {Call : Type 0} where
  pub caught-Resolves : (m : M Call (Unit {0})) → Resolves (try_catch m (λ _. return tt))
  caught-Resolves m = record { at = caught_resolves m }

  pub return-Resolves : Resolves {Call = Call} (return tt)
  return-Resolves = record { at = λ h. (h, refl) }

  pub >>-Resolves : (m n : M Call (Unit {0})) → Resolves m → Resolves n → Resolves (m >> n)
  >>-Resolves m n p q = record {
    at = λ h. let (k, e) = p.at h in let (k', f) = q.at k in (k', rw e f);
  }

  pub if-Resolves :
      (b : Bool) (m n : M Call (Unit {0})) → Resolves m → Resolves n → Resolves (if b then m else n)
  if-Resolves true m n p q = p
  if-Resolves false m n p q = q

  -- What is done after a computation that never rejects is done.
  pub Made-next :
      (m n : M Call (Unit {0})) (c : Call) (h : List Call)
      → Resolves m
      → ((k : List Call) → Made c (history (n k)))
      → Made c (history ((m >> n) h))
  Made-next m n c h p q = let (k, e) = p.at h in rw e (q k)

-- A computation that makes the call, whatever happens.
pub record Makes {Call A : Type 0} (c : Call) (m : M Call A) : Type 0 where
  pub at : (h : List Call) → Made c (history (m h))

module _ {Call : Type 0} where
  pub Makes-call : {Ret : Call → Type 0} (env : Env Call Ret) (c : Call) → Makes c (call env c)
  Makes-call env c = record { at = λ h. Made-call env c h }

  pub Makes-next :
      {A : Type 0} (m : M Call (Unit {0})) (n : M Call A) (c : Call)
      → Resolves m
      → Makes c n
      → Makes c (m >> n)
  Makes-next m n c p q = record { at = λ h. let (k, e) = p.at h in rw e (q.at k) }

  pub Makes->>= :
      {A B : Type 0} (m : M Call A) (f : A → M Call B) (c : Call)
      → Makes c m
      → ((a : A) → Grows (f a))
      → Makes c (m >>= f)
  Makes->>= m f c p q = record { at = λ h. Made-and_then (m h) f c q (p.at h) }

  pub Makes-try_catch :
      {A : Type 0} (m : M Call A) (f : Error → M Call A) (c : Call)
      → Makes c m
      → ((e : Error) → Grows (f e))
      → Makes c (try_catch m f)
  Makes-try_catch m f c p q = record { at = λ h. Made-or_else (m h) f c q (p.at h) }

-- What the inner component does is done.
pub Makes-inside :
    {Inner Call A : Type 0} {R : Inner → Type 0} (wrap : Inner → Call)
    (reply : List Call → (c : Inner) → Reply (R c)) (clock : Clock Call)
    (run : Env Inner R → Clock Inner → M Inner A) (d : Inner)
    → ((e : Env Inner R) (c : Clock Inner) → Makes d (run e c))
    → Makes (wrap d) (inside wrap reply clock run)
Makes-inside wrap reply clock run d p = record {
  at = λ h.
      Made-lifted wrap d h (run (λ k c. reply (map wrap k ++ h) c) (inner_clock wrap clock h) [])
        ((p (λ k c. reply (map wrap k ++ h) c) (inner_clock wrap clock h)).at []);
}
