-- ===== src/Prelude/Grows.antt =====
-- Calls that were made stay made: a computation only adds to the history.
use mathlib.Core.Path.{◌≡◌, refl}
use mathlib.Core.Logic.{inl, inr}
use mathlib.Core.Bool.{Bool, true, false}
use mathlib.Core.Option.{Option, none, some}
use mathlib.Core.List.{List, [], ◌∷◌, ◌++◌, map}
use otto_handler.Prelude.Tests.{if◌then◌else◌}
use otto_handler.Prelude.Lift.{lifted, inner_clock, inside}
use otto_handler.Prelude.Effects.{
  Error, Reply, resolve, reject, Outcome, Outcome-cases, ok, throw, history, and_then, or_else,
  after, Env, Clock, M, ◌>>=◌, return, fail, answer, call, now, or_throw, try_catch, finally,
  for_each,
}

-- The item is in the list.
pub data In {A : Type 0} (x : A) : List A → Type 0 where
  first : {xs : List A} → In x (x ∷ xs)
  later : (y : A) {xs : List A} → In x xs → In x (y ∷ xs)

-- The call is in the history.
pub data Made {Call : Type 0} (c : Call) : List Call → Type 0 where
  newest : {h : List Call} → Made c (c ∷ h)
  older : (d : Call) {h : List Call} → Made c h → Made c (d ∷ h)

pub record Grows {Call A : Type 0} (m : M Call A) : Type 0 where
  pub at : (c : Call) (h : List Call) → Made c h → Made c (history (m h))

module _ {Call : Type 0} where
  pub Grows-return : {A : Type 0} (a : A) → Grows {Call = Call} (return a)
  Grows-return a = record { at = λ c h m. m }

  pub Grows-fail : {A : Type 0} (e : Error) → Grows {Call = Call} {A = A} (fail e)
  Grows-fail e = record { at = λ c h m. m }

  pub Grows-now : (clock : Clock Call) → Grows (now clock)
  Grows-now clock = record { at = λ c h m. m }

  pub Grows-or_throw : {A : Type 0} (o : Option A) (e : Error) → Grows {Call = Call} (or_throw o e)
  Grows-or_throw none e = record { at = λ c h m. m }
  Grows-or_throw (some a) e = record { at = λ c h m. m }

  pub Grows-if :
      {A : Type 0} (b : Bool) (m n : M Call A) → Grows m → Grows n → Grows (if b then m else n)
  Grows-if true m n p q = p
  Grows-if false m n p q = q

  pub Made-and_then :
      {A B : Type 0} (o : Outcome Call A) (f : A → M Call B) (c : Call)
      → ((a : A) → Grows (f a))
      → Made c (history o)
      → Made c (history (and_then o f))
  Made-and_then (ok a h) f c q m = (q a).at c h m
  Made-and_then (throw e h) f c q m = m

  pub Grows->>= :
      {A B : Type 0} (m : M Call A) (f : A → M Call B)
      → Grows m
      → ((a : A) → Grows (f a))
      → Grows (m >>= f)
  Grows->>= m f p q = record { at = λ c h made. Made-and_then (m h) f c q (p.at c h made) }

  pub Made-or_else :
      {A : Type 0} (o : Outcome Call A) (f : Error → M Call A) (c : Call)
      → ((e : Error) → Grows (f e))
      → Made c (history o)
      → Made c (history (or_else o f))
  Made-or_else (ok a h) f c q m = m
  Made-or_else (throw e h) f c q m = (q e).at c h m

  pub Grows-try_catch :
      {A : Type 0} (m : M Call A) (f : Error → M Call A)
      → Grows m
      → ((e : Error) → Grows (f e))
      → Grows (try_catch m f)
  Grows-try_catch m f p q = record { at = λ c h made. Made-or_else (m h) f c q (p.at c h made) }

  Made-after :
      {A : Type 0} (o : Outcome Call A) (last : M Call (Unit {0})) (c : Call)
      → Grows last
      → Made c (history o)
      → Made c (history (after o last))
  Made-after (ok a h) last c q m =
      Made-and_then (last h) (λ _. return a) c (λ _. Grows-return a) (q.at c h m)
  Made-after {A} (throw e h) last c q m =
      Made-and_then (last h) (λ _. fail {A = A} e) c (λ _. Grows-fail e) (q.at c h m)

  pub Grows-finally :
      {A : Type 0} (m : M Call A) (last : M Call (Unit {0}))
      → Grows m
      → Grows last
      → Grows (finally m last)
  Grows-finally m last p q = record { at = λ c h made. Made-after (m h) last c q (p.at c h made) }

  Made-answer :
      {A : Type 0} (r : Reply A) (c : Call) (h : List Call)
      → Made c h
      → Made c (history (answer r h))
  Made-answer (resolve a) c h m = m
  Made-answer (reject e) c h m = m

  pub Grows-call : {Ret : Call → Type 0} (env : Env Call Ret) (d : Call) → Grows (call env d)
  Grows-call env d = record { at = λ c h m. Made-answer (env h d) c (d ∷ h) (older d m) }

  pub Grows-for_each :
      {A : Type 0} (xs : List A) (f : A → M Call (Unit {0}))
      → ((a : A) → Grows (f a))
      → Grows (for_each xs f)
  unfolding for_each
  Grows-for_each [] f q = record { at = λ c h m. m }
  Grows-for_each (x ∷ xs) f q =
      Grows->>= (f x) (λ _. for_each xs f) (q x) (λ _. Grows-for_each xs f q)

  -- A call is made, whatever it is answered.
  pub Made-call :
      {Ret : Call → Type 0} (env : Env Call Ret) (d : Call) (h : List Call)
      → Made d (history (call env d h))
  Made-call env d h = Made-answer (env h d) d (d ∷ h) newest

  for_each_step :
      {A : Type 0} (x : A) (xs : List A) (f : A → M Call (Unit {0})) (h : List Call)
      → ((k : List Call) × (f x h ≡ ok tt k))
      → for_each (x ∷ xs) f h ≡ for_each xs f (history (f x h))
  unfolding for_each
  for_each_step x xs f h (k, e) = rw e refl

  -- A loop whose body never rejects makes every call that its body makes for an item.
  pub Made-for_each :
      {A : Type 0} (xs : List A) (f : A → M Call (Unit {0})) (x : A) (c : Call) (h : List Call)
      → ((y : A) (h : List Call) → (k : List Call) × (f y h ≡ ok tt k))
      → ((y : A) → Grows (f y))
      → ((h : List Call) → Made c (history (f x h)))
      → In x xs
      → Made c (history (for_each xs f h))
  Made-for_each [] f x c h total grow made i = elim i [ ]
  Made-for_each (y ∷ xs) f x c h total grow made first =
      rw (for_each_step y xs f h (total y h))
        ((Grows-for_each xs f grow).at c (history (f y h)) (made h))
  Made-for_each (y ∷ xs) f x c h total grow made (later _ i) =
      rw (for_each_step y xs f h (total y h))
        (Made-for_each xs f x c (history (f y h)) total grow made i)

  pub caught_resolves :
      (m : M Call (Unit {0})) (h : List Call)
      → (k : List Call) × (try_catch m (λ _. return tt) h ≡ ok tt k)
  caught_resolves m h = elim (Outcome-cases (m h)) [
    | inl (_, k, e) ↦ (k, rw e refl)
    | inr (e, k, f) ↦ (k, rw f refl)
  ]

Made-append : {Call : Type 0} (c : Call) (new h : List Call) → Made c h → Made c (new ++ h)
Made-append c [] h m = m
Made-append c (d ∷ new) h m = older d (Made-append c new h m)

Made-wrapped :
    {Inner Call : Type 0} (wrap : Inner → Call) (c : Inner) (k : List Inner) (h : List Call)
    → Made c k
    → Made (wrap c) (map wrap k ++ h)
Made-wrapped wrap c [] h m = elim m [ ]
Made-wrapped wrap c (_ ∷ k) h newest = newest
Made-wrapped wrap c (d ∷ k) h (older _ m) = older (wrap d) (Made-wrapped wrap c k h m)

pub history-lifted :
    {Inner Call A : Type 0} (wrap : Inner → Call) (h : List Call) (o : Outcome Inner A)
    → history (lifted wrap h o) ≡ map wrap (history o) ++ h
history-lifted wrap h (ok a k) = refl
history-lifted wrap h (throw e k) = refl

-- What the inner component does is done.
pub Made-lifted :
    {Inner Call A : Type 0} (wrap : Inner → Call) (c : Inner) (h : List Call) (o : Outcome Inner A)
    → Made c (history o)
    → Made (wrap c) (history (lifted wrap h o))
Made-lifted wrap c h o m = rw (history-lifted wrap h o) (Made-wrapped wrap c (history o) h m)

pub Grows-inside :
    {Inner Call A : Type 0} {R : Inner → Type 0} (wrap : Inner → Call)
    (reply : List Call → (c : Inner) → Reply (R c)) (clock : Clock Call)
    (run : Env Inner R → Clock Inner → M Inner A)
    → Grows (inside wrap reply clock run)
Grows-inside wrap reply clock run = record {
  at = λ c h m.
      rw
        (history-lifted wrap h
          (run (λ k c. reply (map wrap k ++ h) c) (inner_clock wrap clock h) []))
        (Made-append c _ h m);
}
