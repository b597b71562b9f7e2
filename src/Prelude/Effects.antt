-- ===== src/Prelude/Effects.antt =====
-- Asynchronous code with exceptions, over calls of code outside the repository.
--
-- Each component lists its external calls as a data type `Call`, with the type `Ret c` of what the
-- call `c` resolves to. The environment answers a call from the history of all calls before it, or
-- rejects it with an error; nothing else is assumed of it. A computation returns its outcome and the
-- history, newest call first.
use Prim.Native.String.{String}
use Prim.Native.Nat.{ℕ}
use mathlib.Core.Path.{◌≡◌, refl}
use mathlib.Core.Bool.{Bool}
use mathlib.Core.Logic.{◌⊎◌, inl, inr}
use mathlib.Core.Option.{Option, none, some}
use mathlib.Core.List.{List, [], ◌∷◌}
use otto_handler.Prelude.Tests.{if◌then◌else◌}

-- What a rejected promise carries: the error's `name` and `message`.
pub record Error : Type 0 where
  pub name : String
  pub message : String

-- `new Error(message)`
abbrev pub error : String → Error
error m = record { name = "Error"; message = m }

pub data Reply (A : Type 0) : Type 0 where
  resolve : A → Reply A
  reject : Error → Reply A

pub data Outcome (Call A : Type 0) : Type 0 where
  ok : A → List Call → Outcome Call A
  throw : Error → List Call → Outcome Call A

abbrev pub Env : (Call : Type 0) → (Call → Type 0) → Type 0
Env Call Ret = List Call → (c : Call) → Reply (Ret c)

abbrev pub M : Type 0 → Type 0 → Type 0
M Call A = List Call → Outcome Call A

-- The calls made so far.
abbrev pub history : {Call A : Type 0} → Outcome Call A → List Call
history (ok a h) = h
history (throw e h) = h

abbrev pub and_then : {Call A B : Type 0} → Outcome Call A → (A → M Call B) → Outcome Call B
and_then (ok a h) f = f a h
and_then (throw e h) f = throw e h

abbrev pub or_else : {Call A : Type 0} → Outcome Call A → (Error → M Call A) → Outcome Call A
or_else (ok a h) f = ok a h
or_else (throw e h) f = f e h

infixl 5 ◌>>=◌ ◌>>◌
abbrev pub ◌>>=◌ : {Call A B : Type 0} → M Call A → (A → M Call B) → M Call B
◌>>=◌ m f h = and_then (m h) f

abbrev pub ◌>>◌ : {Call A B : Type 0} → M Call A → M Call B → M Call B
m >> k = m >>= λ _. k

abbrev pub return : {Call A : Type 0} → A → M Call A
return a h = ok a h

abbrev pub fail : {Call A : Type 0} → Error → M Call A
fail e h = throw e h

-- `try { m } catch (e) { f }`
abbrev pub try_catch : {Call A : Type 0} → M Call A → (Error → M Call A) → M Call A
try_catch m f h = or_else (m h) f

-- The outcome of `m`, unless the last step fails.
abbrev pub after : {Call A : Type 0} → Outcome Call A → M Call (Unit {0}) → Outcome Call A
after (ok a h) last = and_then (last h) (λ _. return a)
after (throw e h) last = and_then (last h) (λ _. fail e)

-- `try { m } finally { last }`
abbrev pub finally : {Call A : Type 0} → M Call A → M Call (Unit {0}) → M Call A
finally m last h = after (m h) last

-- `if (b) { m }`
abbrev pub when : {Call : Type 0} → Bool → M Call (Unit {0}) → M Call (Unit {0})
when b m = if b then m else return tt

abbrev pub answer : {Call A : Type 0} → Reply A → List Call → Outcome Call A
answer (resolve a) h = ok a h
answer (reject e) h = throw e h

-- One external call.
abbrev pub call : {Call : Type 0} {Ret : Call → Type 0} → Env Call Ret → (c : Call) → M Call (Ret c)
call env c h = answer (env h c) (c ∷ h)

-- `for (const x of xs) { f(x) }`
unfoldable pub for_each : {Call A : Type 0} → List A → (A → M Call (Unit {0})) → M Call (Unit {0})
for_each [] f h = ok tt h
for_each (x ∷ xs) f h = and_then (f x h) (λ _. for_each xs f)

-- What a clock shows, from the calls made so far: `Date.now()` in milliseconds.
abbrev pub Clock : Type 0 → Type 0
Clock Call = List Call → ℕ

abbrev pub now : {Call : Type 0} → Clock Call → M Call ℕ
now clock h = ok (clock h) h

-- `if (x === null) throw e`
abbrev pub or_throw : {Call A : Type 0} → Option A → Error → M Call A
or_throw none e h = throw e h
or_throw (some a) e h = ok a h

pub Reply-cases :
    {A : Type 0} (r : Reply A) → ((a : A) × (r ≡ resolve a)) ⊎ ((e : Error) × (r ≡ reject e))
Reply-cases (resolve a) = inl (a, refl)
Reply-cases (reject e) = inr (e, refl)

pub Outcome-cases :
    {Call A : Type 0} (o : Outcome Call A)
    → ((a : A) × (h : List Call) × (o ≡ ok a h)) ⊎ ((e : Error) × (h : List Call) × (o ≡ throw e h))
Outcome-cases (ok a h) = inl (a, h, refl)
Outcome-cases (throw e h) = inr (e, h, refl)

-- Inversion of a step that resolves.
pub >>=-eq-ok :
    {Call A B : Type 0} (o : Outcome Call A) (f : A → M Call B) {b : B} {h : List Call}
    → and_then o f ≡ ok b h
    → (a : A) × (k : List Call) × (o ≡ ok a k) × (f a k ≡ ok b h)
>>=-eq-ok (ok a k) f e = (a, k, refl, e)
>>=-eq-ok (throw x k) f e = cc
