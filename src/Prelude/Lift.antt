-- ===== src/Prelude/Lift.antt =====
-- A component that runs inside another: its external calls are some of those of the other.
use mathlib.Core.List.{List, [], map, ◌++◌}
use otto_handler.Prelude.Effects.{Outcome, ok, throw, Clock, Env, M, Reply}

abbrev pub lifted :
    {Inner Call A : Type 0} → (Inner → Call) → List Call → Outcome Inner A → Outcome Call A
lifted wrap h (ok a k) = ok a (map wrap k ++ h)
lifted wrap h (throw e k) = throw e (map wrap k ++ h)

-- The inner clock reads the outer one.
abbrev pub inner_clock :
    {Inner Call : Type 0} → (Inner → Call) → Clock Call → List Call → Clock Inner
inner_clock wrap clock h k = clock (map wrap k ++ h)

-- A computation of the inner component, in a place that answers its calls.
abbrev pub inside :
    {Inner Call A : Type 0} {R : Inner → Type 0}
    → (Inner → Call)
    → (List Call → (c : Inner) → Reply (R c))
    → Clock Call
    → (Env Inner R → Clock Inner → M Inner A)
    → M Call A
inside wrap reply clock run h =
    lifted wrap h (run (λ k c. reply (map wrap k ++ h) c) (inner_clock wrap clock h) [])
