-- ===== src/Logs/Combined/Order.antt =====
-- The order of the combined logs (src/logs/logs.service.ts).
use mathlib.Core.List.{Perm}
use mathlib.Core.List.Perm
use otto_handler.Prelude.{
  ◌≡◌, ◌≤◌, inl, inr, ℕ, Bool-cases, String, List, [], ◌∷◌, ◌++◌, Option, none, some, leb, arith,
}
use otto_handler.Prelude.Effects.{ok, Env, Clock, resolve, Reply-cases, >>=-eq-ok, return, ◌>>=◌}
use otto_handler.Cloudwatch.Types.{LogRow, Execution, Call, find_execution, Ret}
use otto_handler.Logs.Combined.{
  time_of, insert_row, sort_rows, limited, get_execution_logs, deploy_rows,
  get_combined_execution_logs,
}

-- The rows stand in the order of their times.
pub data IsSorted : List LogRow → Type 0 where
  sorted_none : IsSorted []
  sorted_one : (row : LogRow) → IsSorted (row ∷ [])
  sorted_more :
      (row next : LogRow) {rows : List LogRow}
      → time_of row ≤ time_of next
      → IsSorted (next ∷ rows)
      → IsSorted (row ∷ next ∷ rows)

insert_row-perm : (row : LogRow) (rows : List LogRow) → Perm (insert_row row rows) (row ∷ rows)
unfolding insert_row
insert_row-perm row [] = Perm.refl (row ∷ [])
insert_row-perm row (other ∷ rows) = elim (Bool-cases (leb (time_of row) (time_of other))) [
  | inl e ↦ rw e (Perm.refl (row ∷ other ∷ rows))
  | inr e ↦
      rw e (Perm.trans (Perm.cons other (insert_row-perm row rows)) (Perm.swap row other rows))
]

sort_rows-perm : (rows : List LogRow) → Perm (sort_rows rows) rows
unfolding sort_rows
sort_rows-perm [] = Perm.refl []
sort_rows-perm (row ∷ rows) =
    Perm.trans (insert_row-perm row (sort_rows rows)) (Perm.cons row (sort_rows-perm rows))

-- Either row may come first.
insert_row-IsSorted :
    (row : LogRow) (rows : List LogRow) → IsSorted rows → IsSorted (insert_row row rows)
unfolding insert_row
insert_row-IsSorted row [] s = sorted_one row
insert_row-IsSorted row (other ∷ []) s = elim (Bool-cases (leb (time_of row) (time_of other))) [
  | inl e ↦ rw e (sorted_more row other (ground arith) (sorted_one other))
  | inr e ↦ rw e (sorted_more other row (ground arith) (sorted_one row))
]
insert_row-IsSorted row (other ∷ next ∷ rows) (sorted_more _ _ l s) =
    elim (Bool-cases (leb (time_of row) (time_of other))) [
      | inl e ↦ rw e (sorted_more row other (ground arith) (sorted_more other next l s))
      | inr e ↦ rw e (elim (Bool-cases (leb (time_of row) (time_of next))) [
        | inl f ↦
            rw f (sorted_more other row (ground arith) (sorted_more row next (ground arith) s))
        | inr f ↦
            rw f (sorted_more other next l (rw f at (insert_row-IsSorted row (next ∷ rows) s)))
      ])
    ]

sort_rows-IsSorted : (rows : List LogRow) → IsSorted (sort_rows rows)
unfolding sort_rows
sort_rows-IsSorted [] = sorted_none
sort_rows-IsSorted (row ∷ rows) = insert_row-IsSorted row (sort_rows rows) (sort_rows-IsSorted rows)

module _ (env : Env Call Ret) (clock : Clock Call) where
  -- What the combined logs of an execution are.
  pub record Combined (id : String) (limit offset : Option ℕ) (h : List Call) (rows : List LogRow)
      (h' : List Call) : Type 0 where
    pub execution : Execution
    pub found : env h (find_execution id) ≡ resolve (some execution)
    pub build_rows : List LogRow
    pub later_rows : List LogRow
    pub between : List Call
    pub build_found :
        get_execution_logs env clock id limit offset (find_execution id ∷ h) ≡ ok build_rows between
    pub stream_found : deploy_rows env clock execution between ≡ ok later_rows h'
    pub all : List LogRow
    pub cut : rows ≡ limited limit all
    pub same_rows : Perm all (build_rows ++ later_rows)
    pub in_order : IsSorted all

  found-Combined :
      (id : String) (limit offset : Option ℕ) (h : List Call) (rows : List LogRow) (h' : List Call)
      (x : Execution)
      → env h (find_execution id) ≡ resolve (some x)
      → get_combined_execution_logs env clock id limit offset h ≡ ok rows h'
      → Combined id limit offset h rows h'
  unfolding get_combined_execution_logs
  found-Combined id limit offset h rows h' x f e =
      let (first, k, e1, rest) =
        >>=-eq-ok (get_execution_logs env clock id limit offset (find_execution id ∷ h))
          (λ first. deploy_rows env clock x >>= λ later.
            return (limited limit (sort_rows (first ++ later))))
          (rw f at e) in
      let (later, k', e2, last) =
        >>=-eq-ok (deploy_rows env clock x k)
          (λ later. return (limited limit (sort_rows (first ++ later)))) rest in
      record {
        execution = x;
        found = f;
        build_rows = first;
        later_rows = later;
        between = k;
        build_found = e1;
        stream_found = ground arith;
        all = sort_rows (first ++ later);
        cut = ground arith;
        same_rows = sort_rows-perm (first ++ later);
        in_order = sort_rows-IsSorted (first ++ later);
      }

  -- The combined logs that resolve are those of the build and of the deployment, in the order of their
  -- times, up to the limit of the query.
  pub get_combined_execution_logs-Combined :
      (id : String) (limit offset : Option ℕ) (h : List Call) (rows : List LogRow) (h' : List Call)
      → get_combined_execution_logs env clock id limit offset h ≡ ok rows h'
      → Combined id limit offset h rows h'
  unfolding get_combined_execution_logs
  get_combined_execution_logs-Combined id limit offset h rows h' e =
      elim (Reply-cases (env h (find_execution id))) [
        | inl (some x, f) ↦ found-Combined id limit offset h rows h' x f e
        | inl (none, f) ↦ absurd (ground arith)
        | inr (e', f) ↦ absurd (ground arith)
      ]
