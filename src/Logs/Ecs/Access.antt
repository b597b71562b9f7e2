-- ===== src/Logs/Ecs/Access.antt =====
-- Who may read the logs of a pipeline's containers, which of them, and how many (src/logs/logs.service.ts).
use otto_handler.Prelude.{
  ◌≡◌, refl, ap, ◌⊎◌, ◌≤◌, ◌<◌, inl, inr, ℕ, zero, suc, true, false, Bool-cases, String, List, [],
  ◌∷◌, Option, none, some, truthy, nonempty, is_some, length, length-map, str_eq, arith,
}
use otto_handler.Prelude.Text.{strip_prefix}
use otto_handler.Prelude.Effects.{Error, ok, throw, Env, Clock, resolve, Reply-cases}
use otto_handler.Prelude.Grows.{In, first, later}
use otto_handler.Cloudwatch.Types.{
  FilterPage, LogFilter, Call, find_pipeline_owner, filter_events, describe_streams, Ret,
}
use otto_handler.Logs.Executions.{forbidden}
use otto_handler.Logs.Combined.{group_of}
use otto_handler.Logs.Ecs.{
  EcsLogs, EcsOptions, is_matching, matching, is_foreign, is_absent, or_none_of, no_logs, ecs_log,
  asked_limit, page_logs, get_ecs_deployment_logs, discover_execution_log_streams,
}

-- A stream that matches was found, and starts with the id.
pub record Belongs (id : String) (found : List (Option String)) (s : String) : Type 0 where
  pub is_found : In (some s) found
  pub starts : is_some (strip_prefix id s) ≡ true
  pub is_text : nonempty s ≡ true

matching_starts :
    (id : String) (container : Option String) (s : String)
    → is_matching id container s ≡ true
    → is_some (strip_prefix id s) ≡ true
unfolding is_matching
matching_starts id container s e = ground arith

behind :
    {id : String} {found : List (Option String)} {s : String} (o : Option String)
    → Belongs id found s
    → Belongs id (o ∷ found) s
behind o b = record { is_found = later o b.is_found; starts = b.starts; is_text = b.is_text }

here : {s t : String} {rest : List String} → In s (t ∷ rest) → (s ≡ t) ⊎ In s rest
here first = inl refl
here (later _ i) = inr i

newest :
    (id t s : String) (found : List (Option String))
    → s ≡ t
    → is_some (strip_prefix id t) ≡ true
    → nonempty t ≡ true
    → Belongs id (some t ∷ found) s
newest id t s found e p n = record { is_found = rw e first; starts = rw e p; is_text = rw e n }

matching_member :
    (id : String) (container : Option String) (found : List (Option String)) (s : String)
    → In s (matching id container found)
    → Belongs id found s
unfolding matching
matching_member id container [] s i = elim i [ ]
matching_member id container (none ∷ found) s i =
    behind none (matching_member id container found s i)
matching_member id container (some t ∷ found) s i = elim (Bool-cases (is_matching id container t)) [
  | inl e ↦ elim (Bool-cases (nonempty t)) [
    | inl n ↦ elim (here (rw (e, n) at i)) [
      | inl same ↦ newest id t s found same (matching_starts id container t e) n
      | inr j ↦ behind (some t) (matching_member id container found s j)
    ]
    | inr n ↦ behind (some t) (matching_member id container found s (rw (e, n) at i))
  ]
  | inr e ↦ behind (some t) (matching_member id container found s (rw e at i))
]

same_streams : {x y : List String} {h k : List Call} → ok x h ≡ ok y k → y ≡ x
same_streams e = cc

same_logs : {x y : EcsLogs} {h k : List Call} → ok x h ≡ ok y k → y ≡ x
same_logs e = cc

absent_over :
    (e : Error) (group : String) (h k : List Call) (logs : EcsLogs)
    → or_none_of (no_logs group) e h ≡ ok logs k
    → logs.has_more ≡ false
absent_over e group h k logs d = elim (Bool-cases (is_absent e)) [
  | inl f ↦ ap (λ x. x.has_more) (same_logs (rw f at d))
  | inr f ↦ absurd (ground arith)
]

page_logs_over :
    (env : Env Call Ret) (clock : Clock Call) (group : String) (limit : Option ℕ) (n : ℕ)
    (page : FilterPage)
    → limit ≡ some n
    → 10000 < n
    → length page.events ≤ asked_limit limit
    → (page_logs env clock group limit page).has_more ≡ false
page_logs_over env clock group none n page l more b = absurd cc
page_logs_over env clock group (some zero) n page l more b = ground arith
page_logs_over env clock group (some (suc m)) n page l more b =
    ground (arith, length-map page.events ecs_log)

module _ (env : Env Call Ret) (clock : Clock Call) where
  -- A user who does not own the pipeline's project is refused, and no log is read.
  get_ecs_deployment_logs_refused :
      (pipeline user owner : String) (options : EcsOptions) (h : List Call)
      → env h (find_pipeline_owner pipeline) ≡ resolve (some (some owner))
      → truthy (some user) ≡ true
      → str_eq owner user ≡ false
      → get_ecs_deployment_logs env clock pipeline (some user) options h
        ≡ throw (forbidden "Access denied to this pipeline") (find_pipeline_owner pipeline ∷ h)
  unfolding get_ecs_deployment_logs
  get_ecs_deployment_logs_refused pipeline user owner options h f t e = rw (f, t, e) refl

  -- Of a query for more than 10000 logs, which are never asked for, the answer is that there are no more,
  -- also where CloudWatch has more.
  pub get_ecs_deployment_logs_over :
      (pipeline : String) (user : Option String) (options : EcsOptions) (n : ℕ) (h : List Call)
      (logs : EcsLogs) (h' : List Call)
      → ((k : List Call) (f : LogFilter) (page : FilterPage)
          → env k (filter_events f) ≡ resolve page
          → length page.events ≤ f.limit)
      → options.limit ≡ some n
      → 10000 < n
      → get_ecs_deployment_logs env clock pipeline user options h ≡ ok logs h'
      → logs.has_more ≡ false
  unfolding get_ecs_deployment_logs
  get_ecs_deployment_logs_over pipeline user options n h logs h' bounded l more e =
      let asked : LogFilter = record {
        group = group_of pipeline;
        streams = none;
        limit = asked_limit options.limit;
        start_time = options.start_time;
        end_time = options.end_time;
      } in
      elim (Reply-cases (env h (find_pipeline_owner pipeline))) [
        | inl (some owner, f) ↦ elim (Bool-cases (is_foreign user owner)) [
          | inl d ↦ absurd (ground arith)
          | inr d ↦
              elim (Reply-cases (env (find_pipeline_owner pipeline ∷ h) (filter_events asked))) [
                | inl (page, g) ↦ rw (same_logs (rw (f, d, g) at e)) (
                    page_logs_over env clock (group_of pipeline) options.limit n page l more
                      (bounded (find_pipeline_owner pipeline ∷ h) asked page g))
                | inr (e', g) ↦
                    absent_over e' (group_of pipeline)
                      (filter_events asked ∷ find_pipeline_owner pipeline ∷ h) h' logs
                      (rw (f, d, g) at e)
              ]
        ]
        | inl (none, f) ↦ absurd (ground arith)
        | inr (e', f) ↦
            absent_over e' (group_of pipeline) (find_pipeline_owner pipeline ∷ h) h' logs
              (rw f at e)
      ]

  -- The streams that are found for an execution are streams of the group whose names start with its id.
  discover_execution_log_streams-Belongs :
      (group id : String) (container : Option String) (h : List Call) (found : List (Option String))
      (streams : List String) (h' : List Call) (s : String)
      → env h (describe_streams group id) ≡ resolve found
      → discover_execution_log_streams env clock group id container h ≡ ok streams h'
      → In s streams
      → Belongs id found s
  unfolding discover_execution_log_streams
  discover_execution_log_streams-Belongs group id container h found streams h' s f e i =
      matching_member id container found s (rw (← same_streams (rw f at e)) i)
