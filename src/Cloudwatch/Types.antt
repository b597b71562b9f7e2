-- ===== src/Cloudwatch/Types.antt =====
-- The rows and the external calls of src/logs/services/cloudwatch/cloudwatch.service.ts,
-- src/logs/services/log-storage/log-storage.service.ts and src/logs/logs.service.ts over them. Times
-- are in milliseconds.
use otto_handler.Prelude.{ℕ, String, List, Option}
use otto_handler.Prelude.Json.{Metadata}

pub data LogLevel : Type 0 where
  info warning error_level : LogLevel

pub data ExecutionStatus : Type 0 where
  pending running success failed : ExecutionStatus

pub record LogEvent : Type 0 where
  pub execution_id : String
  pub timestamp : ℕ
  pub message : String
  pub level : LogLevel
  pub phase : Option String
  pub step : Option String
  pub step_order : Option ℕ

-- A row of the table of logs, with the time when it was stored.
pub record LogRow : Type 0 where
  pub log : LogEvent
  pub created_at : ℕ

pub data ExecutionType : Type 0 where
  build deploy : ExecutionType

-- A number of seconds from the start, or to it if the clocks disagree.
pub data Duration : Type 0 where
  after : ℕ → Duration
  before : ℕ → Duration

-- An execution, with the log group and the owner of its project.
pub record Execution : Type 0 where
  pub execution_id : String
  pub pipeline_id : String
  pub project_id : String
  pub user_id : String
  pub execution_type : ExecutionType
  pub status : ExecutionStatus
  pub aws_build_id : Option String
  pub aws_deployment_id : Option String
  pub log_stream_name : Option String
  pub metadata : Option Metadata
  pub started_at : Option ℕ
  pub completed_at : Option ℕ
  pub duration : Option Duration
  pub updated_at : Option ℕ
  pub project_log_group : Option String
  pub project_owner : Option String

-- The argument of `registerExecution`; `repository.save` gives the row its id and its times.
pub record NewExecution : Type 0 where
  pub pipeline_id : String
  pub project_id : String
  pub user_id : String
  pub execution_type : ExecutionType
  pub aws_build_id : Option String
  pub aws_deployment_id : Option String
  pub log_stream_name : Option String
  pub metadata : Option Metadata

-- The conditions of a query for executions.
pub record ExecutionQuery : Type 0 where
  pub user_id : Option String
  pub pipeline_id : Option String
  pub project_id : Option String
  pub status : Option ExecutionStatus
  pub execution_type : Option ExecutionType
  pub limit : Option ℕ
  pub offset : Option ℕ

-- What CodeBuild tells of a build: its status, and its log group and stream.
pub record BuildInfo : Type 0 where
  pub build_status : String
  pub group_name : Option String
  pub stream_name : Option String

-- An answer of `FilterLogEvents`.
pub record StreamEvent : Type 0 where
  pub timestamp : ℕ
  pub message : Option String
  pub stream : Option String

pub record FilterPage : Type 0 where
  pub events : List StreamEvent
  pub next_token : Option String

-- What `FilterLogEvents` is asked for.
pub record LogFilter : Type 0 where
  pub group : String
  pub streams : Option (List String)
  pub limit : ℕ
  pub start_time : Option ℕ
  pub end_time : Option ℕ

-- An answer of CloudWatch: the time and message of each event, and the token of the next page.
pub record Page : Type 0 where
  pub events : List (ℕ × String)
  pub next_token : Option String

pub data Call : Type 0 where
  get_log_events : (group stream : String) → Option String → Call
  connect begin commit rollback release : Call
  save_rows : List LogEvent → Call
  find_rows : String → (limit offset : Option ℕ) → Call
  count_rows : String → Call
  count_level : String → LogLevel → Call
  latest_row : String → Call
  rows_of_level : String → LogLevel → Call
  delete_rows : String → Call
  delete_before : ℕ → Call
  find_execution : String → Call
  set_execution : String → ExecutionStatus → ℕ → Call
  find_log_group : String → Call
  add_to_buffer : String → List LogEvent → Call
  recent_logs : String → Option ℕ → Call
  clear_logs : String → Call
  save_execution : Execution → Call
  save_new_execution : NewExecution → ExecutionStatus → Call
  find_executions : ExecutionQuery → Call
  find_stale : ℕ → Call
  find_successful_since : ℕ → Call
  latest_deploy : String → Call
  find_pipeline_owner : String → Call
  build_info : String → Call
  stop_timer : String → Call
  filter_events : LogFilter → Call
  describe_streams : (group prefix : String) → Call

abbrev pub Ret : Call → Type 0
Ret (get_log_events group stream token) = Page
Ret (find_rows id limit offset) = List LogRow
Ret (rows_of_level id level) = List LogRow
Ret (latest_row id) = Option LogRow
Ret (count_rows id) = ℕ
Ret (count_level id level) = ℕ
Ret (delete_before time) = Option ℕ
Ret (find_execution id) = Option Execution
Ret (find_log_group id) = Option String
Ret (recent_logs id limit) = List LogEvent
Ret (save_execution x) = Execution
Ret (save_new_execution x status) = Execution
Ret (find_executions query) = List Execution
Ret (find_stale time) = List Execution
Ret (find_successful_since time) = List Execution
Ret (latest_deploy pipeline) = Option Execution
Ret (find_pipeline_owner pipeline) = Option (Option String)
Ret (build_info id) = BuildInfo
Ret (filter_events filter) = FilterPage
Ret (describe_streams group prefix) = List (Option String)
Ret _ = Unit
