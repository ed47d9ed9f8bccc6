-- ===== src/Opencode/Run.antt =====
-- `OpencodeRun` of src/ansina/opencode/repository.py, and what a run is asked for and ends with
-- (src/ansina/opencode/events.py). A run's id is the number that its 32 hexadecimal digits write,
-- so that the order of ids as texts is the order of numbers.
use ansina.Prelude.{ℕ, ℤ, String, Option, Bool, true, false}

pub data Status : Type 0 where
  queued running succeeded failed timeout cancelled : Status

pub record OpencodeRun : Type 0 where
  pub id : ℕ
  pub created_at : ℕ
  pub started_at : Option ℕ
  pub completed_at : Option ℕ
  pub status : Status
  pub session_id : Option String
  pub prompt : String
  pub model : Option String
  pub agent : Option String
  pub exit_code : Option ℤ
  pub error_detail : String
  pub event_count : ℕ
  pub tool_call_count : ℕ
  pub permission_denied_count : ℕ
  pub parse_error_count : ℕ
  pub prompt_tokens : Option ℕ
  pub completion_tokens : Option ℕ
  pub duration : Option ℕ
  pub retry_of : Option ℕ
  pub intervention_count : ℕ

-- `_TERMINAL_STATUSES`
abbrev pub is_terminal : Status → Bool
is_terminal queued = false
is_terminal running = false
is_terminal succeeded = true
is_terminal failed = true
is_terminal timeout = true
is_terminal cancelled = true

-- `_ACTIVE_STATUSES`
abbrev pub is_active : Status → Bool
is_active queued = true
is_active running = true
is_active succeeded = false
is_active failed = false
is_active timeout = false
is_active cancelled = false

abbrev pub is_running : Status → Bool
is_running running = true
is_running _ = false

-- `_RETRYABLE_STATUSES` of service.py, and the `IN ('failed', 'timeout')` of repository.py.
abbrev pub is_retryable : Status → Bool
is_retryable failed = true
is_retryable timeout = true
is_retryable _ = false

pub record RunRequest : Type 0 where
  pub prompt : String
  pub session_id : Option String
  pub continue_last : Bool
  pub fork : Bool
  pub model : Option String
  pub agent : Option String
  pub auto_approve : Option Bool

-- The keywords of `update_status` that any caller passes; `none` leaves a column as it is.
pub record Changes : Type 0 where
  pub started_at : Option ℕ
  pub completed_at : Option ℕ
  pub exit_code : Option ℤ
  pub error_detail : Option String
  pub event_count : Option ℕ
  pub tool_call_count : Option ℕ
  pub permission_denied_count : Option ℕ
  pub parse_error_count : Option ℕ
  pub prompt_tokens : Option ℕ
  pub completion_tokens : Option ℕ
  pub duration : Option ℕ
  pub intervention_count : Option ℕ
