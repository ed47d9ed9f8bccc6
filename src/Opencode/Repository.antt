-- ===== src/Opencode/Repository.antt =====
-- `OpencodeRunRepository` of src/ansina/opencode/repository.py. The table is the list of its rows
-- in the order of insertion.
pub mod Laws
pub mod History
use ansina.Prelude.{
  ℕ, zero, suc, ◌+◌, ◌-◌, ◌*◌, Option, none, some, List, [], ◌∷◌, ◌++◌, Bool, true, false, not,
  ◌&&◌, ◌||◌, ltb, leb, ◌==◌, if◌then◌else◌, keep,
}
use ansina.Clock.{iso}
use ansina.Opencode.Run.{
  Status, queued, running, failed, timeout, OpencodeRun, RunRequest, Changes, is_terminal,
  is_active, is_running, is_retryable,
}

abbrev pub Table : Type 0
Table = List OpencodeRun

-- `create`: one queued row, under the id that `uuid4` drew.
unfoldable pub new_run : ℕ → ℕ → RunRequest → Option ℕ → OpencodeRun
new_run id created_at request retry_of = record {
  id = id;
  created_at = created_at;
  started_at = none;
  completed_at = none;
  status = queued;
  session_id = request.session_id;
  prompt = request.prompt;
  model = request.model;
  agent = request.agent;
  exit_code = none;
  error_detail = "";
  event_count = 0;
  tool_call_count = 0;
  permission_denied_count = 0;
  parse_error_count = 0;
  prompt_tokens = none;
  completion_tokens = none;
  duration = none;
  retry_of = retry_of;
  intervention_count = 0;
}

abbrev pub create : ℕ → ℕ → RunRequest → Option ℕ → Table → Table
create id created_at request retry_of t = t ++ new_run id created_at request retry_of ∷ []

-- `COALESCE(?, column)`
abbrev pub coalesce {ℓ} : {A : Type ℓ} → Option A → A → A
coalesce none old = old
coalesce (some new) old = new

abbrev pub coalesce_null {ℓ} : {A : Type ℓ} → Option A → Option A → Option A
coalesce_null none old = old
coalesce_null (some new) old = some new

unfoldable pub with_changes : Status → Changes → OpencodeRun → OpencodeRun
with_changes status c r = record r {
  status = status;
  started_at = coalesce_null c.started_at r.started_at;
  completed_at = coalesce_null c.completed_at r.completed_at;
  exit_code = coalesce_null c.exit_code r.exit_code;
  error_detail = coalesce c.error_detail r.error_detail;
  event_count = coalesce c.event_count r.event_count;
  tool_call_count = coalesce c.tool_call_count r.tool_call_count;
  permission_denied_count = coalesce c.permission_denied_count r.permission_denied_count;
  parse_error_count = coalesce c.parse_error_count r.parse_error_count;
  prompt_tokens = coalesce_null c.prompt_tokens r.prompt_tokens;
  completion_tokens = coalesce_null c.completion_tokens r.completion_tokens;
  duration = coalesce_null c.duration r.duration;
  intervention_count = coalesce c.intervention_count r.intervention_count;
}

-- `UPDATE … WHERE`: the rows that pass the test are replaced.
unfoldable pub update_where : (OpencodeRun → Bool) → (OpencodeRun → OpencodeRun) → Table → Table
update_where test f [] = []
update_where test f (r ∷ t) = (if test r then f r else r) ∷ update_where test f t

unfoldable pub count_where : (OpencodeRun → Bool) → Table → ℕ
count_where test [] = 0
count_where test (r ∷ t) = let rest = count_where test t in if test r then suc rest else rest

-- `get`
unfoldable pub get : ℕ → Table → Option OpencodeRun
get id [] = none
get id (r ∷ t) = let rest = get id t in if r.id == id then some r else rest

abbrev pub is_open : ℕ → OpencodeRun → Bool
is_open id r = r.id == id && not (is_terminal r.status)

-- `update_status`; `none` is the failed assertion, whose transaction is rolled back.
unfoldable pub update_status : ℕ → Status → Changes → Table → Option Table
unfolding update_where count_where
update_status id status c t =
    if count_where (is_open id) t == 1
    then some (update_where (is_open id) (with_changes status c) t)
    else none

unfoldable pub increment : OpencodeRun → OpencodeRun
increment r = record r { intervention_count = r.intervention_count + 1 }

unfoldable pub increment_intervention_count : ℕ → Table → Option Table
unfolding update_where count_where increment
increment_intervention_count id t =
    if count_where (λ r. r.id == id) t == 1
    then some (update_where (λ r. r.id == id) increment t)
    else none

unfoldable pub count_active : Table → ℕ
unfolding count_where
count_active = count_where (λ r. is_active r.status)

-- `counts_by_status`: a status without rows is left out.
abbrev entry : Status → ℕ → List (Status × ℕ)
entry status zero = []
entry status (suc n) = (status, suc n) ∷ []

abbrev is_queued : Status → Bool
is_queued queued = true
is_queued _ = false

unfoldable pub counts_by_status : Table → List (Status × ℕ)
unfolding count_where
counts_by_status t =
    entry queued (count_where (λ r. is_queued r.status) t)
    ++ entry running (count_where (λ r. is_running r.status) t)

unfoldable pub list_running : Table → Table
list_running = keep (λ r. is_running r.status)

-- `ORDER BY created_at DESC, id DESC`
abbrev pub newer : OpencodeRun → OpencodeRun → Bool
newer a b = ltb b.created_at a.created_at || a.created_at == b.created_at && leb b.id a.id

unfoldable pub insert_newest : OpencodeRun → Table → Table
insert_newest x [] = x ∷ []
insert_newest x (y ∷ t) = let rest = insert_newest x t in if newer x y then x ∷ y ∷ t else y ∷ rest

unfoldable pub newest_first : Table → Table
unfolding insert_newest
newest_first [] = []
newest_first (x ∷ t) = insert_newest x (newest_first t)

unfoldable pub take : ℕ → Table → Table
take zero t = []
take (suc n) [] = []
take (suc n) (x ∷ t) = x ∷ take n t

abbrev pub since_filter : Option ℕ → Table → Table
since_filter none t = t
since_filter (some since) t = keep (λ r. ltb since r.created_at) t

unfoldable pub list_recent : ℕ → Option ℕ → Table → Table
unfolding newest_first take
list_recent limit since t = take limit (newest_first (since_filter since t))

abbrev is_failed : Status → Bool
is_failed failed = true
is_failed _ = false

abbrev is_timeout : Status → Bool
is_timeout timeout = true
is_timeout _ = false

pub sum_denied : Table → ℕ
sum_denied [] = 0
sum_denied (r ∷ t) = r.permission_denied_count + sum_denied t

unfoldable pub recent_outcome_counts : ℕ → Table → ℕ × ℕ × ℕ
unfolding count_where sum_denied keep
recent_outcome_counts since t =
    let recent = keep (λ r. ltb since r.created_at) t in
    (
      count_where (λ r. is_failed r.status) recent,
      count_where (λ r. is_timeout r.status) recent,
      sum_denied recent,
    )

unfoldable pub recent_retryable_runs : ℕ → Table → Table
unfolding newest_first
recent_retryable_runs since t =
    newest_first (keep (λ r. ltb since r.created_at && is_retryable r.status) t)

unfoldable pub has_id : ℕ → Table → Bool
has_id id [] = false
has_id id (r ∷ t) = r.id == id || has_id id t

abbrev pub day : ℕ
day = 86400000000

-- `sweep`: the table that is left, and the number of rows deleted.
unfoldable pub sweep : ℕ → ℕ → ℕ → Table → Table × ℕ
unfolding newest_first take has_id count_where keep
sweep now max_entries retention_days t =
    let newest = take max_entries (newest_first t) in
    let stays = λ (r : OpencodeRun).
      leb (iso (now - retention_days * day)) r.created_at && has_id r.id newest in
    (keep stays t, count_where (λ r. not (stays r)) t)

unfoldable pub interrupted : ℕ → OpencodeRun → OpencodeRun
interrupted completed_at r = record r {
  status = failed;
  error_detail = "daemon restarted";
  completed_at = some completed_at;
}

-- `sweep_stale_on_boot`
unfoldable pub sweep_stale_on_boot : ℕ → Table → Table × ℕ
unfolding update_where count_where interrupted
sweep_stale_on_boot now t = (
  update_where (λ r. is_active r.status) (interrupted (iso now)) t,
  count_where (λ r. is_active r.status) t,
)
