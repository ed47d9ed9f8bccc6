-- ===== src/Opencode/Service/Lifecycle.antt =====
-- How a run ends: by its outcome, by a cancellation, or by one that comes too early.
use ansina.Prelude.{
  ℕ, ◌-◌, ◌≡◌, ◌≢◌, refl, String, none, some, List, [], ◌∷◌, true, false, not, arith, keep, ◌==◌,
}
use ansina.Clock.{iso}
use ansina.Opencode.Run.{OpencodeRun, Status, Changes, is_terminal, running, cancelled}
use ansina.Opencode.Repository.{get, with_changes, update_status}
use ansina.Opencode.Repository.Laws.{Unique, update_status-open}
use ansina.Opencode.Service.{
  Service, OpencodeSettings, RunOutcome, Task, Line, settle, find_task, forget_task, emit,
  execute_finish, execute_cancelled, cancel, terminal_status,
}

find-forgotten : (id : ℕ) (ks : List Task) → find_task id (keep (λ k. not (k.id == id)) ks) ≡ none
unfolding find_task keep
find-forgotten id [] = refl
find-forgotten id (k ∷ ks) = ground (arith, find-forgotten id ks)

-- The run ended under this status, with these counts, at this time, and nothing tracks it.
pub record EndedAs (id : ℕ) (st : Status) (now events duration : ℕ) (s t : Service) : Type 0 where
  pub row : OpencodeRun
  pub found : get id t.table ≡ some row
  pub status : row.status ≡ st
  pub completed : row.completed_at ≡ some (iso now)
  pub counted : row.event_count ≡ events
  pub lasted : row.duration ≡ some duration
  pub untracked : find_task id t.tasks ≡ none
  pub others : (j : ℕ) → j ≢ id → get j t.table ≡ get j s.table

module _ (length : String → ℕ) (c : OpencodeSettings) where
  table-emit : (l : Line) (s : Service) → (emit length c l s).table ≡ s.table
  unfolding emit
  table-emit l s = ground arith

  tasks-emit : (l : Line) (s : Service) → (emit length c l s).tasks ≡ s.tasks
  unfolding emit
  tasks-emit l s = ground arith

  settled-EndedAs :
      (l : Line) (id : ℕ) (st : Status) (ch : Changes) (now events duration : ℕ) (s : Service)
      (r : OpencodeRun)
      → Unique s.table
      → get id s.table ≡ some r
      → r.status ≡ running
      → ch.completed_at ≡ some (iso now)
      → ch.event_count ≡ some events
      → ch.duration ≡ some duration
      → EndedAs id st now events duration s (
          forget_task id (
            settle length c (update_status id st ch (emit length c l s).table) (emit length c l s)))
  unfolding with_changes forget_task
  settled-EndedAs l id st ch now events duration s r unique e run at n d =
      let open_row : is_terminal r.status ≡ false = rw run refl in
      let (u, p, q, rest) = update_status-open id st ch s.table r unique e open_row in
      rw (table-emit l s, p)
        (record {
          row = with_changes st ch r;
          found = q;
          status = refl;
          completed = rw at refl;
          counted = rw n refl;
          lasted = rw d refl;
          untracked = find-forgotten id (emit length c l s).tasks;
          others = rest;
        })

  -- When the runner returns for a run that is `running`, in a table whose ids are unique, the
  -- run's row takes the status that the outcome maps to, with the time, the events and the
  -- duration; every other row stays as it was, and the run's task is forgotten.
  pub execute_finish-EndedAs :
      (k : Task) (now : ℕ) (o : RunOutcome) (s : Service) (r : OpencodeRun)
      → Unique s.table
      → get k.id s.table ≡ some r
      → r.status ≡ running
      → EndedAs k.id
          (terminal_status o.status)
          now
          k.event_count
          o.duration
          s
          (execute_finish length c k now o s)
  unfolding execute_finish
  execute_finish-EndedAs k now o s r unique e run =
      settled-EndedAs _ k.id _ _ now k.event_count o.duration s r unique e run refl refl refl

  -- A cancellation of a tracked run whose task has begun and whose row is `running`, in a table
  -- whose ids are unique, is reported as done, and gives the row the status `cancelled`, with the
  -- time, the events and the time since the start; every other row stays as it was, and the run's
  -- task is forgotten.
  pub cancel-EndedAs :
      (id now start : ℕ) (k : Task) (s : Service) (r : OpencodeRun)
      → find_task id s.tasks ≡ some k
      → k.begun ≡ some start
      → Unique s.table
      → get k.id s.table ≡ some r
      → r.status ≡ running
      → let (done, t) = cancel length c now id s in
        (done ≡ true) × EndedAs k.id cancelled now k.event_count (now - start) s t
  unfolding cancel execute_cancelled
  cancel-EndedAs id now start k s r tracked begun unique e run =
      simp (tracked, begun)
        (
          refl,
          settled-EndedAs _ k.id _ _ now k.event_count (now - start) s r unique e run refl refl
              refl,
        )

  -- A cancellation of a tracked run whose task has not begun is reported as done too, but leaves the
  -- table as it was: the run's row keeps its status, and no task tracks it any more.
  pub cancel-unbegun :
      (id now : ℕ) (k : Task) (s : Service)
      → find_task id s.tasks ≡ some k
      → k.begun ≡ none
      → let (done, t) = cancel length c now id s in
        (done ≡ true) × (t.table ≡ s.table) × (find_task k.id t.tasks ≡ none)
  unfolding cancel forget_task
  cancel-unbegun id now k s tracked unbegun =
      rw (tracked, unbegun) (refl, refl, find-forgotten k.id s.tasks)
