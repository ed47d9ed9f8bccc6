-- ===== src/Opencode/Repository/History.antt =====
-- Sequences of writes to the `opencode_runs` table.
use ansina.Prelude.{
  ℕ, ◌≡◌, ◌∙◌, refl, Option, none, some, List, [], ◌∷◌, Bool, true, ◌==◌, if◌then◌else◌, arith,
  Bool-cases, Option-cases, inl, inr,
}
use ansina.Clock.{iso}
use ansina.Opencode.Run.{Status, OpencodeRun, RunRequest, Changes, is_terminal, is_active}
use ansina.Opencode.Repository.{
  Table, new_run, create, with_changes, update_where, count_where, get, is_open, update_status,
  increment, increment_intervention_count, count_active, interrupted, sweep_stale_on_boot,
}
use ansina.Opencode.Repository.Laws.{get-update_where, get-append_old}

-- What the service writes; a creation comes with the id that was drawn for it.
pub data Write : Type 0 where
  created : ℕ → ℕ → RunRequest → Option ℕ → Write
  updated : ℕ → Status → Changes → Write
  incremented : ℕ → Write
  booted : ℕ → Write

abbrev or_same : Table → Option Table → Table
or_same t none = t
or_same t (some u) = u

abbrev if_free : Option OpencodeRun → Table → Table → Table
if_free none new old = new
if_free (some r) new old = old

-- A refused write changes nothing; the primary key refuses an id that is taken.
pub write : Write → Table → Table
write (created id at request retry_of) t = if_free (get id t) (create id at request retry_of t) t
write (updated id s c) t = or_same t (update_status id s c t)
write (incremented id) t = or_same t (increment_intervention_count id t)
write (booted now) t = (sweep_stale_on_boot now t).0

pub write_all : List Write → Table → Table
unfolding write
write_all [] t = t
write_all (w ∷ ws) t = write_all ws (write w t)

-- The run is in the table under this status.
pub record Ended (id : ℕ) (s : Status) (t : Table) : Type 0 where
  pub row : OpencodeRun
  pub found : get id t ≡ some row
  pub status : row.status ≡ s

-- A replacement that keeps ids, and keeps the status where it is terminal, keeps the end of a run.
update_where-Ended :
    (test : OpencodeRun → Bool) (f : OpencodeRun → OpencodeRun) (id : ℕ) (s : Status) (t : Table)
    → ((r : OpencodeRun) → (f r).id ≡ r.id)
    → ((r : OpencodeRun)
        → is_terminal r.status ≡ true
        → (if test r then f r else r).status ≡ r.status)
    → is_terminal s ≡ true
    → Ended id s t
    → Ended id s (update_where test f t)
update_where-Ended test f id s t same still end e = record {
  row = if test e.row then f e.row else e.row;
  found = rw (get-update_where test f id t same, e.found) refl;
  status = still e.row (rw e.status end) ∙ e.status;
}

still_open :
    (id : ℕ) (s : Status) (c : Changes) (r : OpencodeRun)
    → is_terminal r.status ≡ true
    → (if is_open id r then with_changes s c r else r).status ≡ r.status
still_open id s c r e = ground arith

still_incremented :
    (id : ℕ) (r : OpencodeRun) → (if r.id == id then increment r else r).status ≡ r.status
unfolding increment
still_incremented id r = ground arith

still_interrupted :
    (at : ℕ) (r : OpencodeRun)
    → is_terminal r.status ≡ true
    → (if is_active r.status then interrupted at r else r).status ≡ r.status
still_interrupted at r e = ground arith

with_changes-same : (s : Status) (c : Changes) (r : OpencodeRun) → (with_changes s c r).id ≡ r.id
unfolding with_changes
with_changes-same s c r = refl

increment-same : (r : OpencodeRun) → (increment r).id ≡ r.id
unfolding increment
increment-same r = refl

interrupted-same : (at : ℕ) (r : OpencodeRun) → (interrupted at r).id ≡ r.id
unfolding interrupted
interrupted-same at r = refl

-- `get` finds a row that is put behind the table only where it found none before.
create-Ended :
    (id new at : ℕ) (q : RunRequest) (o : Option ℕ) (s : Status) (t : Table)
    → Ended id s t
    → Ended id s (create new at q o t)
create-Ended id new at q o s t e = record {
  row = e.row;
  found = get-append_old id t e.row (new_run new at q o) e.found;
  status = e.status;
}

write-Ended :
    (w : Write) (id : ℕ) (s : Status) (t : Table)
    → is_terminal s ≡ true
    → Ended id s t
    → Ended id s (write w t)
unfolding write update_status increment_intervention_count sweep_stale_on_boot
write-Ended (created new at q o) id s t end e = elim (Option-cases (get new t)) [
  | inl free ↦ rw free (create-Ended id new at q o s t e)
  | inr (r, taken) ↦ rw taken e
]
write-Ended (updated j to c) id s t end e = elim (Bool-cases (count_where (is_open j) t == 1)) [
  | inl hit ↦ rw hit (
      update_where-Ended (is_open j) (with_changes to c) id s t (with_changes-same to c)
        (still_open j to c) end e)
  | inr miss ↦ rw miss e
]
write-Ended (incremented j) id s t end e = elim (Bool-cases (count_where (λ r. r.id == j) t == 1)) [
  | inl hit ↦ rw hit (
      update_where-Ended (λ r. r.id == j) increment id s t increment-same
        (λ r _. still_incremented j r) end e)
  | inr miss ↦ rw miss e
]
write-Ended (booted now) id s t end e =
    update_where-Ended (λ r. is_active r.status) (interrupted (iso now)) id s t
      (interrupted-same (iso now)) (still_interrupted (iso now)) end e

-- A run that has reached a terminal status keeps that status through every later sequence of
-- writes: creations, status updates, intervention counts and boot-time sweeps.
pub write_all-Ended :
    (ws : List Write) (id : ℕ) (s : Status) (t : Table)
    → is_terminal s ≡ true
    → Ended id s t
    → Ended id s (write_all ws t)
unfolding write_all
write_all-Ended [] id s t end e = e
write_all-Ended (w ∷ ws) id s t end e =
    write_all-Ended ws id s (write w t) end (write-Ended w id s t end e)

-- The boot-time sweep leaves no run active, and reports how many were.
pub count_active-sweep_stale_on_boot :
    (now : ℕ) (t : Table)
    → let (u, swept) = sweep_stale_on_boot now t in (count_active u ≡ 0) × (swept ≡ count_active t)
unfolding sweep_stale_on_boot count_active
count_active-sweep_stale_on_boot now [] = (refl, refl)
count_active-sweep_stale_on_boot now (r ∷ t) =
    let (none_left, swept) = count_active-sweep_stale_on_boot now t in ground (arith, none_left)
