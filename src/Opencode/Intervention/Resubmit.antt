-- ===== src/Opencode/Intervention/Resubmit.antt =====
-- What a retry and a nudge leave in the table.
use ansina.Prelude.{
  ℕ, ◌≡◌, ◌≢◌, refl, sym, ◌∙◌, String, Option, none, some, [], ◌∷◌, ◌++◌, true, false, ◌==◌, arith,
  ok, Bool-cases, Option-cases, inl, inr,
}
use ansina.Clock.{iso}
use ansina.Opencode.Run.{OpencodeRun, RunRequest, is_retryable}
use ansina.Opencode.Repository.{
  Table, new_run, create, get, count_where, update_where, increment, increment_intervention_count,
}
use ansina.Opencode.Repository.Laws.{Unique, get-update_where, get-append, get-append_old, get-id}
use ansina.Opencode.Service.{
  Service, OpencodeSettings, OpencodeAction, retry, nudge, compact, pause_intake_action,
  escalate_to_brain, applied, Detail, Line, resubmitted_as, nudged_via, admit, enqueue, submit,
  emit,
}
use ansina.Opencode.Intervention.{
  build_retry_request, build_nudge_request, resubmitted, apply_intervention,
}

count_id-none : (id : ℕ) (t : Table) → get id t ≡ none → count_where (λ r. r.id == id) t ≡ 0
unfolding get count_where
count_id-none id [] e = refl
count_id-none id (r ∷ t) e = ground (arith, count_id-none id t)

count_id-found :
    (id : ℕ) (t : Table) (r : OpencodeRun)
    → Unique t
    → get id t ≡ some r
    → count_where (λ r. r.id == id) t ≡ 1
unfolding get count_where
count_id-found id [] r u e = cc
count_id-found id (x ∷ t) r u e = elim (Bool-cases (x.id == id)) [
  | inl here ↦
      let same : x.id ≡ id = ground arith in rw (here, count_id-none id t (rw same at u.0)) refl
  | inr there ↦ rw there (count_id-found id t r u.1 (ground arith))
]

-- A row with a new id leaves the ids unique.
Unique-append : (t : Table) (r : OpencodeRun) → get r.id t ≡ none → Unique t → Unique (t ++ r ∷ [])
unfolding get
Unique-append [] r e u = (refl, tt)
Unique-append (x ∷ t) r e u =
    let apart : (x.id == r.id) ≡ false = ground arith in
    let rest : get r.id t ≡ none = ground arith in
    (rw (get-append x.id t r u.0) (ground arith), Unique-append t r rest u.1)

get-append_other : (j : ℕ) (t : Table) (r : OpencodeRun) → r.id ≢ j → get j (t ++ r ∷ []) ≡ get j t
unfolding get
get-append_other j [] r ne = ground arith
get-append_other j (x ∷ t) r ne = ground (arith, get-append_other j t r ne)

increment-id : (r : OpencodeRun) → (increment r).id ≡ r.id
unfolding increment
increment-id r = refl

-- `increment_intervention_count` of a run in the table counts it there and nowhere else.
record Counted (r : OpencodeRun) (t u : Table) : Type 0 where
  pub counted : get r.id u ≡ some (increment r)
  pub kept : (j : ℕ) → j ≢ r.id → get j u ≡ get j t

increment-Counted :
    (r : OpencodeRun) (t : Table)
    → Unique t
    → get r.id t ≡ some r
    → (u : Table) × (increment_intervention_count r.id t ≡ some u) × Counted r t u
unfolding increment_intervention_count
increment-Counted r t unique e = (
  update_where (λ x. x.id == r.id) increment t,
  rw (count_id-found r.id t r unique e) refl,
  record {
    counted =
        rw (get-update_where (λ x. x.id == r.id) increment r.id t increment-id, e) (ground arith);
    kept = λ j ne.
        rw (get-update_where (λ x. x.id == r.id) increment j t increment-id)
          (elim (Option-cases (get j t)) [
            | inl missing ↦ rw missing refl
            | inr (x, f) ↦ rw f (ground (arith, get-id j t x f))
          ]);
  },
)

module _ (length : String → ℕ) (c : OpencodeSettings) where
  -- What a retry or a nudge of a run asks for.
  abbrev pub Asks : OpencodeAction → OpencodeRun → RunRequest → Type 0
  Asks retry r q = (is_retryable r.status ≡ true) × (q ≡ build_retry_request r)
  Asks nudge r q = q ≡ build_nudge_request r
  Asks compact r q = ⊥
  Asks pause_intake_action r q = ⊥
  Asks escalate_to_brain r q = ⊥

  abbrev pub if_retry : OpencodeAction → ℕ → Detail
  if_retry retry new = resubmitted_as new
  if_retry _ new = nudged_via new

  -- The run was submitted again: a new queued row points back to it, the attempt is counted on its
  -- own row, and every other row is as it was.
  pub record Resubmits (new now : ℕ) (r : OpencodeRun) (q : RunRequest) (t u : Table) : Type 0 where
    pub queued_again : get new u ≡ some (new_run new (iso now) q (some r.id))
    pub counted : get r.id u ≡ some (increment r)
    pub others : (j : ℕ) → j ≢ new → j ≢ r.id → get j u ≡ get j t

  table-emit : (l : Line) (s : Service) → (emit length c l s).table ≡ s.table
  unfolding emit
  table-emit l s = ground arith

  table-enqueue :
      (new now : ℕ) (q : RunRequest) (o : Option ℕ) (s : Service)
      → (enqueue length c new now q o s).table ≡ create new (iso now) q o s.table
  unfolding enqueue
  table-enqueue new now q o s = table-emit _ _

  created_and_counted :
      (new now : ℕ) (r : OpencodeRun) (q : RunRequest) (t : Table)
      → Unique t
      → get r.id t ≡ some r
      → get new t ≡ none
      → (u : Table) × (increment_intervention_count r.id (create new (iso now) q (some r.id) t)
          ≡ some u)
        × Resubmits new now r q t u
  unfolding new_run
  created_and_counted new now r q t unique e fresh =
      let x = new_run new (iso now) q (some r.id) in
      let apart : new ≢ r.id = λ p. cc in
      let (u, p, v) =
        increment-Counted r (t ++ x ∷ []) (Unique-append t x fresh unique)
          (get-append_old r.id t r x e) in
      (
        u,
        p,
        record {
          queued_again = v.kept new apart ∙ rw (get-append new t x fresh) (ground arith);
          counted = v.counted;
          others = λ j ne ne'. v.kept j ne' ∙ get-append_other j t x (λ p. ne (sym p));
        },
      )

  pub resubmitted-Resubmits :
      (new now : ℕ) (a : OpencodeAction) (d : ℕ → Detail) (r : OpencodeRun) (q : RunRequest)
      (s : Service)
      → Unique s.table
      → get r.id s.table ≡ some r
      → get new s.table ≡ none
      → admit length c q s ≡ none
      → let (reply, t) = resubmitted length c r a d (submit length c new now q (some r.id) s) in
        (reply ≡ ok (applied, d new)) × Resubmits new now r q s.table t.table
  unfolding submit
  resubmitted-Resubmits new now a d r q s unique e fresh free =
      let (u, p, v) = created_and_counted new now r q s.table unique e fresh in
      rw (free, table-enqueue new now q (some r.id) s, p) (refl, rw (table-emit _ _) v)

  -- An intervention that retries a failed or timed-out run, or nudges any run, in a table whose
  -- ids are unique, and whose submission is admitted under a new id, is reported as applied: it
  -- queues one new run with the request that is built from the old one, and counts the attempt on
  -- the old run, whose row is otherwise as it was; every other row is as it was. The new run
  -- starts with no attempt counted.
  pub apply_intervention-Resubmits :
      (new now : ℕ) (a : OpencodeAction) (r : OpencodeRun) (q : RunRequest) (s : Service)
      → Unique s.table
      → get r.id s.table ≡ some r
      → get new s.table ≡ none
      → Asks a r q
      → admit length c q s ≡ none
      → let (reply, t) = apply_intervention length c new now (some r.id) a s in
        (reply ≡ ok (applied, (if_retry a new))) × Resubmits new now r q s.table t.table
  unfolding apply_intervention
  apply_intervention-Resubmits new now retry r q s unique e fresh (can, same) free =
      let known = resubmitted-Resubmits new now retry resubmitted_as r q s unique e fresh free in
      rw (e, can, ← same) known
  apply_intervention-Resubmits new now nudge r q s unique e fresh same free =
      let known = resubmitted-Resubmits new now nudge nudged_via r q s unique e fresh free in
      rw (e, ← same) known
  apply_intervention-Resubmits new now compact r q s unique e fresh same free = absurd same
  apply_intervention-Resubmits new now pause_intake_action r q s unique e fresh same free =
      absurd same
  apply_intervention-Resubmits new now escalate_to_brain r q s unique e fresh same free =
      absurd same
