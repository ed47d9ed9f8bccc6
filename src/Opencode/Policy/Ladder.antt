-- ===== src/Opencode/Policy/Ladder.antt =====
-- When the policy decides, and what each decision rests on.
use ansina.Prelude.{
  ℕ, ◌≤◌, ◌<◌, ◌≡◌, ◌≢◌, ◌↔◌, refl, inl, inr, Option, none, some, List, [], ◌∷◌, Bool, true, false,
  not, ◌&&◌, arith, Bool-cases,
}
use mathlib.Core.List.{Mem, mem-cons_self, mem-cons_of_mem}
use ansina.Opencode.Run.{OpencodeRun}
use ansina.Opencode.Service.{
  OpencodeAction, retry, nudge, pause_intake_action, escalate_to_brain, compact,
}
use ansina.Opencode.Policy.{
  PolicySettings, Policy, Probe, InterventionDecision, first_retryable, has_retries, ladder,
  escalation, decide, recent, exhausted, in_cooldown, pause_intake_failure_threshold,
}

-- Nothing in the probe calls for an intervention.
pub record IsQuiet (p : Probe) : Type 0 where
  pub no_candidate : p.retry_candidates ≡ []
  pub no_stall : p.stalled_id ≡ none
  pub few_failures : p.failure_total < pause_intake_failure_threshold

module _ (c : PolicySettings) where
  none_listed : (b : Bool) (p : Probe) → ladder c true b p ≡ none → p.retry_candidates ≡ []
  unfolding ladder escalation
  none_listed b p e = ground arith

  ladder-none-IsQuiet : (b : Bool) (p : Probe) → ladder c true b p ≡ none → IsQuiet p
  unfolding ladder escalation first_retryable
  ladder-none-IsQuiet b p e = record {
    no_candidate = none_listed b p e;
    no_stall = ground arith;
    few_failures = ground (arith, none_listed b p e);
  }

  ladder-IsQuiet : (b b' : Bool) (p : Probe) → IsQuiet p → ladder c b b' p ≡ none
  unfolding ladder escalation first_retryable
  ladder-IsQuiet b b' p q = ground arith

  -- A run that `first_retryable` finds.
  pub record Retryable (id : ℕ) (rs : List OpencodeRun) : Type 0 where
    pub run : OpencodeRun
    pub listed : Mem run rs
    pub named : run.id ≡ id
    pub unspent : run.intervention_count < c.max_retries_per_run

  first_retryable-Retryable :
      (id : ℕ) (rs : List OpencodeRun) → first_retryable c rs ≡ some id → Retryable id rs
  unfolding first_retryable
  first_retryable-Retryable id [] e = cc
  first_retryable-Retryable id (r ∷ rs) e = elim (Bool-cases (has_retries c r)) [
    | inl yes_it ↦ record {
      run = r;
      listed = mem-cons_self;
      named = ground arith;
      unspent = ground arith;
    }
    | inr not_it ↦
        let rest = first_retryable-Retryable id rs (ground arith) in
        record {
          run = rest.run;
          listed = mem-cons_of_mem r rest.listed;
          named = rest.named;
          unspent = rest.unspent;
        }
  ]

  -- What a decision of the policy rests on. Every action is within the hourly ceiling; all but an
  -- escalation are outside the cooldown; a compaction is never decided.
  abbrev pub Grounds : ℕ → Policy → Probe → OpencodeAction → Option ℕ → Type 0
  Grounds ticks p probe retry (some id) =
      (in_cooldown c ticks p ≡ false) × Retryable id probe.retry_candidates
  Grounds ticks p probe retry none = ⊥
  Grounds ticks p probe nudge id =
      (in_cooldown c ticks p ≡ false)
      × (first_retryable c probe.retry_candidates ≡ none)
      × (probe.stalled_id ≡ id)
      × (id ≢ none)
  Grounds ticks p probe pause_intake_action id =
      (in_cooldown c ticks p ≡ false)
      × (first_retryable c probe.retry_candidates ≡ none)
      × (probe.stalled_id ≡ none)
      × (pause_intake_failure_threshold ≤ probe.failure_total)
      × (id ≡ none)
  Grounds ticks p probe escalate_to_brain id = ¬ IsQuiet probe
  Grounds ticks p probe compact id = ⊥

  IsQuiet-ladder-ne :
      (b b' : Bool) (p : Probe) (d : InterventionDecision) → ladder c b b' p ≡ some d → ¬ IsQuiet p
  IsQuiet-ladder-ne b b' p d e q = cc (ladder-IsQuiet b b' p q)

  ladder-Grounds :
      (ticks : ℕ) (p : Policy) (probe : Probe) (b b' : Bool) (a : OpencodeAction) (id : Option ℕ)
      → (b' ≡ true → in_cooldown c ticks p ≡ false)
      → ladder c b b' probe ≡ some (record { action = a; run_id = id })
      → Grounds ticks p probe a id
  unfolding ladder escalation
  ladder-Grounds ticks p probe b b' retry (some id) cool e =
      (ground arith, first_retryable-Retryable id probe.retry_candidates (ground arith))
  ladder-Grounds ticks p probe b b' retry none cool e = ground arith
  ladder-Grounds ticks p probe b b' nudge id cool e = ground arith
  ladder-Grounds ticks p probe b b' pause_intake_action id cool e = ground arith
  ladder-Grounds ticks p probe b b' escalate_to_brain id cool e = IsQuiet-ladder-ne b b' probe _ e
  ladder-Grounds ticks p probe b b' compact id cool e = ground arith

  decided_within :
      (spent cooling : Bool) (probe : Probe) (d : InterventionDecision)
      → ladder c (not spent) (not spent && not cooling) probe ≡ some d
      → spent ≡ false
  unfolding ladder escalation
  decided_within true cooling probe d e = ground arith
  decided_within false cooling probe d e = refl

  -- Whatever the policy decides, the hourly ceiling was not reached; a retry is of a listed run
  -- with retries left, a nudge of the first stalled run when no run can be retried, a pause follows
  -- at least three failures when neither applies, each of these three only outside the cooldown; an
  -- escalation only where the probe is not quiet; and a compaction is never decided.
  pub decide-Grounds :
      (ticks clock : ℕ) (probe : Probe) (p : Policy) (d : InterventionDecision)
      → (decide c ticks clock probe p).0 ≡ some d
      → (exhausted c (recent c clock p.recent_intervention_times) ≡ false)
        × Grounds ticks p probe d.action d.run_id
  unfolding decide
  decide-Grounds ticks clock probe p d e =
      let times = recent c clock p.recent_intervention_times in
      (
        decided_within (exhausted c times) (in_cooldown c ticks p) probe d e,
        ladder-Grounds ticks p probe _ _ d.action d.run_id (ground arith) e,
      )

  -- Where the hourly ceiling is not reached, the policy decides nothing exactly when the probe is
  -- quiet: no run that failed or timed out recently, no stalled run and fewer than three failures,
  -- whatever the cooldown and the retries.
  pub decide-none_iff :
      (ticks clock : ℕ) (probe : Probe) (p : Policy)
      → exhausted c (recent c clock p.recent_intervention_times) ≡ false
      → ((decide c ticks clock probe p).0 ≡ none) ↔ IsQuiet probe
  unfolding decide
  decide-none_iff ticks clock probe p room = (
    λ e. ladder-none-IsQuiet (not (in_cooldown c ticks p)) probe (rw room at e),
    λ q. ladder-IsQuiet _ _ probe q,
  )
