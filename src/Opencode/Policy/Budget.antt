-- ===== src/Opencode/Policy/Budget.antt =====
-- The hourly ceiling, over every sequence of ticks.
use ansina.Prelude.{
  ℕ, ◌≤◌, ◌≡◌, refl, ◌∙◌, Option, none, some, List, [], ◌∷◌, ◌++◌, arith, Option-cases, inl, inr,
  length, length-append,
}
use mathlib.Core.List.{append-nil}
use ansina.Opencode.Policy.Ladder.{decide-Grounds}
use ansina.Opencode.Policy.{
  PolicySettings, Policy, Probe, InterventionDecision, initial, recent, decide,
}

-- One call of `decide`: the tick, the monotonic clock, and what the probe said.
pub record Consult : Type 0 where
  pub ticks_run : ℕ
  pub clock : ℕ
  pub probe : Probe

-- The clock never goes back.
abbrev pub Ordered : ℕ → List Consult → Type 0
Ordered now [] = Unit
Ordered now (x ∷ xs) = (now ≤ x.clock) × Ordered x.clock xs

abbrev pub last_clock : ℕ → List Consult → ℕ
last_clock now [] = now
last_clock now (x ∷ xs) = last_clock x.clock xs

module _ (c : PolicySettings) where
  abbrev stamp : Option InterventionDecision → ℕ → List ℕ
  stamp none clock = []
  stamp (some d) clock = clock ∷ []

  -- The policy after the calls, and the instants of all the decisions that it made.
  pub consult_all : List Consult → Policy → List ℕ → Policy × List ℕ
  consult_all [] p times = (p, times)
  consult_all (x ∷ xs) p times =
      let (d, q) = decide c x.ticks_run x.clock x.probe p in
      consult_all xs q (times ++ stamp d x.clock)

  -- The policy has kept every instant that is less than an hour old, and they are within the
  -- ceiling.
  record Keeps (now : ℕ) (p : Policy) (times : List ℕ) : Type 0 where
    same :
        (clock : ℕ)
        → now ≤ clock
        → recent c clock p.recent_intervention_times ≡ recent c clock times
    within : length p.recent_intervention_times ≤ c.max_interventions_per_hour

  recent-recent :
      (early late : ℕ) (ts : List ℕ)
      → early ≤ late
      → recent c late (recent c early ts) ≡ recent c late ts
  unfolding recent
  recent-recent early late [] h = refl
  recent-recent early late (t ∷ ts) h = ground (arith, recent-recent early late ts)

  recent-append :
      (clock : ℕ) (xs ys : List ℕ)
      → recent c clock (xs ++ ys) ≡ recent c clock xs ++ recent c clock ys
  unfolding recent
  recent-append clock [] ys = refl
  recent-append clock (x ∷ xs) ys = ground (arith, recent-append clock xs ys)

  length-recent : (clock : ℕ) (ts : List ℕ) → length (recent c clock ts) ≤ length ts
  unfolding recent
  length-recent clock [] = omega arith
  length-recent clock (t ∷ ts) = ground (arith, length-recent clock ts)

  decide-none :
      (x : Consult) (p : Policy)
      → (decide c x.ticks_run x.clock x.probe p).0 ≡ none
      → (decide c x.ticks_run x.clock x.probe p).1.recent_intervention_times
        ≡ recent c x.clock p.recent_intervention_times
  unfolding decide
  decide-none x p e = ground arith

  decide-some :
      (x : Consult) (p : Policy) (d : InterventionDecision)
      → (decide c x.ticks_run x.clock x.probe p).0 ≡ some d
      → (decide c x.ticks_run x.clock x.probe p).1.recent_intervention_times
        ≡ recent c x.clock p.recent_intervention_times ++ x.clock ∷ []
  unfolding decide
  decide-some x p d e = ground arith

  kept_old :
      (now clock late : ℕ) (p : Policy) (times : List ℕ)
      → now ≤ clock
      → clock ≤ late
      → Keeps now p times
      → recent c late (recent c clock p.recent_intervention_times) ≡ recent c late times
  kept_old now clock late p times h k v =
      recent-recent clock late p.recent_intervention_times k ∙ v.same late (omega arith)

  decide-Keeps :
      (x : Consult) (now : ℕ) (p : Policy) (times : List ℕ)
      → now ≤ x.clock
      → Keeps now p times
      → let (d, q) = decide c x.ticks_run x.clock x.probe p in
        Keeps x.clock q (times ++ stamp d x.clock)
  decide-Keeps x now p times h v = elim (Option-cases (decide c x.ticks_run x.clock x.probe p).0) [
    | inl quiet ↦
        rw (quiet, append-nil times)
          (record {
            same = λ late k. rw (decide-none x p quiet) (kept_old now x.clock late p times h k v);
            within =
                rw (decide-none x p quiet)
                  (omega (arith, length-recent x.clock p.recent_intervention_times, v.within));
          })
    | inr (d, acts) ↦ rw acts (record {
      same = λ late k. rw (
        decide-some x p d acts,
        recent-append late (recent c x.clock p.recent_intervention_times) (x.clock ∷ []),
        recent-append late times (x.clock ∷ []),
        kept_old now x.clock late p times h k v,
      );
      within =
          rw
            (
              decide-some x p d acts,
              length-append (recent c x.clock p.recent_intervention_times) (x.clock ∷ []),
            )
            (ground (arith, decide-Grounds c x.ticks_run x.clock x.probe p d acts));
    })
  ]

  consult_all-Keeps :
      (xs : List Consult) (now : ℕ) (p : Policy) (times : List ℕ)
      → Ordered now xs
      → Keeps now p times
      → let (q, all) = consult_all xs p times in Keeps (last_clock now xs) q all
  unfolding consult_all
  consult_all-Keeps [] now p times o v = v
  consult_all-Keeps (x ∷ xs) now p times (h, o) v =
      consult_all-Keeps xs x.clock _ _ o (decide-Keeps x now p times h v)

  Keeps-initial : (now : ℕ) → Keeps now initial []
  Keeps-initial now = record { same = λ late k. refl; within = omega arith }

  -- Through any sequence of consultations at instants that never go back, of all the decisions that
  -- the policy has made, retries, nudges, pauses and escalations alike, no more than
  -- `max_interventions_per_hour` are less than an hour old, at the last consultation and at every
  -- later instant.
  pub hourly_ceiling :
      (xs : List Consult) (now late : ℕ)
      → Ordered now xs
      → last_clock now xs ≤ late
      → length (recent c late (consult_all xs initial []).1) ≤ c.max_interventions_per_hour
  hourly_ceiling xs now late o h =
      let (q, all) = consult_all xs initial [] in
      let v = consult_all-Keeps xs now initial [] o (Keeps-initial now) in
      rw (← v.same late h) (omega (arith, length-recent late q.recent_intervention_times, v.within))
