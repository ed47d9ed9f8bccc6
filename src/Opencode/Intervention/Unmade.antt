-- ===== src/Opencode/Intervention/Unmade.antt =====
-- What an intervention that fails leaves in the table.
use ansina.Prelude.{
  ℕ, ◌≡◌, refl, ap, ◌∙◌, String, Option, none, some, Bool, true, false, ok, err, Bool-cases,
  Option-cases, inl, inr,
}
use ansina.Opencode.Run.{OpencodeRun, RunRequest, is_retryable}
use ansina.Opencode.Repository.{Table, get, increment_intervention_count}
use ansina.Opencode.Repository.Laws.{Unique, get-id}
use ansina.Opencode.Service.{
  Service, OpencodeSettings, OpencodeAction, retry, nudge, compact, pause_intake_action,
  escalate_to_brain, applied, declined, unsupported, error, Detail, resubmitted_as, nudged_via,
  admit, submit, pause_intake,
}
use ansina.Opencode.Intervention.{
  build_retry_request, build_nudge_request, Reply, resubmitted, on_run, apply_intervention,
}
use ansina.Opencode.Intervention.Resubmit.{resubmitted-Resubmits}

found_again : (id : ℕ) (t : Table) (r : OpencodeRun) → get id t ≡ some r → get r.id t ≡ some r
found_again id t r e = ap (λ j. get j t) (get-id id t r e) ∙ e

module _ (length : String → ℕ) (c : OpencodeSettings) where
  -- Whether a reply says that the attempt was made.
  abbrev pub was_made : Reply → Bool
  was_made (ok (applied, d)) = true
  was_made (ok (unsupported, d)) = true
  was_made (ok (declined, d)) = false
  was_made (ok (error, d)) = false
  was_made (err e) = false

  resubmitted-unmade :
      (new now : ℕ) (a : OpencodeAction) (d : ℕ → Detail) (r : OpencodeRun) (q : RunRequest)
      (s : Service)
      → Unique s.table
      → get r.id s.table ≡ some r
      → get new s.table ≡ none
      → let (reply, t) = resubmitted length c r a d (submit length c new now q (some r.id) s) in
        was_made reply ≡ false → t.table ≡ s.table
  unfolding submit
  resubmitted-unmade new now a d r q s unique e fresh unmade =
      elim (Option-cases (admit length c q s)) [
        | inl free ↦
            let known = resubmitted-Resubmits length c new now a d r q s unique e fresh free in
            let bad : true ≡ false = rw known.0 at unmade in cc
        | inr (why, refused) ↦ rw refused refl
      ]

  retry-unmade :
      (new now : ℕ) (r : OpencodeRun) (s : Service)
      → Unique s.table
      → get r.id s.table ≡ some r
      → get new s.table ≡ none
      → was_made (on_run length c new now r retry s).0 ≡ false
      → (on_run length c new now r retry s).1.table ≡ s.table
  retry-unmade new now r s unique e fresh unmade = elim (Bool-cases (is_retryable r.status)) [
    | inl can ↦ rw can (
        resubmitted-unmade new now retry resubmitted_as r (build_retry_request r) s unique e fresh
          (rw can at unmade))
    | inr cannot ↦ rw cannot refl
  ]

  compact-unmade :
      (new now : ℕ) (r : OpencodeRun) (s : Service)
      → was_made (on_run length c new now r compact s).0 ≡ false
      → (on_run length c new now r compact s).1.table ≡ s.table
  compact-unmade new now r s unmade =
      elim (Option-cases (increment_intervention_count r.id s.table)) [
        | inl missing ↦ rw missing refl
        | inr (t, counted) ↦ let bad : true ≡ false = rw counted at unmade in cc
      ]

  -- In a table whose ids are unique, and with a new id drawn, an intervention that raises, is
  -- declined or finds no run leaves every row as it was: no new run, and no attempt counted.
  pub table-apply_intervention_unmade :
      (new now : ℕ) (id : Option ℕ) (a : OpencodeAction) (s : Service)
      → Unique s.table
      → get new s.table ≡ none
      → was_made (apply_intervention length c new now id a s).0 ≡ false
      → (apply_intervention length c new now id a s).1.table ≡ s.table
  unfolding apply_intervention pause_intake
  table-apply_intervention_unmade new now none retry s unique fresh unmade = refl
  table-apply_intervention_unmade new now none nudge s unique fresh unmade = refl
  table-apply_intervention_unmade new now none compact s unique fresh unmade = refl
  table-apply_intervention_unmade new now none escalate_to_brain s unique fresh unmade = refl
  table-apply_intervention_unmade new now none pause_intake_action s unique fresh unmade = cc
  table-apply_intervention_unmade new now (some id) pause_intake_action s unique fresh unmade =
      elim (Option-cases (increment_intervention_count id s.table)) [
        | inl none_counted ↦ rw none_counted refl
        | inr (t, counted) ↦ let bad : true ≡ false = rw counted at unmade in cc
      ]
  table-apply_intervention_unmade new now (some id) retry s unique fresh unmade =
      elim (Option-cases (get id s.table)) [
        | inl missing ↦ rw missing refl
        | inr (r, found) ↦ rw found (
            retry-unmade new now r s unique (found_again id s.table r found) fresh
              (rw found at unmade))
      ]
  table-apply_intervention_unmade new now (some id) nudge s unique fresh unmade =
      elim (Option-cases (get id s.table)) [
        | inl missing ↦ rw missing refl
        | inr (r, found) ↦ rw found (
            resubmitted-unmade new now nudge nudged_via r (build_nudge_request r) s unique
              (found_again id s.table r found) fresh (rw found at unmade))
      ]
  table-apply_intervention_unmade new now (some id) compact s unique fresh unmade =
      elim (Option-cases (get id s.table)) [
        | inl missing ↦ rw missing refl
        | inr (r, found) ↦ rw found (compact-unmade new now r s (rw found at unmade))
      ]
  table-apply_intervention_unmade new now (some id) escalate_to_brain s unique fresh unmade =
      elim (Option-cases (get id s.table)) [
        | inl missing ↦ rw missing refl
        | inr (r, found) ↦ rw found refl
      ]
