-- ===== src/Heart/Intervene/Terse.antt =====
-- What the journal handlers keep: a bounded table of rows with short texts.
use ansina.Prelude.{
  ℕ, zero, suc, ◌≤◌, ◌≡◌, refl, inl, inr, String, Option, none, some, List, [], ◌∷◌, ◌++◌, Bool,
  length, arith, keep, All, All-snoc, Bool-cases,
}
use ansina.Heart.Decision.{TickDecision}
use ansina.Heart.Snapshot.{SnapshotItem, TickPrompt}
use ansina.Heart.Journal.{JournalEntry, untouched, take, id_among, append, build_note, handle}
use ansina.Heart.Journal.Newest.{Distinct}
use ansina.Heart.Journal.Retention.{append-retained, retained}
use ansina.Heart.Escalation.{
  BrainStream, BrainEvent, done, failed, chunk, BrainCall, absorb, consume, opened, declined_call,
  JournalSettings, Draw, or_rows, journal_decision, journal_call, escalate_decision,
}

-- The texts of a row are short, and an idle tick has nothing to say.
pub record IsTerse (e : JournalEntry) : Type 0 where
  pub short_note : length e.note ≤ 500
  pub short_brain_detail : length e.outcome.brain_detail ≤ 500
  pub short_opencode_detail : length e.outcome.opencode_detail ≤ 500
  pub idle_silent : e.decision ≡ TickDecision.idle → (e.note ≡ []) × (e.outcome ≡ untouched)

pub record IsKept (max_entries : ℕ) (rows : List JournalEntry) : Type 0 where
  pub bounded : length rows ≤ max_entries
  pub distinct : Distinct rows
  pub terse : All IsTerse rows

pub length-take {ℓ} : {A : Type ℓ} (n : ℕ) (xs : List A) → length (take n xs) ≤ n
unfolding take
length-take zero xs = omega arith
length-take (suc n) [] = omega arith
length-take (suc n) (x ∷ xs) = omega (arith, length-take n xs)

module _ (P : JournalEntry → Type 0) where
  All-keep : (p : JournalEntry → Bool) (xs : List JournalEntry) → All P xs → All P (keep p xs)
  unfolding keep
  All-keep p [] all = tt
  All-keep p (x ∷ xs) (q, all) = elim (Bool-cases (p x)) [
    | inl kept ↦ rw kept (q, All-keep p xs all)
    | inr gone ↦ rw gone (All-keep p xs all)
  ]

pub append-IsKept :
    (c : JournalSettings) (e : JournalEntry) (rows : List JournalEntry)
    → IsTerse e
    → IsKept c.max_entries rows
    → IsKept c.max_entries (or_rows rows (append e c.max_entries c.retention_days rows)).0
unfolding append
append-IsKept c e rows t k = elim (Bool-cases (id_among e.id rows)) [
  | inl taken ↦ rw taken k
  | inr fresh ↦
      let (left, written, same, bounded, distinct) =
        append-retained e c.max_entries c.retention_days rows k.distinct fresh in
      rw written (record {
        bounded = bounded;
        distinct = distinct;
        terse = rw same (
            unfold retained in
            All-keep IsTerse _ (rows ++ e ∷ []) (All-snoc IsTerse e rows k.terse t));
      })
]

build_note-short : (items : List SnapshotItem) → length (build_note items) ≤ 500
unfolding build_note
build_note-short [] = omega arith
build_note-short (x ∷ xs) = length-take 500 _

absorb-short :
    (e : BrainEvent) (c : BrainCall) → length c.detail ≤ 500 → length (absorb e c).detail ≤ 500
unfolding absorb
absorb-short (done none) c h = h
absorb-short (done (some u)) c h = h
absorb-short (failed m none) c h = length-take 500 m
absorb-short (failed m (some u)) c h = length-take 500 m
absorb-short chunk c h = h

pub consume-short :
    (es : List BrainEvent) (c : BrainCall)
    → length c.detail ≤ 500
    → length (consume es c).detail ≤ 500
unfolding consume
consume-short [] c h = h
consume-short (e ∷ es) c h = consume-short es (absorb e c) (absorb-short e c h)

module _ (c : JournalSettings) where
  abbrev pub Kept : List JournalEntry → Type 0
  Kept = IsKept c.max_entries

  pub journal_decision-IsKept :
      (d : Draw) (decision : TickDecision) (prompt : TickPrompt) (n t : ℕ)
      (rows : List JournalEntry)
      → Kept rows
      → Kept (journal_decision c d decision prompt n t rows).0
  unfolding journal_decision handle
  journal_decision-IsKept d TickDecision.idle prompt n t rows k =
      append-IsKept c _ rows
        (record {
          short_note = omega arith;
          short_brain_detail = omega arith;
          short_opencode_detail = omega arith;
          idle_silent = λ same. (refl, refl);
        })
        k
  journal_decision-IsKept d TickDecision.act prompt n t rows k =
      append-IsKept c _ rows
        (record {
          short_note = build_note-short prompt.items;
          short_brain_detail = omega arith;
          short_opencode_detail = omega arith;
          idle_silent = λ same. cc;
        })
        k
  journal_decision-IsKept d TickDecision.escalate prompt n t rows k =
      append-IsKept c _ rows
        (record {
          short_note = build_note-short prompt.items;
          short_brain_detail = omega arith;
          short_opencode_detail = omega arith;
          idle_silent = λ same. cc;
        })
        k

  journal_call-IsKept :
      (d : Draw) (call : BrainCall) (prompt : TickPrompt) (n t : ℕ) (rows : List JournalEntry)
      → length call.detail ≤ 500
      → Kept rows
      → Kept (journal_call c d call prompt n t rows).0
  unfolding journal_call
  journal_call-IsKept d call prompt n t rows short k =
      append-IsKept c _ rows
        (record {
          short_note = omega arith;
          short_brain_detail = short;
          short_opencode_detail = omega arith;
          idle_silent = λ same. cc;
        })
        k

  pub escalate_decision-IsKept :
      (brain : Option (String → BrainStream)) (d : Draw) (decision : TickDecision)
      (prompt : TickPrompt) (n t : ℕ) (rows : List JournalEntry)
      → Kept rows
      → Kept (escalate_decision c brain d decision prompt n t rows).0
  unfolding escalate_decision
  escalate_decision-IsKept brain d TickDecision.idle prompt n t rows k = k
  escalate_decision-IsKept brain d TickDecision.act prompt n t rows k = k
  escalate_decision-IsKept none d TickDecision.escalate prompt n t rows k =
      journal_call-IsKept d declined_call prompt n 0 rows (omega arith) k
  escalate_decision-IsKept (some brain) d TickDecision.escalate prompt n t rows k =
      elim (Bool-cases (brain prompt.text).raises) [
        | inl raised ↦ rw raised k
        | inr ended ↦ rw ended (
            journal_call-IsKept d (consume (brain prompt.text).events opened) prompt n
              d.call_duration rows (consume-short (brain prompt.text).events opened (omega arith))
              k)
      ]
