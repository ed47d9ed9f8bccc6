-- ===== src/Heart/Journal.antt =====
-- src/ansina/heart/journal.py, with the handler that writes its rows
-- (src/ansina/heart/tick/journal_handler.py) and the source that reads them back
-- (src/ansina/heart/tick/sources/recent_journal.py). An id is the number that `uuid4().hex` spells
-- with a fixed width, so that ids compare as the texts do; it is an argument of `append`. The table
-- is the list of its rows. Lengths of time are microseconds, and a clock reading is assumed to lie
-- more than the retention after the first datetime.
pub mod Newest
pub mod Retention
use ansina.Prelude.{
  ℕ, zero, suc, ◌+◌, ◌-◌, ◌*◌, String, Option, none, some, List, [], ◌∷◌, ◌++◌, Bool, true, false,
  not, ◌&&◌, ◌||◌, length, map, ltb, ◌==◌, if◌then◌else◌, keep,
}
use ansina.Clock.{iso, parse_iso}
use ansina.Heart.Decision.{TickDecision, codes, word}
use ansina.Heart.Curation.{decimal}
use ansina.Heart.Snapshot.{SnapshotItem, TickPrompt}
use ansina.Opencode.Service.{OpencodeAction}

pub data BrainEscalationStatus : Type 0 where
  called brain_declined brain_error : BrainEscalationStatus

pub data OpencodeInterventionStatus : Type 0 where
  applied declined unsupported failed_intervention : OpencodeInterventionStatus

-- What the caller of `append` says of the Brain and of OpenCode; `untouched` are the defaults.
pub record Outcome : Type 0 where
  pub brain_status : Option BrainEscalationStatus
  pub brain_detail : List ℕ
  pub brain_prompt_tokens : Option ℕ
  pub brain_completion_tokens : Option ℕ
  pub opencode_run_id : Option ℕ
  pub opencode_action : Option OpencodeAction
  pub opencode_outcome : Option OpencodeInterventionStatus
  pub opencode_detail : List ℕ

abbrev pub untouched : Outcome
untouched = record {
  brain_status = none;
  brain_detail = [];
  brain_prompt_tokens = none;
  brain_completion_tokens = none;
  opencode_run_id = none;
  opencode_action = none;
  opencode_outcome = none;
  opencode_detail = [];
}

pub record JournalEntry : Type 0 where
  pub id : ℕ
  pub created_at : ℕ
  pub tick_number : ℕ
  pub decision : TickDecision
  pub note : List ℕ
  pub prompt_tokens : ℕ
  pub duration : ℕ
  pub outcome : Outcome

-- `ORDER BY created_at DESC, id DESC`
abbrev pub newer : JournalEntry → JournalEntry → Bool
newer a b = ltb b.created_at a.created_at || b.created_at == a.created_at && ltb b.id a.id

unfoldable pub insert_entry : JournalEntry → List JournalEntry → List JournalEntry
insert_entry x [] = x ∷ []
insert_entry x (y ∷ ys) = let rest = insert_entry x ys in if newer x y then x ∷ y ∷ ys else y ∷ rest

unfoldable pub by_newest : List JournalEntry → List JournalEntry
unfolding insert_entry
by_newest [] = []
by_newest (x ∷ xs) = insert_entry x (by_newest xs)

-- `LIMIT n`
unfoldable pub take {ℓ} : {A : Type ℓ} → ℕ → List A → List A
take zero xs = []
take (suc n) [] = []
take (suc n) (x ∷ xs) = x ∷ take n xs

abbrev after_since : Option ℕ → JournalEntry → Bool
after_since none e = true
after_since (some t) e = ltb t e.created_at

unfoldable pub list_recent : ℕ → Option ℕ → List JournalEntry → List JournalEntry
unfolding by_newest take keep
list_recent limit since rows = take limit (by_newest (keep (after_since since) rows))

unfoldable pub id_among : ℕ → List JournalEntry → Bool
id_among n [] = false
id_among n (e ∷ es) = e.id == n || id_among n es

abbrev pub day : ℕ
day = 86400000000

abbrev pub cutoff : ℕ → ℕ → ℕ
cutoff now retention_days = iso (now - retention_days * day)

-- The rows after the DELETE of `sweep`; how many rows it deletes is the second part.
unfoldable pub sweep : ℕ → ℕ → ℕ → List JournalEntry → List JournalEntry × ℕ
unfolding keep id_among by_newest take
sweep now max_entries retention_days rows =
    let newest = take max_entries (by_newest rows) in
    let left =
      keep (λ e. not (ltb e.created_at (cutoff now retention_days) || not (id_among e.id newest)))
        rows in
    (left, length rows - length left)

-- `none` is the IntegrityError of an id that a row has.
unfoldable pub append :
    JournalEntry → ℕ → ℕ → List JournalEntry → Option (JournalEntry × List JournalEntry)
unfolding sweep id_among
append e max_entries retention_days rows =
    if id_among e.id rows
    then none
    else some (e, (sweep (parse_iso e.created_at) max_entries retention_days (rows ++ e ∷ [])).0)

abbrev pub max_note_length : ℕ
max_note_length = 500

abbrev pub higher : ℕ → ℕ → ℕ
higher a b = if ltb a b then b else a

unfoldable pub top_priority : List SnapshotItem → ℕ
top_priority [] = 0
top_priority (x ∷ xs) = higher x.priority (top_priority xs)

abbrev pub report : SnapshotItem → List ℕ
report x = codes x.source ++ (codes " reported: " ++ codes x.text)

-- `separator.join`
unfoldable pub join : List ℕ → List (List ℕ) → List ℕ
join separator [] = []
join separator (x ∷ []) = x
join separator (x ∷ y ∷ ys) = x ++ (separator ++ join separator (y ∷ ys))

unfoldable pub build_note : List SnapshotItem → List ℕ
unfolding top_priority join take keep
build_note [] = []
build_note (x ∷ xs) =
    let top = top_priority (x ∷ xs) in
    take max_note_length (join (codes " ") (map report (keep (λ y. y.priority == top) (x ∷ xs))))

abbrev pub note_of : TickDecision → List SnapshotItem → List ℕ
unfolding build_note
note_of TickDecision.idle items = []
note_of TickDecision.act items = build_note items
note_of TickDecision.escalate items = build_note items

-- `JournalDecisionHandler.handle`, at the clock reading `now`.
unfoldable pub handle :
    ℕ
    → ℕ
    → ℕ
    → ℕ
    → TickDecision
    → TickPrompt
    → ℕ
    → ℕ
    → List JournalEntry
    → Option (JournalEntry × List JournalEntry)
unfolding append build_note
handle max_entries retention_days now id decision prompt tick_number duration =
    append
      (record {
        id = id;
        created_at = iso now;
        tick_number = tick_number;
        decision = decision;
        note = note_of decision prompt.items;
        prompt_tokens = prompt.tokens;
        duration = duration;
        outcome = untouched;
      })
      max_entries retention_days

abbrev pub max_note_preview : ℕ
max_note_preview = 80

abbrev pub preview : List ℕ → List ℕ
preview [] = []
preview (c ∷ cs) = codes " (" ++ (take max_note_preview (c ∷ cs) ++ codes ")")

unfoldable pub format_entry : JournalEntry → List ℕ
unfolding decimal take
format_entry e =
    codes "tick " ++ (decimal e.tick_number ++ (codes ": " ++ (word e.decision ++ preview e.note)))

unfoldable pub oldest_first : List JournalEntry → List JournalEntry
oldest_first [] = []
oldest_first (e ∷ es) = oldest_first es ++ e ∷ []

abbrev history : List JournalEntry → Option (List ℕ)
history [] = none
history (e ∷ es) = some (
    codes "Recent tick history (oldest first): "
    ++ join (codes " | ") (map format_entry (oldest_first (e ∷ es))))

-- `RecentJournalSource.collect`: the text of its one item, or `none` for no item.
unfoldable pub collect : ℕ → List JournalEntry → Option (List ℕ)
unfolding list_recent join format_entry oldest_first
collect recent_entries rows =
    if recent_entries == 0 then none else history (list_recent recent_entries none rows)
