-- ===== src/Heart/Snapshot.antt =====
-- src/ansina/heart/tick/snapshot.py: what the sources report, and the prompt that is made of it.
-- The tokenizer is the runtime's and so a parameter; a template is the text on either side of its
-- one `{state}` placeholder.
pub mod Budget
pub mod Order
use Prim.Native.String.{◌++◌ as str_append}
use ansina.Prelude.{
  ℕ, ◌+◌, ◌-◌, String, Option, none, some, List, [], ◌∷◌, ◌++◌, length, ltb, leb, if◌then◌else◌,
}

pub record SnapshotItem : Type 0 where
  pub source : String
  pub text : String
  pub priority : ℕ

-- A `StateSnapshotSource` during one tick: what `collect` returns, or `none` if it raises.
pub record SnapshotSource : Type 0 where
  pub name : String
  pub collected : Option (List SnapshotItem)

-- `list.sort(key=priority, reverse=True)`, which is stable: an item goes behind its equals.
unfoldable pub insert_item : SnapshotItem → List SnapshotItem → List SnapshotItem
insert_item x [] = x ∷ []
insert_item x (y ∷ ys) =
    let rest = insert_item x ys in if leb x.priority y.priority then y ∷ rest else x ∷ y ∷ ys

unfoldable pub sort_items : List SnapshotItem → List SnapshotItem → List SnapshotItem
unfolding insert_item
sort_items sorted [] = sorted
sort_items sorted (x ∷ xs) = sort_items (insert_item x sorted) xs

abbrev collected_or_none : SnapshotSource → List SnapshotItem
collected_or_none s = elim s.collected [ none ↦ [] | some items ↦ items ]

unfoldable pub gather : List SnapshotSource → List SnapshotItem
gather [] = []
gather (s ∷ ss) = collected_or_none s ++ gather ss

unfoldable pub collect_items : List SnapshotSource → List SnapshotItem
unfolding gather sort_items
collect_items sources = sort_items [] (gather sources)

pub record Template : Type 0 where
  pub before : String
  pub after : String

abbrev pub format : Template → String → String
format t state = str_append t.before (str_append state t.after)

pub record TickPrompt : Type 0 where
  pub text : String
  pub tokens : ℕ
  pub items_included : ℕ
  pub items_dropped : ℕ
  pub items : List SnapshotItem

-- `"\n".join`
unfoldable pub join_lines : List SnapshotItem → String
join_lines [] = ""
join_lines (x ∷ []) = x.text
join_lines (x ∷ y ∷ ys) = str_append x.text (str_append "\n" (join_lines (y ∷ ys)))

abbrev pub no_pending_state : String
no_pending_state = "(no pending state)"

module _ (token_count : String → ℕ) where
  -- The loop of `build_prompt`: the items that fit, from the front, up to the first that does not.
  unfoldable pub fitting : ℕ → ℕ → List SnapshotItem → List SnapshotItem
  fitting available used [] = []
  fitting available used (x ∷ xs) =
      let cost = token_count x.text in
      let rest = fitting available (used + cost) xs in
      if ltb available (used + cost) then [] else x ∷ rest

  abbrev pub state_text : List SnapshotItem → String
  state_text [] = no_pending_state
  state_text (x ∷ xs) = join_lines (x ∷ xs)

  abbrev pub available_tokens : ℕ → Template → ℕ
  available_tokens budget t = budget - token_count (format t no_pending_state)

  unfoldable pub build_prompt : List SnapshotItem → ℕ → Template → TickPrompt
  unfolding fitting join_lines
  build_prompt items budget t =
      let included = fitting (available_tokens budget t) 0 items in
      let prompt = format t (state_text included) in
      record {
        text = prompt;
        tokens = token_count prompt;
        items_included = length included;
        items_dropped = length items - length included;
        items = included;
      }
