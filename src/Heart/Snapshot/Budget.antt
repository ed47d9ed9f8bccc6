-- ===== src/Heart/Snapshot/Budget.antt =====
-- How `build_prompt` trims the items to the token budget.
use native.Mathlib.Nat.{add_assoc}
use Prim.Native.String.{◌++◌ as str_append}
use ansina.Prelude.{
  ℕ, ◌+◌, ◌*◌, ◌≤◌, ◌<◌, ◌≡◌, ◌≢◌, ◌∙◌, refl, ap, String, List, [], ◌∷◌, ◌++◌, length,
  length-append, ltb, arith, Bool-cases, inl, inr,
}
use ansina.Heart.Snapshot.{
  SnapshotItem, Template, fitting, available_tokens, build_prompt, format, join_lines, state_text,
}

module _ (token_count : String → ℕ) where
  -- What the items cost, one by one.
  pub cost : List SnapshotItem → ℕ
  cost [] = 0
  cost (x ∷ xs) = token_count x.text + cost xs

  -- The next item would not have fitted.
  abbrev pub Full : ℕ → ℕ → List SnapshotItem → Type 0
  Full available used [] = Unit
  Full available used (x ∷ xs) = available < used + token_count x.text

  -- `kept` is what the trimming of `items` leaves.
  pub record Trims (available used : ℕ) (items kept : List SnapshotItem) : Type 0 where
    pub rest : List SnapshotItem
    pub split : items ≡ kept ++ rest
    pub within : used + cost kept ≤ available
    pub full : Full available (used + cost kept) rest

  Trims-cons :
      (available used : ℕ) (x : SnapshotItem) (xs kept : List SnapshotItem)
      → Trims available (used + token_count x.text) xs kept
      → Trims available used (x ∷ xs) (x ∷ kept)
  unfolding cost
  Trims-cons available used x xs kept t = record {
    rest = t.rest;
    split = ap (λ l. x ∷ l) t.split;
    within = omega (arith, t.within);
    full = rw (← add_assoc used (token_count x.text) (cost kept)) t.full;
  }

  fitting-Trims :
      (available used : ℕ) (items : List SnapshotItem)
      → used ≤ available
      → Trims available used items (fitting token_count available used items)
  unfolding fitting cost
  fitting-Trims available used [] h = record {
    rest = [];
    split = refl;
    within = omega arith;
    full = tt;
  }
  fitting-Trims available used (x ∷ xs) h =
      elim (Bool-cases (ltb available (used + token_count x.text))) [
        | inl over ↦
            rw over
              (record { rest = x ∷ xs; split = refl; within = omega arith; full = ground arith })
        | inr fits ↦ rw fits (
            Trims-cons available used x xs _
              (fitting-Trims available (used + token_count x.text) xs (ground arith)))
      ]

  -- `build_prompt` keeps a prefix of the items, in their order, whose token costs add up to no more
  -- than the budget has left beside the empty template, and the first item that it drops would not
  -- have fitted; the two counts that it reports add up to the number of items.
  pub build_prompt-Trims :
      (items : List SnapshotItem) (budget : ℕ) (t : Template)
      → let p = build_prompt token_count items budget t in
        Trims (available_tokens token_count budget t) 0 items p.items
        × (p.items_included ≡ length p.items)
        × (p.items_included + p.items_dropped ≡ length items)
  unfolding build_prompt
  build_prompt-Trims items budget t =
      let trims = fitting-Trims (available_tokens token_count budget t) 0 items (omega arith) in
      let total = ap length trims.split ∙ length-append _ trims.rest in (trims, refl, omega arith)

  -- A tokenizer whose count of a text is the sum of the counts of its parts.
  abbrev pub Additive : Type 0
  Additive = (a b : String) → token_count (str_append a b) ≡ token_count a + token_count b

  -- One line break for each item but the last.
  abbrev pub breaks : List SnapshotItem → ℕ
  breaks [] = 0
  breaks (x ∷ xs) = length xs

  tokens-join_lines :
      (x : SnapshotItem) (xs : List SnapshotItem)
      → Additive
      → token_count (join_lines (x ∷ xs)) ≡ cost (x ∷ xs) + length xs * token_count "\n"
  unfolding join_lines cost
  tokens-join_lines x [] add = omega arith
  tokens-join_lines x (y ∷ ys) add =
      rw (add x.text (str_append "\n" (join_lines (y ∷ ys))), add "\n" (join_lines (y ∷ ys)))
        (omega (arith, tokens-join_lines y ys add))

  tokens_of_items :
      (t : Template) (kept : List SnapshotItem)
      → Additive
      → kept ≢ []
      → token_count (format t (state_text token_count kept))
        ≡ token_count t.before + token_count t.after + cost kept + breaks kept * token_count "\n"
  tokens_of_items t [] add some_item = absurd (some_item refl)
  tokens_of_items t (x ∷ xs) add some_item =
      rw
        (add t.before (str_append (join_lines (x ∷ xs)) t.after), add (join_lines (x ∷ xs)) t.after)
        (omega (arith, tokens-join_lines x xs add))

  -- For a tokenizer whose count of a text is the sum of the counts of its parts, a prompt that
  -- keeps an item costs what the template costs around the state, and what the kept items cost,
  -- and a line break for each kept item after the first.
  pub tokens-build_prompt :
      (items : List SnapshotItem) (budget : ℕ) (t : Template)
      → Additive
      → (build_prompt token_count items budget t).items ≢ []
      → let p = build_prompt token_count items budget t in
        p.tokens
        ≡ token_count t.before
          + token_count t.after
          + cost p.items
          + breaks p.items * token_count "\n"
  unfolding build_prompt
  tokens-build_prompt items budget t add =
      tokens_of_items t (fitting token_count (available_tokens token_count budget t) 0 items) add
