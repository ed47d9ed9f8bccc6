-- ===== src/Opencode/Service/Submit.antt =====
-- Admission to the run queue.
use ansina.Prelude.{
  ℕ, ◌+◌, ◌≤◌, ◌<◌, ◌≡◌, refl, String, Option, none, some, [], ◌∷◌, ◌++◌, true, false, arith, ok,
  err, Result, ◌∙◌,
}
use ansina.Clock.{iso}
use ansina.Opencode.Run.{RunRequest}
use ansina.Opencode.Repository.{Table, new_run, create, count_where, count_active}
use ansina.Opencode.Service.{
  Service, OpencodeSettings, Refusal, intake_paused, prompt_too_long, busy, assertion_failed, admit,
  enqueue, submit, admitted,
}

pub count_active-create :
    (id at : ℕ) (q : RunRequest) (o : Option ℕ) (t : Table)
    → count_active (create id at q o t) ≡ count_active t + 1
unfolding count_active count_where new_run
count_active-create id at q o [] = refl
count_active-create id at q o (r ∷ t) = ground (arith, count_active-create id at q o t)

module _ (length : String → ℕ) (c : OpencodeSettings) where
  -- Why a submission is refused.
  abbrev pub Reason : Refusal → RunRequest → Service → Type 0
  Reason intake_paused q s = s.paused ≡ true
  Reason prompt_too_long q s = c.max_prompt_chars < length q.prompt
  Reason busy q s = c.queue_max_depth ≤ count_active s.table
  Reason assertion_failed q s = ⊥

  -- A refused submission has left the service as it was, no row and no task behind, and its reason
  -- holds of the request or of the service.
  pub submit-refused :
      (id now : ℕ) (q : RunRequest) (o : Option ℕ) (s : Service) (e : Refusal)
      → (submit length c id now q o s).0 ≡ err e
      → ((submit length c id now q o s).1 ≡ s) × Reason e q s
  unfolding submit
  submit-refused id now q o s intake_paused h = ground arith
  submit-refused id now q o s prompt_too_long h = ground arith
  submit-refused id now q o s busy h = ground arith
  submit-refused id now q o s assertion_failed h = ground arith

  count_active-enqueue :
      (id now : ℕ) (q : RunRequest) (o : Option ℕ) (s : Service)
      → count_active (enqueue length c id now q o s).table ≡ count_active s.table + 1
  unfolding enqueue
  count_active-enqueue id now q o s = ground (arith, count_active-create id (iso now) q o s.table)

  -- An accepted submission has found intake open, a prompt within its limit and room in the queue;
  -- it adds one active run, within `queue_max_depth`, and a task for it that has not begun.
  pub submit-accepted :
      (id now : ℕ) (q : RunRequest) (o : Option ℕ) (s : Service) (new : ℕ)
      → (submit length c id now q o s).0 ≡ ok new
      → let t = (submit length c id now q o s).1 in
        (s.paused ≡ false)
        × (length q.prompt ≤ c.max_prompt_chars)
        × (count_active t.table ≡ count_active s.table + 1)
        × (count_active t.table ≤ c.queue_max_depth)
        × (new ≡ id)
        × (t.tasks ≡ s.tasks ++ record { id = id; request = q; begun = none; event_count = 0 } ∷ [])
  unfolding submit
  submit-accepted id now q o s new h = ground (arith, count_active-enqueue id now q o s)

  -- Two submissions that both read the backlog before either inserts its row, with the results of both.
  unfoldable pub interleaved :
      ℕ
      → ℕ
      → ℕ
      → ℕ
      → RunRequest
      → RunRequest
      → Service
      → Result Refusal ℕ × Result Refusal ℕ × Service
  unfolding admit enqueue
  interleaved id id' now now' q q' s =
      let verdict = admit length c q s in
      let verdict' = admit length c q' s in
      let (r, t) = admitted length c id now q none s verdict in
      let (r', t') = admitted length c id' now' q' none t verdict' in (r, r', t')

  admit-open :
      (q : RunRequest) (s : Service)
      → s.paused ≡ false
      → length q.prompt ≤ c.max_prompt_chars
      → count_active s.table < c.queue_max_depth
      → admit length c q s ≡ none
  unfolding admit
  admit-open q s intake fits room = ground arith

  admit-busy :
      (q : RunRequest) (s : Service)
      → s.paused ≡ false
      → length q.prompt ≤ c.max_prompt_chars
      → c.queue_max_depth ≤ count_active s.table
      → admit length c q s ≡ some busy
  unfolding admit
  admit-busy q s intake fits full = ground arith

  paused-enqueue :
      (id now : ℕ) (q : RunRequest) (o : Option ℕ) (s : Service)
      → (enqueue length c id now q o s).paused ≡ s.paused
  unfolding enqueue
  paused-enqueue id now q o s = ground arith

  -- Intake is open, the queue has room for one run more, and two submissions come whose prompts are
  -- within their limit. If both read the backlog before either inserts its row, both are accepted and
  -- the queue is one run over `queue_max_depth`; one after the other, the first is accepted, the second
  -- is refused as busy, and the queue is full.
  pub interleaved_submissions_overfill :
      (id id' now now' : ℕ) (q q' : RunRequest) (s : Service)
      → s.paused ≡ false
      → length q.prompt ≤ c.max_prompt_chars
      → length q'.prompt ≤ c.max_prompt_chars
      → count_active s.table + 1 ≡ c.queue_max_depth
      → let (r, r', t) = interleaved id id' now now' q q' s in
        let (first, u) = submit length c id now q none s in
        let (second, v) = submit length c id' now' q' none u in
        (r ≡ ok id)
        × (r' ≡ ok id')
        × (count_active t.table ≡ c.queue_max_depth + 1)
        × (first ≡ ok id)
        × (second ≡ err busy)
        × (count_active v.table ≡ c.queue_max_depth)
  unfolding interleaved submit
  interleaved_submissions_overfill id id' now now' q q' s intake fits fits' room =
      let a = admit-open q s intake fits (omega arith) in
      let a' = admit-open q' s intake fits' (omega arith) in
      let u : Service = enqueue length c id now q none s in
      let one : count_active u.table ≡ count_active s.table + 1 =
        count_active-enqueue id now q none s in
      let two = count_active-enqueue id' now' q' none u in
      let still = paused-enqueue id now q none s ∙ intake in
      let b = admit-busy q' u still fits' (omega (arith, one)) in
      rw (a, a', b) (refl, refl, omega (arith, one, two), refl, refl, omega (arith, one))
