-- ===== src/Heart/Intervene/Dispatch.antt =====
-- The handlers that `build_tick_loop` of src/ansina/heart/tick/loop.py composes, without fault
-- injection, and a run of ticks over them.
use ansina.Prelude.{ℕ, String, Option, List, [], ◌∷◌, ◌++◌, Bool, if◌then◌else◌}
use ansina.Heart.Decision.{TickDecision}
use ansina.Heart.Snapshot.{TickPrompt}
use ansina.Heart.Journal.{JournalEntry}
use ansina.Heart.Escalation.{
  BrainStream, HandlerError, JournalSettings, Draw, journal_decision, escalate_decision, Handler,
  composite,
}
use ansina.Opencode.Service.{OpencodeSettings}
use ansina.Opencode.Policy.{PolicySettings}
use ansina.Heart.Intervene.{World, PolicyDraw, journaled, intervene}

-- What one completed tick hands to its handlers, and what they draw.
pub record TickCall : Type 0 where
  pub decision : TickDecision
  pub prompt : TickPrompt
  pub tick_number : ℕ
  pub duration : ℕ
  pub journal_draw : Draw
  pub brain_draw : Draw
  pub policy_draw : PolicyDraw
  pub intervention_draw : Draw

-- A handler that writes to the journal alone.
abbrev pub on_journal : Handler (List JournalEntry) → Handler World
on_journal h decision prompt tick_number duration w =
    journaled w (h decision prompt tick_number duration w.journal)

module _ (length : String → ℕ) (hex : ℕ → List ℕ) (c : JournalSettings) (o : OpencodeSettings)
    (p : PolicySettings) (brain : Option (String → BrainStream)) (escalation_enabled : Bool) where
  abbrev pub handlers : Bool → TickCall → List (Handler World)
  handlers interventions_enabled t =
      on_journal (journal_decision c t.journal_draw)
      ∷ ((if escalation_enabled
            then on_journal (escalate_decision c brain t.brain_draw) ∷ []
            else [])
          ++ (if interventions_enabled
              then intervene length hex c o p brain escalation_enabled t.policy_draw
                  t.intervention_draw
                ∷ []
              else []))

  -- The handlers that `build_tick_loop` composes, without fault injection, on one tick.
  unfoldable pub dispatch : Bool → TickCall → World → World × Option HandlerError
  unfolding composite journal_decision escalate_decision intervene
  dispatch interventions_enabled t =
      composite (handlers interventions_enabled t) t.decision t.prompt t.tick_number t.duration

  -- A run of ticks; `TickLoop.run` swallows what a handler raises.
  unfoldable pub dispatch_all : Bool → List TickCall → World → World
  unfolding dispatch
  dispatch_all interventions_enabled [] w = w
  dispatch_all interventions_enabled (t ∷ ts) w =
      dispatch_all interventions_enabled ts (dispatch interventions_enabled t w).0
