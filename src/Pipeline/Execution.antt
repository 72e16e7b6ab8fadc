-- ===== src/Pipeline/Execution.antt =====
-- Runs of a pipeline (pipeline.rs) as a relation.
use dhcp_relay_agent.Common.{
  Bool, true, false, List, [], ◌∷◌, ◌++◌, ◌≡◌, ◌↔◌, refl, ap, subst, ◌∙◌, ok, err, arith,
}
use dhcp_relay_agent.Error.{RelayError, RelayResult}
use dhcp_relay_agent.Pipeline.{Flow, Stage, Pipeline, halted, execute_stages, execute}

-- How the stages of a pipeline may go: all pass, one halts the packet, or one fails.
pub data Runs : List Stage → Flow → RelayResult Bool → Flow → Type 0 where
  passed : {f : Flow} → Runs [] f (ok true) f
  pass :
      {s : Stage} {ss : List Stage} {f g h : Flow} {r : RelayResult Bool}
      → s.process f ≡ (ok true, g)
      → Runs ss g r h
      → Runs (s ∷ ss) f r h
  halt :
      {s : Stage} {ss : List Stage} {f g : Flow}
      → s.process f ≡ (ok false, g)
      → Runs (s ∷ ss) f (ok false) (record g { log = g.log ++ halted s.name ∷ [] })
  fail :
      {s : Stage} {ss : List Stage} {f g : Flow} {e : RelayError}
      → s.process f ≡ (err e, g)
      → Runs (s ∷ ss) f (err e) g

-- What `execute_stages` does with the first stage's outcome.
abbrev pub after : Stage → List Stage → RelayResult Bool × Flow → RelayResult Bool × Flow
after s ss (ok true, g) = execute_stages ss g
after s ss (ok false, g) = (ok false, record g { log = g.log ++ halted s.name ∷ [] })
after s ss (err e, g) = (err e, g)

pub execute_stages-cons :
    (s : Stage) (ss : List Stage) (f : Flow) → execute_stages (s ∷ ss) f ≡ after s ss (s.process f)
unfolding execute_stages
execute_stages-cons s ss f = ground arith

-- A stage that lets the packet pass.
pub execute_stages-pass :
    (s : Stage) (ss : List Stage) (f g : Flow)
    → s.process f ≡ (ok true, g)
    → execute_stages (s ∷ ss) f ≡ execute_stages ss g
execute_stages-pass s ss f g e = execute_stages-cons s ss f ∙ ap (after s ss) e

first_stage :
    (s : Stage) (ss : List Stage) (f : Flow) (x : RelayResult Bool × Flow)
    → s.process f ≡ x
    → ((g : Flow) → Runs ss g (execute_stages ss g).0 (execute_stages ss g).1)
    → Runs (s ∷ ss) f (after s ss x).0 (after s ss x).1
first_stage s ss f (ok true, g) e ih = pass e (ih g)
first_stage s ss f (ok false, g) e ih = halt e
first_stage s ss f (err x, g) e ih = fail e

execute_stages-Runs :
    (ss : List Stage) (f : Flow) → Runs ss f (execute_stages ss f).0 (execute_stages ss f).1
execute_stages-Runs [] f = unfold execute_stages in passed
execute_stages-Runs (s ∷ ss) f =
    rw (execute_stages-cons s ss f) (first_stage s ss f (s.process f) refl (execute_stages-Runs ss))

Runs-execute_stages :
    {ss : List Stage} {f g : Flow} {r : RelayResult Bool}
    → Runs ss f r g
    → execute_stages ss f ≡ (r, g)
Runs-execute_stages passed = unfold execute_stages in refl
Runs-execute_stages (pass {s} {ss} {f} e rest) =
    execute_stages-cons s ss f ∙ ap (after s ss) e ∙ Runs-execute_stages rest
Runs-execute_stages (halt {s} {ss} {f} e) = execute_stages-cons s ss f ∙ ap (after s ss) e
Runs-execute_stages (fail {s} {ss} {f} e) = execute_stages-cons s ss f ∙ ap (after s ss) e

-- Executing a pipeline has a result and leaves a context exactly as the relation says: the stages
-- run in order, each on what the one before it left, until one returns false, which is logged and
-- makes the result false, or fails, which is the result; if all return true, so does the pipeline.
pub execute_iff :
    (p : Pipeline) (f g : Flow) (r : RelayResult Bool)
    → (execute p f ≡ (r, g)) ↔ Runs p.stages f r g
unfolding execute
execute_iff p f g r = (
  λ e. subst (λ x. Runs p.stages f x.0 x.1) e (execute_stages-Runs p.stages f),
  Runs-execute_stages,
)
