-- ===== src/Guardrails/Metrics.antt =====
-- app/guardrails/metrics.py: the chain whose checks have a counter of passes and of blocks each.
pub mod Agreement
use atlas_gateway.Chat.Ports.{GuardrailContext}
use atlas_gateway.Common.{[], ◌∷◌, err, ok, List, Result}
use atlas_gateway.Guardrails.Counts.{add_to, Counts}
use Prim.Native.String.{count, String}
use atlas_gateway.Guardrails.Chain.{other, rejection, Failure, GuardrailChain, Guardrail}

-- `GuardrailMetrics`: the counters of the two dicts by check, as the sums of what was added to them.
pub record GuardrailMetrics : Type 0 where
  pub passes : Counts
  pub blocks : Counts

-- A counter is made at its first use.
unfoldable pub record_pass : String → GuardrailMetrics → GuardrailMetrics
unfolding add_to
record_pass check m = record { passes = add_to check 1 m.passes; blocks = m.blocks }

unfoldable pub record_block : String → GuardrailMetrics → GuardrailMetrics
unfolding add_to
record_block check m = record { passes = m.passes; blocks = add_to check 1 m.blocks }

-- What a run leaves: the context or the exception, the state of the checks and the counters.
abbrev pub Metered : Type 0 → Type 0 → Type 0
Metered W X = Result (Failure X) GuardrailContext × (W × GuardrailMetrics)

module _ {W X : Type 0} where
  -- One iteration of `_run` after the check; `rest` are the checks that remain.
  unfoldable pub after_check :
      String
      → (GuardrailContext → W → GuardrailMetrics → Metered W X)
      → Result (Failure X) GuardrailContext
      → W
      → GuardrailMetrics
      → Metered W X
  unfolding record_pass record_block
  after_check name rest (ok ctx) w m = rest ctx w (record_pass name m)
  after_check name rest (err (rejection g p why)) w m =
      (err (rejection g p why), (w, record_block name m))
  after_check name rest (err (other x)) w m = (err (other x), (w, m))

  unfoldable pub run : List (Guardrail W X) → GuardrailContext → W → GuardrailMetrics → Metered W X
  unfolding after_check
  run [] ctx w m = (ok ctx, (w, m))
  run (g ∷ gs) ctx w m = let (r, w') = g.check ctx w in after_check g.name (run gs) r w' m

  unfoldable pub run_pre :
      GuardrailChain W X → GuardrailContext → W → GuardrailMetrics → Metered W X
  unfolding run
  run_pre chain ctx w m = run chain.pre_checks ctx w m

  unfoldable pub run_post :
      GuardrailChain W X → GuardrailContext → W → GuardrailMetrics → Metered W X
  unfolding run
  run_post chain ctx w m = run chain.post_checks ctx w m
