-- ===== src/Guardrails/Chain.antt =====
-- app/guardrails/chain.py: the ordered runner of the checks, and what it counts of them.
pub mod FailFast
use atlas_gateway.Common.{String, Bool, Option, List, [], ◌∷◌, ◌++◌, Result, ok, err}
use atlas_gateway.Chat.Ports.{GuardrailContext}

pub data GuardrailPhase : Type 0 where
  pre post : GuardrailPhase

-- What a check raises: `GuardrailRejection`, or another exception `X`.
pub data Failure (X : Type 0) : Type 0 where
  rejection : (guardrail : String) (phase : GuardrailPhase) (reason : String) → Failure X
  other : X → Failure X

-- `Guardrail`: a check may rewrite the context, and keep a state of its own in `W`.
pub record Guardrail (W X : Type 0) : Type 0 where
  pub name : String
  pub check : GuardrailContext → W → Result (Failure X) GuardrailContext × W

pub data Verdict : Type 0 where
  pass block : Verdict

-- An increment of `atlas.guardrail.checks`, with its attributes.
pub record Point : Type 0 where
  pub guardrail_name : String
  pub guardrail_outcome : Verdict

pub record GuardrailChain (W X : Type 0) : Type 0 where
  pub pre_checks : List (Guardrail W X)
  pub post_checks : List (Guardrail W X)

-- The context or the exception, the state of the checks, and the increments in their order.
pub record Reply (W X : Type 0) : Type 0 where
  pub outcome : Result (Failure X) GuardrailContext
  pub world : W
  pub points : List Point

-- An increment before those of the rest.
abbrev pub counted : {W X : Type 0} → Point → Reply W X → Reply W X
counted p r = record { outcome = r.outcome; world = r.world; points = p ∷ r.points }

module _ {W X : Type 0} where
  -- One iteration of `_run` after the check; `rest` are the checks that remain.
  unfoldable pub after_check :
      String
      → (GuardrailContext → W → Reply W X)
      → Result (Failure X) GuardrailContext
      → W
      → Reply W X
  after_check name rest (ok ctx) w =
      counted (record { guardrail_name = name; guardrail_outcome = pass }) (rest ctx w)
  after_check name rest (err (rejection g p why)) w = record {
    outcome = err (rejection g p why);
    world = w;
    points = record { guardrail_name = name; guardrail_outcome = block } ∷ [];
  }
  after_check name rest (err (other x)) w = record {
    outcome = err (other x);
    world = w;
    points = [];
  }

  -- `_run`.
  unfoldable pub run : List (Guardrail W X) → GuardrailContext → W → Reply W X
  unfolding after_check
  run [] ctx w = record { outcome = ok ctx; world = w; points = [] }
  run (g ∷ gs) ctx w = let (r, w') = g.check ctx w in after_check g.name (run gs) r w'

  unfoldable pub run_pre : GuardrailChain W X → GuardrailContext → W → Reply W X
  unfolding run
  run_pre chain ctx w = run chain.pre_checks ctx w

  unfoldable pub run_post : GuardrailChain W X → GuardrailContext → W → Reply W X
  unfolding run
  run_post chain ctx w = run chain.post_checks ctx w
