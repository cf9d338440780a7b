-- ===== src/Guardrails/Chain/FailFast.antt =====
-- app/guardrails/chain.py: the chain stops at the first check that raises, and counts what it ran.
use atlas_gateway.Common.{◌≡◌, refl, ap, List, [], ◌∷◌, ◌++◌, map, Result, ok, err}
use atlas_gateway.Chat.Ports.{GuardrailContext}
use atlas_gateway.Guardrails.Chain.{
  Failure, rejection, other, Guardrail, pass, block, Point, run, after_check,
}

module _ {W X : Type 0} where
  -- The increments of checks that pass.
  abbrev pub passed : Guardrail W X → Point
  passed g = record { guardrail_name = g.name; guardrail_outcome = pass }

  abbrev pub passes : List (Guardrail W X) → List Point
  passes gs = map passed gs

  abbrev pub blocks : Guardrail W X → List Point
  blocks g = record { guardrail_name = g.name; guardrail_outcome = block } ∷ []

  -- What the increments of a reply say of the checks, by its outcome.
  abbrev pub Accounts :
      List (Guardrail W X) → Result (Failure X) GuardrailContext → List Point → Type 0
  Accounts gs (ok ctx) points = points ≡ passes gs
  Accounts gs (err (rejection _ _ _)) points =
      (before : List (Guardrail W X)) × (g : Guardrail W X) × (after : List (Guardrail W X)) × (gs
        ≡ before ++ (g ∷ after))
      × (points ≡ passes before ++ blocks g)
  Accounts gs (err (other _)) points =
      (before : List (Guardrail W X)) × (after : List (Guardrail W X)) × (gs ≡ before ++ after)
      × (points ≡ passes before)

  Accounts-cons :
      (g : Guardrail W X) (gs : List (Guardrail W X)) (r : Result (Failure X) GuardrailContext)
      (points : List Point)
      → Accounts gs r points
      → Accounts (g ∷ gs) r (passed g ∷ points)
  Accounts-cons g gs (ok ctx) points e = ap (λ ps. passed g ∷ ps) e
  Accounts-cons g gs (err (rejection _ _ _)) points (before, h, after, eg, ep) =
      (g ∷ before, h, after, ap (λ x. g ∷ x) eg, ap (λ ps. passed g ∷ ps) ep)
  Accounts-cons g gs (err (other _)) points (before, after, eg, ep) =
      (g ∷ before, after, ap (λ x. g ∷ x) eg, ap (λ ps. passed g ∷ ps) ep)

  after_check-Accounts :
      (g : Guardrail W X) (gs : List (Guardrail W X)) (r : Result (Failure X) GuardrailContext)
      (w : W)
      → ((ctx : GuardrailContext) (w' : W)
          → Accounts gs (run gs ctx w').outcome (run gs ctx w').points)
      → Accounts
          (g ∷ gs)
          (after_check g.name (run gs) r w).outcome
          (after_check g.name (run gs) r w).points
  unfolding after_check
  after_check-Accounts g gs (ok ctx) w h = Accounts-cons g gs _ _ (h ctx w)
  after_check-Accounts g gs (err (rejection _ _ _)) w h = ([], g, gs, refl, refl)
  after_check-Accounts g gs (err (other _)) w h = ([], g ∷ gs, refl, refl)

  -- A chain that returns has counted a pass of every check; one that is rejected has counted a
  -- pass of the checks before one of them and a block of that; and if another exception is raised,
  -- passes of the checks before are counted. No later check is counted.
  pub run-Accounts :
      (gs : List (Guardrail W X)) (ctx : GuardrailContext) (w : W)
      → Accounts gs (run gs ctx w).outcome (run gs ctx w).points
  unfolding run
  run-Accounts [] ctx w = refl
  run-Accounts (g ∷ gs) ctx w =
      after_check-Accounts g gs (g.check ctx w).0 (g.check ctx w).1 (run-Accounts gs)
