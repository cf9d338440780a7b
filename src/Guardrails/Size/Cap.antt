-- ===== src/Guardrails/Size/Cap.antt =====
-- app/guardrails/size.py: what the size check lets through.
use atlas_gateway.Common.{ℕ, ◌≤◌, String, ◌≡◌, ◌↔◌, Result, ok, arith}
use atlas_gateway.Chat.Ports.{GuardrailContext}
use atlas_gateway.Guardrails.Chain.{Failure}
use atlas_gateway.Guardrails.Size.{SizeGuardrail, init, total_chars, check}

made_with : (cap : ℕ) (g : SizeGuardrail) → init cap ≡ ok g → (g.max_chars ≡ cap) × (1 ≤ cap)
unfolding init
made_with cap g e = ground arith

module _ (show : ℕ → String) where
  -- A guardrail that was made lets a request through exactly if its texts have no more characters
  -- together than the cap, which is at least 1, and changes neither the context nor the state.
  pub check-Cap :
      {W X : Type 0} (cap : ℕ) (g : SizeGuardrail) (ctx : GuardrailContext) (w : W)
      → init cap ≡ ok g
      → (◌≡◌ {A = Result (Failure X) GuardrailContext × W} (check show g ctx w) (ok ctx, w)
          ↔ (total_chars ctx.messages ≤ cap))
        × (1 ≤ cap)
  unfolding check
  check-Cap cap g ctx w e =
      let (em, pos) = made_with cap g e in
      (((λ passed. ground arith), (λ small. ground arith)), pos)
