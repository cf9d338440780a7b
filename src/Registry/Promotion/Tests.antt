-- ===== src/Registry/Promotion/Tests.antt =====
-- Two prompts in the table in memory.
use atlas_gateway.Common.{
  ◌∙◌, =ₛ_iff, sym, String, ◌≡◌, refl, Bool, true, ◌||◌, some, List, [], ◌∷◌, arith, ◌=ₛ◌, ok, err,
}
use atlas_gateway.Registry.Promotion as Promotion
use atlas_gateway.Registry.Promotion.{
  Status, draft, candidate, production, retired, unknown_version, eval_gate_not_green,
  illegal_transition,
}
use atlas_gateway.Registry.Promotion.Table.{Table, table, status_of, prompt_of, set, find}
use atlas_gateway.Registry.Promotion.Effect.{
  Effect, Op, transition_to, promotion, retirement, rollback_to, target, perform, perform-Effect,
}
use atlas_gateway.Registry.Promotion.Pointer.{HasOnePointer, run, run-HasOnePointer}
use atlas_gateway.Registry.Promotion.Gate.{production_gated, rollback_skips_candidate}

abbrev green : String → Bool
green v = v =ₛ "v2" || v =ₛ "v3"

abbrev prompts : Table
prompts =
    record { id = "v1"; prompt_id = "greet"; status = production }
    ∷ record { id = "v2"; prompt_id = "greet"; status = candidate }
    ∷ record { id = "v3"; prompt_id = "greet"; status = draft }
    ∷ record { id = "w1"; prompt_id = "part"; status = retired }
    ∷ []

-- Only the first version is in production.
only_v1 : (w : String) → status_of prompts w ≡ some production → "v1" ≡ w
unfolding status_of
only_v1 w h = ground (arith, =ₛ_iff "v1" w, =ₛ_iff "v2" w, =ₛ_iff "v3" w, =ₛ_iff "w1" w)

prompts-HasOnePointer : HasOnePointer table green prompts
prompts-HasOnePointer = record { unique = λ p a b oa ob sa sb. sym (only_v1 a sa) ∙ only_v1 b sb }

abbrev day : List Op
day =
    promotion "v3"
    ∷ promotion "v2"
    ∷ rollback_to "greet" "v1"
    ∷ retirement "v1"
    ∷ rollback_to "part" "v3"
    ∷ []

run-HasOnePointer_example : HasOnePointer table green (run table green day prompts)
run-HasOnePointer_example = run-HasOnePointer table green day prompts prompts-HasOnePointer

perform-Effect_example :
    Effect table green "v2" prompts (perform table green (promotion "v2") prompts)
perform-Effect_example = perform-Effect table green (promotion "v2") prompts

production_gated_example : ("v2" ≡ target (promotion "v2")) × (green "v2" ≡ true)
unfolding Promotion.promote Promotion.transition Promotion.move Promotion.is_allowed
    Promotion.to_production Promotion.demote_current_production status_of prompt_of set find
production_gated_example = production_gated table green (promotion "v2") prompts "v2" (λ e. cc) refl

rollback_skips_candidate_example :
    ((perform table green (transition_to "v3" production) prompts).0
      ≡ err (illegal_transition "v3" draft production))
    × ((perform table green (transition_to "v3" production) prompts).1 ≡ prompts)
    × ((perform table green (rollback_to "part" "v3") prompts).0 ≡ ok production)
    × (status_of (perform table green (rollback_to "part" "v3") prompts).1 "v3" ≡ some production)
rollback_skips_candidate_example =
    rollback_skips_candidate table green "part" "v3" prompts (unfold status_of in refl) refl
