-- ===== src/Guardrails/Injection/Screen.antt =====
-- app/guardrails/injection.py: what the screen lets through, and the label it names.
use mathlib.Core.Logic.Iff
use atlas_gateway.Guardrails.Chain.{Failure}
use atlas_gateway.Domain.Messages.{Message}
use atlas_gateway.Chat.Ports.{GuardrailContext}
use atlas_gateway.Guardrails.First.{first_some-Any, map-Any, first_of_pair, first_some}
use atlas_gateway.Guardrails.Injection.{decide, labels, hit_in, hit, check, matched_label}
use atlas_gateway.Common.{
  Any, true, some, Option, refl, ok, [], ◌∷◌, arith, Result, false, none, ◌≡◌, List, Bool, String,
  All, ◌↔◌,
}

module _ (search : String → String → Bool) where
  -- No pattern matches in any of the messages.
  unfoldable pub AllUnmatched : List Message → Type 0
  AllUnmatched messages =
      All (λ message. All (λ label. search label message.content ≡ false) labels) messages

  no_hits_iff :
      (text : String) (ls : List String)
      → (first_some (hit search text) ls ≡ none) ↔ All (λ label. search label text ≡ false) ls
  unfolding first_some hit
  no_hits_iff text [] = ((λ e. tt), λ a. refl)
  no_hits_iff text (l ∷ ls) = ground (arith, no_hits_iff text ls)

  pub matched_label_iff :
      (messages : List Message) → (matched_label search messages ≡ none) ↔ AllUnmatched messages
  unfolding matched_label first_some hit_in AllUnmatched
  matched_label_iff [] = ((λ e. tt), λ a. refl)
  matched_label_iff (m ∷ ms) = ground (arith, matched_label_iff ms, no_hits_iff m.content labels)

  -- The pattern of the label matches in one of the messages.
  unfoldable pub IsMatched : List Message → String → Type 0
  IsMatched messages label =
      Any (λ message. Any (λ l. (l ≡ label) × (search l message.content ≡ true)) labels) messages

  hit-some :
      (text label l : String)
      → hit search text l ≡ some label
      → (l ≡ label) × (search l text ≡ true)
  unfolding hit
  hit-some text label l e = ground arith

  pub matched_label-IsMatched :
      (messages : List Message) (label : String)
      → matched_label search messages ≡ some label
      → IsMatched messages label
  unfolding matched_label hit_in IsMatched
  matched_label-IsMatched messages label e =
      map-Any
        (λ message found.
          map-Any (hit-some message.content label) labels
            (first_some-Any (hit search message.content) labels label found))
        messages (first_some-Any (hit_in search) messages label e)

  decide_iff :
      {X : Type 0} (ctx : GuardrailContext) (found : Option String)
      → (◌≡◌ {A = Result (Failure X) GuardrailContext} (decide search ctx found) (ok ctx))
        ↔ (found ≡ none)
  unfolding decide
  decide_iff ctx none = ground arith
  decide_iff ctx (some label) = ground arith

  -- A request passes, unchanged, exactly if no pattern matches in any of its messages.
  pub check-AllUnmatched :
      {W X : Type 0} (ctx : GuardrailContext) (w : W)
      → ◌≡◌ {A = Result (Failure X) GuardrailContext × W} (check search ctx w) (ok ctx, w)
        ↔ AllUnmatched ctx.messages
  unfolding check
  check-AllUnmatched ctx w = Iff.trans (first_of_pair _ _ w) (
      Iff.trans (decide_iff ctx (matched_label search ctx.messages))
        (matched_label_iff ctx.messages))
