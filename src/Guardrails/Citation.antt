-- ===== src/Guardrails/Citation.antt =====
-- app/guardrails/citation.py: every claim of an answer cites a source that supports it.
pub mod Grounded
use atlas_gateway.Domain.Messages.{ChatResult}
use atlas_gateway.Guardrails.Chain.{post, rejection, Failure, Guardrail}
use atlas_gateway.Chat.Ports.{GuardrailContext}
use atlas_gateway.Common.{
  none, some, err, ◌++◌, ok, ◌||◌, ◌∷◌, ◌=ₛ◌, Action, if◌then◌else◌, map, [], Option, Result, Bool,
  List, String, ◌++ₛ◌,
}

-- What the code takes of `re` and of the methods of texts: `split` and `strip`, the match of the
-- leading markers (their text and what follows), the text without its markers, the captured ids,
-- `lower`, and whether one of the patterns of boilerplate matches.
pub record Patterns : Type 0 where
  pub strip : String → String
  pub split : String → List String
  pub leading_citation : String → Option (String × String)
  pub without_citations : String → String
  pub source_ids : String → List String
  pub lower : String → String
  pub non_factual : String → Bool

pub record CitationCheck : Type 0 where
  pub exists : Bool
  pub snippet : Option String

-- `CitationVerifier`: `verify(source_id, claim)`.
abbrev pub CitationVerifier : Type 0 → Type 0 → Type 0
CitationVerifier W X = String → String → Action W (Failure X) CitationCheck

pub record CitationGuardrail (W X : Type 0) : Type 0 where
  pub verifier : CitationVerifier W X
  pub require_citation : Bool

unfoldable pub reject : {X : Type 0} → String → Failure X
reject reason = rejection "citation" post reason

-- `[s.strip() for s in … if s.strip()]`.
unfoldable pub stripped : (String → String) → List String → List String
stripped strip [] = []
stripped strip (s ∷ ss) =
    let rest = stripped strip ss in if strip s =ₛ "" then rest else strip s ∷ rest

-- `sentences[-1] = f"{sentences[-1]} {marker}"`.
unfoldable pub cite_last : List String → String → List String
cite_last [] marker = []
cite_last (s ∷ []) marker = (s ++ₛ (" " ++ₛ marker)) ∷ []
cite_last (s ∷ t ∷ ss) marker = s ∷ cite_last (t ∷ ss) marker

-- `if remainder: sentences.append(remainder)`.
unfoldable pub append_remainder : List String → String → List String
append_remainder sentences remainder =
    if remainder =ₛ "" then sentences else sentences ++ (remainder ∷ [])

module _ (re : Patterns) where
  -- The body of the loop over the fragments, from the sentences so far.
  unfoldable pub attach : List String → String → Option (String × String) → List String
  unfolding cite_last append_remainder
  attach [] fragment found = fragment ∷ []
  attach (s ∷ ss) fragment none = (s ∷ ss) ++ (fragment ∷ [])
  attach (s ∷ ss) fragment (some (marker, after)) =
      append_remainder (cite_last (s ∷ ss) (re.strip marker)) (re.strip after)

  unfoldable pub attach_all : List String → List String → List String
  unfolding attach
  attach_all sentences [] = sentences
  attach_all sentences (fragment ∷ rest) =
      attach_all (attach sentences fragment (re.leading_citation fragment)) rest

  unfoldable pub split_sentences : String → List String
  unfolding stripped attach_all
  split_sentences text = attach_all [] (stripped re.strip (re.split (re.strip text)))

  unfoldable pub strip_citations : String → String
  strip_citations sentence = re.strip (re.without_citations sentence)

  unfoldable pub is_non_factual : String → Bool
  unfolding strip_citations
  is_non_factual sentence =
      let bare = re.lower (strip_citations sentence) in (bare =ₛ "") || re.non_factual bare

  -- `_citations`.
  unfoldable pub citations : String → List String
  citations sentence = map re.strip (re.source_ids sentence)

  module _ {W X : Type 0} where
    -- The loop of `_require_supported` after one answer; `rest` goes on with the next source.
    unfoldable pub after_verify :
        (W → Result (Failure X) (Unit {0}) × W)
        → Result (Failure X) CitationCheck
        → W
        → Result (Failure X) (Unit {0}) × W
    after_verify rest (err e) w = (err e, w)
    after_verify rest (ok result) w = if result.exists then (ok tt, w) else rest w

    -- `_require_supported`, with the claim.
    unfoldable pub supported :
        CitationVerifier W X → String → List String → W → Result (Failure X) (Unit {0}) × W
    unfolding after_verify reject
    supported verify claim [] w = (err (reject "unsupported-citation"), w)
    supported verify claim (source_id ∷ rest) w =
        let (result, w') = verify source_id claim w in
        after_verify (supported verify claim rest) result w'

    -- A sentence that is no boilerplate, with its sources.
    unfoldable pub check_cited :
        CitationGuardrail W X → String → List String → W → Result (Failure X) (Unit {0}) × W
    unfolding supported reject strip_citations
    check_cited g sentence [] w =
        (if g.require_citation then err (reject "uncited-claim") else ok tt, w)
    check_cited g sentence (source_id ∷ rest) w =
        supported g.verifier (strip_citations sentence) (source_id ∷ rest) w

    unfoldable pub check_sentence :
        CitationGuardrail W X → String → W → Result (Failure X) (Unit {0}) × W
    unfolding is_non_factual citations check_cited
    check_sentence g sentence w =
        if is_non_factual sentence
        then (ok tt, w)
        else check_cited g sentence (citations sentence) w

    -- The loop of `check` after one sentence; `rest` goes on with the next.
    unfoldable pub after_sentence :
        (W → Result (Failure X) GuardrailContext × W)
        → Result (Failure X) (Unit {0})
        → W
        → Result (Failure X) GuardrailContext × W
    after_sentence rest (err e) w = (err e, w)
    after_sentence rest (ok passed) w = rest w

    unfoldable pub check_sentences :
        CitationGuardrail W X
        → GuardrailContext
        → List String
        → W
        → Result (Failure X) GuardrailContext × W
    unfolding after_sentence check_sentence
    check_sentences g ctx [] w = (ok ctx, w)
    check_sentences g ctx (sentence ∷ rest) w =
        let (passed, w') = check_sentence g sentence w in
        after_sentence (check_sentences g ctx rest) passed w'

    unfoldable pub check_result :
        CitationGuardrail W X
        → GuardrailContext
        → Option ChatResult
        → W
        → Result (Failure X) GuardrailContext × W
    unfolding check_sentences split_sentences reject
    check_result g ctx none w =
        (err (reject "no provider result to screen (post-phase guardrail)"), w)
    check_result g ctx (some r) w = check_sentences g ctx (split_sentences r.content) w

    unfoldable pub check :
        CitationGuardrail W X → GuardrailContext → W → Result (Failure X) GuardrailContext × W
    unfolding check_result
    check g ctx w = check_result g ctx ctx.result w

    -- The check as a member of a chain.
    abbrev pub citation : CitationGuardrail W X → Guardrail W X
    citation g = record { name = "citation"; check = check g }
