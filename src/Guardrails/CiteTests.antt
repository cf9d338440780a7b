-- ===== src/Guardrails/CiteTests.antt =====
-- An answer of two sentences, the first cited behind its full stop, and a tool's output with a
-- character that is not shown.
use atlas_gateway.Guardrails.Citation.Grounded.{check-Grounded, Grounded}
use atlas_gateway.Chat.Ports.{GuardrailContext}
use atlas_gateway.Domain.Messages.{ChatResult}
use atlas_gateway.Guardrails.Citation.{
  strip_citations, citations, is_non_factual, supported, append_remainder, after_verify, cite_last,
  after_sentence, check_cited, attach, attach_all, check_sentence, check_sentences, stripped,
  Patterns, CitationGuardrail, check_result, split_sentences,
}
use atlas_gateway.Common.{
  true, suc, none, refl, ◌=ₛ◌, All, if◌then◌else◌, some, ◌||◌, ok, ◌==◌, ◌≡◌, ℕ, [], ◌∷◌, String,
}
use atlas_gateway.Guardrails.ToolSanitize.{keep_control, kept, Unicode, strip_hidden_chars}
use Prim.Native.Char.{code}
use atlas_gateway.Guardrails.Citation as Citation

-- Texts of the test by hand: "Paris. [1]" and "Hi" are the fragments of the answer "answer".
abbrev by_hand : Patterns
by_hand = record {
  strip = λ s. s;
  split = λ s. "Paris." ∷ "[1] Hi" ∷ [];
  leading_citation = λ s. if s =ₛ "[1] Hi" then some ("[1]", "Hi") else none;
  without_citations = λ s. if s =ₛ "Paris. [1]" then "Paris." else s;
  source_ids = λ s. if s =ₛ "Paris. [1]" then "1" ∷ [] else [];
  lower = λ s. s;
  non_factual = λ s. s =ₛ "Hi";
}

sentences : split_sentences by_hand "answer" ≡ ("Paris. [1]" ∷ "Hi" ∷ [])
unfolding split_sentences stripped attach_all attach cite_last append_remainder
sentences = refl

-- The verifier knows one source, and counts its calls.
abbrev knows_one : CitationGuardrail ℕ (Unit {0})
knows_one = record {
  verifier =
      λ source_id claim n. (ok (record { exists = source_id =ₛ "1"; snippet = none }), suc n);
  require_citation = true;
}

abbrev answered : GuardrailContext
answered = record {
  tenant_id = "k";
  model = "smart";
  messages = [];
  result = some (record {
    model = "m";
    content = "answer";
    finish_reason = "stop";
    usage = record {
      input_tokens = 1;
      output_tokens = 1;
      cache_creation_input_tokens = 0;
      cache_read_input_tokens = 0;
    };
  });
}

passes_once : Citation.check by_hand knows_one answered 0 ≡ (ok answered, 1)
unfolding Citation.check check_result check_sentences check_sentence check_cited after_sentence
    after_verify supported is_non_factual citations strip_citations split_sentences stripped
    attach_all attach cite_last append_remainder
passes_once = refl

check-Grounded_example :
    (r : ChatResult) × (answered.result ≡ some r)
    × (answered ≡ answered)
    × All (Grounded by_hand knows_one.verifier) (split_sentences by_hand r.content)
check-Grounded_example = check-Grounded by_hand knows_one answered answered 0 1 refl passes_once

-- The bell is a control character.
abbrev bell_only : Unicode
bell_only = record {
  is_format_or_control = λ ch. (code ch == 7) || (code ch == 9);
  defang_roles = λ s. s;
  bracket_trigger = λ label s. s;
}

abbrev with_bell : String
with_bell = "a\u{7}b\tc"

bell_dropped : strip_hidden_chars bell_only with_bell ≡ "ab\tc"
unfolding strip_hidden_chars kept keep_control
bell_dropped = refl
