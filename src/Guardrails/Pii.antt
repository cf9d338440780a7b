-- ===== src/Guardrails/Pii.antt =====
-- app/guardrails/pii.py: the redaction of personal data by patterns, or the rejection.
pub mod Redacted
use Prim.Native.Nat.{Ordering}
use Prim.Native.String.{compare as compare_texts}
use atlas_gateway.Guardrails.Chain.{pre, rejection, Failure, Guardrail}
use atlas_gateway.Domain.Messages.{Message}
use atlas_gateway.Chat.Ports.{GuardrailContext}
use atlas_gateway.Guardrails.Counts.{Counts, add_to}
use atlas_gateway.Common.{
  true, false, Bool, err, ok, ◌==◌, if◌then◌else◌, [], ◌∷◌, Result, String, ℕ, List, ◌+◌, ◌++ₛ◌,
}

pub data PiiMode : Type 0 where
  redact reject : PiiMode

-- The categories of `_PATTERNS`, in their order.
unfoldable pub categories : List String
categories = "EMAIL" ∷ "CREDIT_CARD" ∷ "SSN" ∷ "PHONE" ∷ []

unfoldable pub placeholder : String → String
placeholder category = "[REDACTED_" ++ₛ (category ++ₛ "]")

unfoldable pub text_leb : String → String → Bool
text_leb s t = elim (compare_texts s t) [ Ordering.gt ↦ false | _ ↦ true ]

-- `sorted` on the keys of a dict: each entry is put before the first that is not smaller.
unfoldable pub insert : String × ℕ → Counts → Counts
unfolding text_leb
insert x [] = x ∷ []
insert x (y ∷ ys) = let rest = insert x ys in if text_leb x.0 y.0 then x ∷ y ∷ ys else y ∷ rest

unfoldable pub sorted : Counts → Counts
unfolding insert
sorted [] = []
sorted (x ∷ xs) = insert x (sorted xs)

-- `message.model_copy(update={"content": text})`.
abbrev pub with_text : Message → String → Message
with_text message text = record { role = message.role; content = text }

-- `ctx.messages = messages`.
abbrev pub with_messages : GuardrailContext → List Message → GuardrailContext
with_messages ctx messages = record {
  tenant_id = ctx.tenant_id;
  model = ctx.model;
  messages = messages;
  result = ctx.result;
}

unfoldable pub entries : (ℕ → String) → Counts → String
entries show [] = ""
entries show ((category, n) ∷ []) = category ++ₛ ("=" ++ₛ show n)
entries show ((category, n) ∷ rest) =
    category ++ₛ ("=" ++ₛ (show n ++ₛ (", " ++ₛ entries show rest)))

unfoldable pub summary : (ℕ → String) → Counts → String
unfolding entries sorted
summary show counts = entries show (sorted counts)

-- `if n: counts[category] = counts.get(category, 0) + n`.
unfoldable pub counted : String → ℕ → Counts → Counts
unfolding add_to
counted category n counts = if n == 0 then counts else add_to category n counts

-- The loop over the items of one message's counts.
unfoldable pub add_all : Counts → Counts → Counts
unfolding add_to
add_all [] totals = totals
add_all ((category, n) ∷ rest) totals = add_all rest (add_to category n totals)

-- The loop of `_scan`, with the totals so far.
unfoldable pub scan_with :
    (String → String × Counts) → List Message → Counts → List Message × Counts
unfolding add_all
scan_with redact_text [] totals = ([], totals)
scan_with redact_text (message ∷ messages) totals =
    let (redacted, counts) = redact_text message.content in
    let (out, totals') = scan_with redact_text messages (add_all counts totals) in
    (with_text message redacted ∷ out, totals')

-- `subn category placeholder text` is `pattern.subn` of the category's pattern.
module _ (subn : String → String → String → String × ℕ) where
  -- The loop of `_redact_text`, with the text that stands for a category.
  unfoldable pub redact_with :
      (place : String → String) → List String → String → Counts → String × Counts
  unfolding counted
  redact_with place [] redacted counts = (redacted, counts)
  redact_with place (category ∷ rest) redacted counts =
      let (redacted', n) = subn category (place category) redacted in
      redact_with place rest redacted' (counted category n counts)

  unfoldable pub redact_text : String → String × Counts
  unfolding redact_with categories placeholder
  redact_text text = redact_with placeholder categories text []

  unfoldable pub scan : List Message → List Message × Counts
  unfolding redact_text scan_with
  scan messages = scan_with redact_text messages []

  -- `check` after the scan; `show` is the decimal text of a number.
  unfoldable pub decide :
      {X : Type 0}
      → (ℕ → String)
      → PiiMode
      → GuardrailContext
      → List Message × Counts
      → Result (Failure X) GuardrailContext
  unfolding summary
  decide show mode ctx (messages, []) = ok ctx
  decide show reject ctx (messages, c ∷ counts) =
      err (rejection "pii" pre ("PII detected: " ++ₛ summary show (c ∷ counts)))
  decide show redact ctx (messages, c ∷ counts) = ok (with_messages ctx messages)

  unfoldable pub check :
      {W X : Type 0}
      → (ℕ → String)
      → PiiMode
      → GuardrailContext
      → W
      → Result (Failure X) GuardrailContext × W
  unfolding decide scan
  check show mode ctx w = (decide show mode ctx (scan ctx.messages), w)

  -- The check as a member of a chain.
  abbrev pub pii : {W X : Type 0} → (ℕ → String) → PiiMode → Guardrail W X
  pii show mode = record { name = "pii"; check = check show mode }
