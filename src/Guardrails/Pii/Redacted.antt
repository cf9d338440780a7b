-- ===== src/Guardrails/Pii/Redacted.antt =====
-- app/guardrails/pii.py: what a request's messages are after the check, and when it rejects.
use atlas_gateway.Guardrails.Chain.{Failure}
use atlas_gateway.Chat.Ports.{GuardrailContext}
use atlas_gateway.Domain.Messages.{Message}
use atlas_gateway.Guardrails.Pii.{
  scan_with, decide, with_messages, reject, redact, redact_text, with_text, placeholder, check,
  categories, scan, redact_with, counted, add_all,
}
use atlas_gateway.Guardrails.Counts.{Counts, add_to}
use atlas_gateway.Common.{
  ok, ◌∙◌, sym, subst, ap, refl, arith, Result, map, ◌∷◌, [], List, ◌≢◌, ◌≡◌, ℕ, String, All, ◌↔◌,
}

add_to_ne : (key : String) (n : ℕ) (d : Counts) → add_to key n d ≢ []
unfolding add_to
add_to_ne key n [] e = cc
add_to_ne key n ((k, m) ∷ rest) e = ground arith

counted_iff :
    (category : String) (n : ℕ) (d : Counts) → (counted category n d ≡ []) ↔ ((n ≡ 0) × (d ≡ []))
unfolding counted
counted_iff category n d = ground (arith, add_to_ne category n d)

add_all_iff :
    (counts totals : Counts) → (add_all counts totals ≡ []) ↔ ((counts ≡ []) × (totals ≡ []))
unfolding add_all
add_all_iff [] totals = ground arith
add_all_iff ((category, n) ∷ rest) totals =
    ground (arith, add_all_iff rest (add_to category n totals), add_to_ne category n totals)

-- The documentation of `subn`: a text in which nothing is replaced is returned as it is.
unfoldable pub LeavesUnmatched : (String → String → String → String × ℕ) → Type 0
LeavesUnmatched subn =
    (category place text : String)
    → (subn category place text).1 ≡ 0
    → (subn category place text).0 ≡ text

module _ (redact_text : String → String × Counts) (Clean : String → Type 0) where
  scan_from_iff :
      ((text : String) → ((redact_text text).1 ≡ []) ↔ Clean text)
      → (messages : List Message) (d : Counts)
      → ((scan_with redact_text messages d).1 ≡ [])
        ↔ (All (λ message. Clean message.content) messages × (d ≡ []))
  unfolding scan_with
  scan_from_iff this [] d = ((λ e. (tt, e)), λ (_, e). e)
  scan_from_iff this (message ∷ messages) d =
      let counts = (redact_text message.content).1 in
      let later = scan_from_iff this messages (add_all counts d) in
      let both = add_all_iff counts d in
      (
        λ e.
            let (clean, empty) = later.0 e in
            let (no_counts, no_totals) = both.0 empty in
            (((this message.content).0 no_counts, clean), no_totals),
        λ ((clean, rest), empty). later.1 (rest, both.1 ((this message.content).1 clean, empty)),
      )

  -- A scan counts nothing exactly if each text is one that its step counts nothing in.
  pub scan_with_iff :
      ((text : String) → ((redact_text text).1 ≡ []) ↔ Clean text)
      → (messages : List Message)
      → ((scan_with redact_text messages []).1 ≡ [])
        ↔ All (λ message. Clean message.content) messages
  scan_with_iff this messages =
      let whole = scan_from_iff this messages [] in
      ((λ e. (whole.0 e).0), λ all. whole.1 (all, refl))

module _ (subn : String → String → String → String × ℕ) where
  -- None of the patterns of the categories matches in the text.
  unfoldable pub IsClean : (String → String) → List String → String → Type 0
  IsClean place cats text = All (λ category. (subn category (place category) text).1 ≡ 0) cats

  -- The text after one pattern.
  abbrev pub replaced : (String → String) → String → String → String
  replaced place category text = (subn category (place category) text).0

  pub redact_with-IsClean :
      LeavesUnmatched subn
      → (place : String → String) (cats : List String) (text : String) (d : Counts)
      → ((redact_with subn place cats text d).1 ≡ []) ↔ (IsClean place cats text × (d ≡ []))
  unfolding redact_with IsClean LeavesUnmatched
  redact_with-IsClean quiet place [] text d = ((λ e. (tt, e)), λ (_, e). e)
  redact_with-IsClean quiet place (category ∷ rest) text d =
      let n = (subn category (place category) text).1 in
      let later =
        redact_with-IsClean quiet place rest (replaced place category text)
          (counted category n d) in
      let first = counted_iff category n d in
      (
        λ e.
            let (clean, none_yet) = later.0 e in
            let (zero_n, empty) = first.0 none_yet in
            (
              (
                zero_n,
                subst (IsClean place rest) (quiet category (place category) text zero_n) clean,
              ),
              empty,
            ),
        λ ((zero_n, clean), empty). later.1 (
          subst (IsClean place rest) (sym (quiet category (place category) text zero_n)) clean,
          first.1 (zero_n, empty),
        ),
      )

  redact_with_same :
      LeavesUnmatched subn
      → (place : String → String) (cats : List String) (text : String) (d : Counts)
      → IsClean place cats text
      → (redact_with subn place cats text d).0 ≡ text
  unfolding redact_with IsClean LeavesUnmatched
  redact_with_same quiet place [] text d clean = refl
  redact_with_same quiet place (category ∷ rest) text d (z, clean) =
      let same = quiet category (place category) text z in
      redact_with_same quiet place rest (replaced place category text)
        (counted category (subn category (place category) text).1 d)
        (subst (IsClean place rest) (sym same) clean)
      ∙ same

  pub no_counts_iff :
      LeavesUnmatched subn
      → (place : String → String) (cats : List String) (text : String)
      → ((redact_with subn place cats text []).1 ≡ []) ↔ IsClean place cats text
  no_counts_iff quiet place cats text =
      let this = redact_with-IsClean quiet place cats text [] in
      ((λ e. (this.0 e).0), λ clean. this.1 (clean, refl))

  -- A message after all patterns.
  unfoldable pub redacted : Message → Message
  redacted message = with_text message (
      replaced placeholder "PHONE" (
        replaced placeholder "SSN"
          (replaced placeholder "CREDIT_CARD" (replaced placeholder "EMAIL" message.content))))

  scan_messages :
      (messages : List Message) (d : Counts)
      → (scan_with (redact_text subn) messages d).0 ≡ map redacted messages
  unfolding scan_with redact_text redact_with categories redacted
  scan_messages [] d = refl
  scan_messages (message ∷ messages) d =
      ap (λ ms. redacted message ∷ ms)
        (scan_messages messages (add_all (redact_text subn message.content).1 d))

  -- No pattern matches in any message.
  unfoldable pub AllClean : List Message → Type 0
  unfolding IsClean categories
  AllClean messages = All (λ message. IsClean placeholder categories message.content) messages

  scan_clean :
      LeavesUnmatched subn
      → (messages : List Message) → ((scan subn messages).1 ≡ []) ↔ AllClean messages
  unfolding scan AllClean redact_text
  scan_clean quiet messages =
      scan_with_iff (redact_text subn) (λ text. IsClean placeholder categories text)
        (λ text. no_counts_iff quiet placeholder categories text) messages

  clean_same :
      LeavesUnmatched subn
      → (messages : List Message) → AllClean messages
      → map redacted messages ≡ messages
  unfolding AllClean redacted redact_with categories
  clean_same quiet [] clean = refl
  clean_same quiet (message ∷ messages) (clean, rest) =
      ap (λ text. with_text message text ∷ map redacted messages)
        (redact_with_same quiet placeholder categories message.content [] clean)
      ∙ ap (λ ms. message ∷ ms) (clean_same quiet messages rest)

  redact_mode :
      {X : Type 0} (show : ℕ → String) (ctx : GuardrailContext) (messages : List Message)
      (counts : Counts)
      → (counts ≡ [] → messages ≡ ctx.messages)
      → ◌≡◌ {A = Result (Failure X) GuardrailContext}
          (decide subn show redact ctx (messages, counts))
          (ok (with_messages ctx messages))
  unfolding decide
  redact_mode show ctx messages [] same = ap (λ ms. ok (with_messages ctx ms)) (sym (same refl))
  redact_mode show ctx messages (c ∷ counts) same = refl

  reject_mode_iff :
      {X : Type 0} (show : ℕ → String) (ctx : GuardrailContext) (messages : List Message)
      (counts : Counts)
      → ◌≡◌ {A = Result (Failure X) GuardrailContext}
          (decide subn show reject ctx (messages, counts))
          (ok ctx)
        ↔ (counts ≡ [])
  unfolding decide
  reject_mode_iff show ctx messages [] = ((λ e. refl), λ e. refl)
  reject_mode_iff show ctx messages (c ∷ counts) = ground arith

  -- In the mode that redacts, every request passes, and nothing of it changes but the texts of its
  -- messages: each is what the four patterns, one after the other, make of it, if `subn` returns a
  -- text without a match as it is.
  pub check-redacted :
      {W X : Type 0} (show : ℕ → String) (ctx : GuardrailContext) (w : W)
      → LeavesUnmatched subn
      → ◌≡◌ {A = Result (Failure X) GuardrailContext × W}
          (check subn show redact ctx w)
          (ok (with_messages ctx (map redacted ctx.messages)), w)
  unfolding check scan
  check-redacted show ctx w quiet =
      let p = scan subn ctx.messages in
      ap (λ o. (o, w))
        (redact_mode show ctx p.0 p.1 (λ none_found.
          scan_messages ctx.messages []
          ∙ clean_same quiet ctx.messages ((scan_clean quiet ctx.messages).0 none_found)))
      ∙ ap (λ ms. (ok (with_messages ctx ms), w)) (scan_messages ctx.messages [])

  -- In the mode that rejects, a request passes, unchanged, exactly if no pattern matches in any of
  -- its messages, if `subn` returns a text without a match as it is.
  pub check-AllClean :
      {W X : Type 0} (show : ℕ → String) (ctx : GuardrailContext) (w : W)
      → LeavesUnmatched subn
      → ◌≡◌ {A = Result (Failure X) GuardrailContext × W} (check subn show reject ctx w) (ok ctx, w)
        ↔ AllClean ctx.messages
  unfolding check
  check-AllClean {W = W} {X = X} show ctx w quiet =
      let p = scan subn ctx.messages in
      let kept = reject_mode_iff show ctx p.0 p.1 in
      let clean = scan_clean quiet ctx.messages in
      (
        λ e. clean.0 (kept.0 (ap (λ (x : Result (Failure X) GuardrailContext × W). x.0) e)),
        λ all. ap (λ o. (o, w)) (kept.1 (clean.1 all)),
      )
