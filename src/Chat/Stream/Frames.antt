-- ===== src/Chat/Stream/Frames.antt =====
-- app/services/chat_service.py: the admission of a streamed completion, and what its frames say.
use atlas_gateway.Common.{
  sym, append-empty, inr, empty-append, inl, ℕ, ◌≡◌, String, ◌++ₛ◌, refl, ap, ◌∙◌, Bool, true,
  false, Option, none, some, List, [], ◌∷◌, All, Bool-cases, arith,
}
use atlas_gateway.Domain.Messages.{Message, StreamDelta}
use atlas_gateway.Domain.Openai.{ChatCompletionRequest, ChunkChoice}
use atlas_gateway.Chat.Ports.{Provider}
use atlas_gateway.Chat.Service.{ChatService}
use atlas_gateway.Chat.Service.Order.{Rising, Between-bind, resolve-Between, pre_checks-Between}
use atlas_gateway.Chat.Stream.{
  role_chunk, Frame, chunk, done, is_final, delta_chunk, delta_frames, stream_frames, stream,
}

-- The text that a client puts together from the frames.
abbrev pub text_or_empty : Option String → String
text_or_empty none = ""
text_or_empty (some t) = t

abbrev pub choices_text : List ChunkChoice → String
choices_text [] = ""
choices_text (c ∷ cs) = text_or_empty c.delta.content ++ₛ choices_text cs

abbrev pub transcript : List Frame → String
transcript [] = ""
transcript (done ∷ fs) = transcript fs
transcript (chunk c ∷ fs) = choices_text c.choices ++ₛ transcript fs

-- The text that the provider has said.
abbrev pub said : List StreamDelta → String
said [] = ""
said (d ∷ ds) = d.content ++ₛ said ds

-- A delta that ends the answer carries no text, as its documentation states.
abbrev pub IsBare : StreamDelta → Type 0
IsBare d = is_final d ≡ true → d.content ≡ ""

-- The last frame is the end mark, and no other one is.
abbrev pub is_finished : List Frame → Bool
is_finished [] = false
is_finished (done ∷ []) = true
is_finished (done ∷ f ∷ fs) = false
is_finished (chunk c ∷ fs) = is_finished fs

abbrev pub ends_well : {E : Type 0} → Option E → Bool
ends_well none = true
ends_well (some _) = false

delta_text :
    (id : String) (created : ℕ) (model : String) (d : StreamDelta)
    → IsBare d
    → choices_text (delta_chunk id created model d).choices ≡ d.content
unfolding delta_chunk
delta_text id created model d h = elim (Bool-cases (is_final d)) [
  | inl e ↦ rw e (empty-append "" ∙ sym (h e))
  | inr e ↦ rw e (append-empty d.content)
]

delta_frames_lem :
    {E : Type 0} (id : String) (created : ℕ) (model : String) (ds : List StreamDelta)
    (end : Option E)
    → All IsBare ds
    → (transcript (delta_frames id created model ds end) ≡ said ds)
      × (is_finished (delta_frames id created model ds end) ≡ ends_well end)
unfolding delta_frames
delta_frames_lem id created model [] none h = (refl, refl)
delta_frames_lem id created model [] (some e) h = (refl, refl)
delta_frames_lem id created model (d ∷ ds) end (bare, h) =
    let (text, finished) = delta_frames_lem id created model ds end h in
    (
      ap (λ t. t ++ₛ transcript (delta_frames id created model ds end))
            (delta_text id created model d bare)
          ∙ ap (λ t. d.content ++ₛ t) text,
      finished,
    )

module _ {W E : Type 0} (s : ChatService W E) where
  -- If the deltas that end an answer carry no text, the texts of the frames put together are what
  -- the provider has said, and the frames end with their only end mark exactly if the provider's
  -- stream has not raised.
  pub stream_says :
      (req : ChatCompletionRequest) (p : Provider W E) (ms : List Message) (w : W)
      → All IsBare (p.chat_stream req.model ms req.max_tokens req.temperature w).0.0
      → (transcript (stream_frames s req p ms w).0.frames
          ≡ said (p.chat_stream req.model ms req.max_tokens req.temperature w).0.0)
        × (is_finished (stream_frames s req p ms w).0.frames
            ≡ ends_well (stream_frames s req p ms w).0.cut_off)
  unfolding stream_frames role_chunk
  stream_says req p ms w bare =
      let (text, finished) = delta_frames_lem _ _ _ _ _ bare in (empty-append _ ∙ text, finished)

  -- Before the first frame a stream makes calls of the rate limiter, the budget, the pre-guardrails
  -- and the prompt registry alone, in this order and each once at most: it calls no router, breaker,
  -- cache or recorder.
  pub stream_in_order :
      (req : ChatCompletionRequest) (key : String) (w : W) → Rising 0 (stream s req key w).calls 4
  unfolding stream
  stream_in_order req key =
      Between-bind 0 0 4 _ _ (omega arith) (resolve-Between s 0 req.model) (λ p.
        Between-bind 0 4 4 _ _ (omega arith) (pre_checks-Between s req _ key) (λ _ w. omega arith))
