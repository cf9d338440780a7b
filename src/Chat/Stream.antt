-- ===== src/Chat/Stream.antt =====
-- app/services/chat_service.py: the streamed completion, and what its frames say.
pub mod Frames
use atlas_gateway.Common.{
  ◌=ₛ◌, if◌then◌else◌, ℕ, ◌+◌, String, ◌++ₛ◌, ◌≡◌, refl, sym, ap, ◌∙◌, Bool, true, false, ◌||◌,
  Option, none, some, List, [], ◌∷◌, ◌++◌, Result, ok, err, All, length, arith,
}
use atlas_gateway.Domain.Messages.{Message, Usage, StreamDelta}
use atlas_gateway.Domain.Openai.{
  CompletionUsage, ChatCompletionRequest, ChatCompletionChunk, ChoiceDelta, ChunkChoice,
}
use atlas_gateway.Chat.Run.{Call, Error, Reply, Run, return, ◌>>=◌}
use atlas_gateway.Chat.Ports.{Provider}
use atlas_gateway.Chat.Service as Service
use atlas_gateway.Chat.Service.{ChatService, usage_of}

-- A frame of the response: `data: ` and a chunk in JSON, or the mark at the end.
pub data Frame : Type 0 where
  chunk : ChatCompletionChunk → Frame
  done : Frame

-- What the client receives: the frames, and the exception that cuts them off if one does.
pub record Streamed (E : Type 0) : Type 0 where
  pub frames : List Frame
  pub cut_off : Option E

abbrev pub is_some : {A : Type 0} → Option A → Bool
is_some none = false
is_some (some _) = true

-- `delta.finish_reason is not None or delta.usage is not None`.
unfoldable pub is_final : StreamDelta → Bool
is_final d = is_some d.finish_reason || is_some d.usage

-- `delta.finish_reason or "stop"`: an empty reason is replaced as well.
unfoldable pub reason_of : Option String → String
reason_of none = "stop"
reason_of (some r) = if r =ₛ "" then "stop" else r

unfoldable pub final_usage : Option Usage → Option CompletionUsage
unfolding usage_of
final_usage none = none
final_usage (some u) = some (usage_of u)

-- A chunk with one choice.
unfoldable pub chunk_of :
    String → ℕ → String → ChoiceDelta → Option String → Option CompletionUsage → ChatCompletionChunk
chunk_of id created model delta reason usage = record {
  id = id;
  created = created;
  model = model;
  choices = record { index = 0; delta = delta; finish_reason = reason } ∷ [];
  usage = usage;
}

unfoldable pub role_chunk : String → ℕ → String → ChatCompletionChunk
unfolding chunk_of
role_chunk id created model =
    chunk_of id created model (record { role = some "assistant"; content = none }) none none

unfoldable pub delta_chunk : String → ℕ → String → StreamDelta → ChatCompletionChunk
unfolding chunk_of is_final reason_of final_usage
delta_chunk id created model d =
    if is_final d
    then chunk_of id created model (record { role = none; content = none })
        (some (reason_of d.finish_reason)) (final_usage d.usage)
    else chunk_of id created model (record { role = none; content = some d.content }) none none

-- The frames of the deltas, and the end mark unless the provider's stream raises.
unfoldable pub delta_frames :
    {E : Type 0} → String → ℕ → String → List StreamDelta → Option E → List Frame
unfolding delta_chunk
delta_frames id created model [] none = done ∷ []
delta_frames id created model [] (some _) = []
delta_frames id created model (d ∷ ds) end =
    chunk (delta_chunk id created model d) ∷ delta_frames id created model ds end

module _ {W E : Type 0} (s : ChatService W E) where
  -- `_stream_frames`, run to its end: the id and the time are taken when the first frame is asked
  -- for, and the provider after that.
  unfoldable pub stream_frames :
      ChatCompletionRequest → Provider W E → List Message → W → Streamed E × W
  unfolding role_chunk delta_frames
  stream_frames req p messages w =
      let id = "chatcmpl-" ++ₛ s.uuid_hex w in
      let created = s.time w in
      let ((deltas, end), w') = p.chat_stream req.model messages req.max_tokens req.temperature w in
      (
        record {
          frames =
              chunk (role_chunk id created req.model)
              ∷ delta_frames id created req.model deltas end;
          cut_off = end;
        },
        w',
      )

  -- `stream`: the admission runs before the iterator is returned, as a function of the world in
  -- which its frames are read.
  unfoldable pub stream : ChatCompletionRequest → String → Run W E (W → Streamed E × W)
  stream req key = do
    p ← Service.resolve s req.model
    checked ← Service.pre_checks s req (Service.provider_messages req.messages) key
    return (stream_frames req p checked.0)
