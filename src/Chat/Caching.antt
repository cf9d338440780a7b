-- ===== src/Chat/Caching.antt =====
-- app/services/chat_service.py with the cache of app/cache/exact.py: the port that the cache fills,
-- and a request that is sent again.
use atlas_gateway.Common.{
  refl, sym, subst, [], ◌∷◌, ◌++◌, none, ℕ, ◌+◌, ◌*◌, ◌<◌, String, ◌≡◌, ap, ◌∙◌, some, List, Result,
  ok, err, lt→ltb, arith,
}
use atlas_gateway.Redis.{second}
use atlas_gateway.Redis.Strings.{Strings}
use atlas_gateway.Cache.Exact as Exact
use atlas_gateway.Cache.Exact.{ExactCache, Request}
use atlas_gateway.Domain.Messages.{Message}
use atlas_gateway.Domain.Openai.{ChatCompletionRequest, ChatCompletionResponse}
use atlas_gateway.Chat.Run.{cache_get, wrap, Call, Error, Run, continue, return, ◌>>=◌}
use atlas_gateway.Chat.Ports.{ResponseCache}
use atlas_gateway.Chat.Service as Service
use atlas_gateway.Chat.Service.{ChatService}

module _ {W E A B : Type 0} where
  ends_continue :
      (k : A → Run W E B) (Q : W → Type 0) (y : B)
      → ((x : A) (w : W) → (k x w).outcome ≡ ok y → Q (k x w).world)
      → (r : Result (Error E) A) (w : W) (cs : List Call) → (continue k r w cs).outcome ≡ ok y
      → Q (continue k r w cs).world
  ends_continue k Q y h (ok x) w cs e = h x w e
  ends_continue k Q y h (err x) w cs e = cc

  -- What the last part of the code ensures when it returns, the whole ensures.
  ends :
      (m : Run W E A) (k : A → Run W E B) (Q : W → Type 0) (y : B) (w : W)
      → ((x : A) (w' : W) → (k x w').outcome ≡ ok y → Q (k x w').world)
      → ((m >>= k) w).outcome ≡ ok y
      → Q ((m >>= k) w).world
  unfolding ◌>>=◌
  ends m k Q y w h e = ends_continue k Q y h (m w).outcome (m w).world (m w).calls e

-- A request as the cache sees it.
abbrev pub request : String → String → List Message → String → Request
request tenant model messages version = record {
  tenant_id = tenant;
  model = model;
  messages = messages;
  prompt_version = version;
}

ok_inj : {E A : Type 0} {x y : A} → ◌≡◌ {A = Result E A} (ok x) (ok y) → x ≡ y
ok_inj e = ground arith

module _ (sha256_hex : String → String) (redis : Strings) (c : ExactCache) (now : ℕ)
    {E : Type 0} where
  open redis use {Db}

  -- The cache as the service's port, in requests that run at one time.
  abbrev pub cache_port : ResponseCache Db E
  cache_port = record {
    get = λ tenant model messages version db.
        (ok (Exact.get sha256_hex redis c (request tenant model messages version) now db), db);
    set = λ tenant model messages value version db.
        (ok tt, Exact.set sha256_hex redis c (request tenant model messages version) value now db);
  }

  abbrev pub cached_service : ChatService Db E → ChatService Db E
  cached_service s = record s { cache = some cache_port }

  module _ (s : ChatService Db E) (req : ChatCompletionRequest) (key : String) where
    -- What a request's answer is stored as, in a world.
    abbrev pub IsStored : List Message → String → ChatCompletionResponse → Db → Type 0
    IsStored ms version y db =
        Exact.get sha256_hex redis c (request key req.model ms version) now db
        ≡ some (s.dump_json y)

    store_last :
        (ms : List Message) (version : String) (r y : ChatCompletionResponse) (w : Db)
        → 0 < c.ttl_seconds
        → ((Service.set_stage (cached_service s) (some cache_port) req key ms version r
              >>= (λ _. return r))
            w).outcome
          ≡ ok y
        → IsStored ms version y
            ((Service.set_stage (cached_service s) (some cache_port) req key ms version r
                >>= (λ _. return r))
              w).world
    unfolding Service.set_stage Exact.get Exact.set ◌>>=◌
    store_last ms version r y w pos e =
        redis.get-set now now _ (s.dump_json r) c.ttl_seconds w (omega arith)
        ∙ rw (lt→ltb now (now + c.ttl_seconds * second) (omega arith))
            (ap (λ x. some (s.dump_json x)) (ok_inj e))

    fresh-IsStored :
        (ms : List Message) (version : String) (w : Db) (y : ChatCompletionResponse)
        → 0 < c.ttl_seconds
        → (Service.fresh (cached_service s) req key ms version w).outcome ≡ ok y
        → IsStored ms version y (Service.fresh (cached_service s) req key ms version w).world
    unfolding Service.fresh
    fresh-IsStored ms version w y pos e =
        let Q = IsStored ms version y in
        ends _ _ Q y w
          (λ result w1. ends _ _ Q y w1 (λ r w2.
            ends _ _ Q y w2 (λ _ w3. ends _ _ Q y w3 (λ _ w4. store_last ms version r y w4 pos))))
          e

    module _ (ms : List Message) (version : String) (cs : List Call) where
      -- The checks before the cache let the request through as it is, in every world.
      abbrev pub IsWaved : Type 0
      IsWaved =
          (w : Db)
          → Service.pre_checks (cached_service s) req (Service.provider_messages req.messages) key w
            ≡ record { outcome = ok (ms, version); world = w; calls = cs }

      complete_hit :
          (w : Db) (v : String)
          → IsWaved
          → Exact.get sha256_hex redis c (request key req.model ms version) now w ≡ some v
          → Service.complete (cached_service s) req key w ≡ record {
            outcome = wrap (s.validate_json v);
            world = w;
            calls = cs ++ (cache_get key req.model version ∷ []);
          }
      unfolding Service.complete Service.get_stage Service.answer ◌>>=◌
      complete_hit w v waved hit = rw (waved w, hit) refl

      complete_miss :
          (w : Db)
          → IsWaved
          → Exact.get sha256_hex redis c (request key req.model ms version) now w ≡ none
          → ((Service.complete (cached_service s) req key w).outcome
              ≡ (Service.fresh (cached_service s) req key ms version w).outcome)
            × ((Service.complete (cached_service s) req key w).world
                ≡ (Service.fresh (cached_service s) req key ms version w).world)
      unfolding Service.complete Service.get_stage Service.answer ◌>>=◌
      complete_miss w waved miss = (rw (waved w, miss) refl, rw (waved w, miss) refl)

      -- A completion that was not in the cache and returned is returned again when the request is
      -- sent again at once, with no other call than those of the checks and the lookup, if the
      -- checks let it through as it is, the time to live is not 0, and the codec reads back what it
      -- has written of the answer.
      pub answered_again :
          (w : Db) (y : ChatCompletionResponse)
          → IsWaved
          → Exact.get sha256_hex redis c (request key req.model ms version) now w ≡ none
          → 0 < c.ttl_seconds
          → s.validate_json (s.dump_json y) ≡ ok y
          → (Service.complete (cached_service s) req key w).outcome ≡ ok y
          → Service.complete
              (cached_service s)
              req
              key
              (Service.complete (cached_service s) req key w).world
            ≡ record {
              outcome = ok y;
              world = (Service.complete (cached_service s) req key w).world;
              calls = cs ++ (cache_get key req.model version ∷ []);
            }
      answered_again w y waved miss pos codec e =
          let (same, world) = complete_miss w waved miss in
          let stored =
            subst (IsStored ms version y) (sym world)
              (fresh-IsStored ms version w y pos (sym same ∙ e)) in
          complete_hit _ (s.dump_json y) waved stored ∙ rw codec refl
