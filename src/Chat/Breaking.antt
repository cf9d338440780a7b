-- ===== src/Chat/Breaking.antt =====
-- app/services/chat_service.py with the breaker of app/resilience/circuit_breaker.py: the port that
-- the breaker fills, and a provider that is called although its breaker is open.
use atlas_gateway.Common.{
  sym, subst, [], ◌∷◌, ℕ, ◌≡◌, refl, true, false, some, List, ◌=ₛ◌, Result, ok, err, inl, inr,
}
use atlas_gateway.Redis.{Redis}
use atlas_gateway.Resilience.Breaker as Circuit
use atlas_gateway.Resilience.Breaker.{CircuitBreaker, Snapshot, is_opened}
use atlas_gateway.Domain.Messages.{Message}
use atlas_gateway.Domain.Openai.{ChatCompletionRequest}
use atlas_gateway.Chat.Run.{breaker_choose, route_resolve, provider_chat, ◌>>=◌}
use atlas_gateway.Chat.Ports.{Provider, RouteTarget, RouteResolver, Breaker}
use atlas_gateway.Chat.Service as Service
use atlas_gateway.Chat.Service.{ChatService}
use atlas_gateway.Chat.Service.Admission.{IsMade}

module _ (redis : Redis) (b : CircuitBreaker) (now : ℕ) {E : Type 0}
    (raise : Circuit.Error → E) where
  open redis use {Db}

  abbrev pub lift : {A : Type 0} → Result Circuit.Error A → Result E A
  lift (ok x) = ok x
  lift (err e) = err (raise e)

  -- The breaker as the service's port, in a request that runs at one time.
  abbrev pub breaker_port : Breaker Db E
  breaker_port = record {
    choose =
        λ primary fallback db. (lift (Circuit.choose redis b primary fallback now db now db), db);
    allow = λ p db. let (r, db') = Circuit.allow redis b p now db in (lift r, db');
    record_success = λ p db. (ok tt, Circuit.record_success redis b p now db);
    record_failure =
        λ p db. let (r, db') = Circuit.record_failure redis b p now db in (lift r, db');
  }

  -- A service with the breaker and a router.
  abbrev pub wired : RouteResolver Db E → ChatService Db E → ChatService Db E
  wired r s = record s { router = some r; breaker = some breaker_port }

  module _ (r : RouteResolver Db E) (s : ChatService Db E) (req : ChatCompletionRequest)
      (ms : List Message) (t : RouteTarget) (p : Provider Db E) (cooling other : Snapshot)
      (db : Db) where
    fallback_chosen :
        (t.fallback_model =ₛ t.provider) ≡ false
        → Circuit.load redis b t.provider now db ≡ ok cooling
        → is_opened cooling.effective_state ≡ true
        → Circuit.load redis b t.fallback_model now db ≡ ok other
        → is_opened other.effective_state ≡ false
        → Circuit.choose redis b t.provider t.fallback_model now db now db ≡ ok t.fallback_model
    unfolding Circuit.choose Circuit.fail_over
    fallback_chosen ep e1 o1 e2 o2 = rw (e1, o1, ep, e2, o2) refl

    fallback_allowed :
        Circuit.load redis b t.fallback_model now db ≡ ok other
        → is_opened other.effective_state ≡ false
        → (Circuit.allow redis b t.fallback_model now db).0 ≡ ok tt
    unfolding Circuit.allow Circuit.allow_read
    fallback_allowed e2 o2 = rw (e2, o2) refl

    routed :
        r.resolve req.model db ≡ (ok t, db)
        → (t.fallback_model =ₛ t.provider) ≡ false
        → Circuit.choose redis b t.provider t.fallback_model now db now db ≡ ok t.fallback_model
        → Service.route_stage (wired r s) (some r) req db ≡ record {
          outcome = ok (t.fallback_model, some t.fallback_model);
          world = db;
          calls = route_resolve req.model ∷ breaker_choose t.provider t.fallback_model ∷ [];
        }
    unfolding Service.route_stage Service.failover ◌>>=◌
    routed er ep ec = rw (er, ec, ep) refl

    found :
        s.registry t.fallback_model ≡ some p
        → Service.resolve (wired r s) t.fallback_model db
          ≡ record { outcome = ok p; world = db; calls = [] }
    unfolding Service.resolve
    found eg = rw (eg, Service.resolve) refl

    asked :
        (Circuit.allow redis b t.fallback_model now db).0 ≡ ok tt
        → IsMade
            (provider_chat t.fallback_model)
            (Service.shielded
              (wired r s)
              (some (breaker_port))
              (some t.fallback_model)
              p
              t.fallback_model
              req
              ms
              db).calls
    unfolding Service.shielded Service.ask ◌>>=◌
    asked ea = rw ea (inr (inl refl))

    -- With an alias whose fallback is its own primary model, an open breaker of the provider does
    -- not stop the request: `choose` is given the model where it expects a provider, finds no
    -- breaker of that name open, and the same model is called.
    pub open_breaker_bypassed :
        r.resolve req.model db ≡ (ok t, db)
        → t.fallback_model ≡ t.primary_model
        → s.registry t.primary_model ≡ some p
        → (t.fallback_model =ₛ t.provider) ≡ false
        → Circuit.load redis b t.provider now db ≡ ok cooling
        → is_opened cooling.effective_state ≡ true
        → Circuit.load redis b t.fallback_model now db ≡ ok other
        → is_opened other.effective_state ≡ false
        → IsMade (provider_chat t.primary_model) (Service.call_provider (wired r s) req ms db).calls
    unfolding Service.call_provider ◌>>=◌
    open_breaker_bypassed er em eg ep e1 o1 e2 o2 =
        subst (λ m. IsMade (provider_chat m) (Service.call_provider (wired r s) req ms db).calls) em
          (rw (routed er ep (fallback_chosen ep e1 o1 e2 o2)) (
            inr (
              inr (
                rw (found (subst (λ m. s.registry m ≡ some p) (sym em) eg))
                  (asked (fallback_allowed e2 o2))))))
