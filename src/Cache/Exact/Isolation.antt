-- ===== src/Cache/Exact/Isolation.antt =====
-- app/cache/exact.py: a hit is an answer to the same tenant, prompt version, model and messages.
use atlas_gateway.Common.{
  All, ℕ, ◌+◌, ◌*◌, ◌≤◌, ◌<◌, String, ◌≡◌, sym, ◌∙◌, subst, ◌⊎◌, inl, inr, Bool-cases, ltb, ◌=ₛ◌,
  =ₛ_iff, ne_of_test, none, some, List, [], ◌∷◌, arith, if◌then◌else◌,
}
use atlas_gateway.Common.Segments.{join_tail, NoColon, join_first, join_last}
use atlas_gateway.Redis.{second}
use atlas_gateway.Redis.Strings.{Strings}
use atlas_gateway.Cache.Exact.{key_prefix, Request, ExactCache, digest, build_key, get, set}

alive_value :
    (now deadline : ℕ) (x v : String)
    → (if ltb now deadline then some x else none) ≡ some v
    → (x ≡ v) × (now < deadline)
alive_value now deadline x v e = ground arith

-- What was stored, and when.
pub record Stored : Type 0 where
  pub at : ℕ
  pub request : Request
  pub value : String

module _ (sha256_hex : String → String) where
  -- Tenants and prompt versions are ids or the sentinel, and digests are hexadecimal.
  abbrev pub IsNamed : Request → Type 0
  IsNamed q = NoColon q.tenant_id × NoColon q.prompt_version × NoColon (digest sha256_hex q)

  -- The requests are one to the cache.
  abbrev pub Same : Request → Request → Type 0
  Same q r =
      (q.tenant_id ≡ r.tenant_id)
      × (q.prompt_version ≡ r.prompt_version)
      × (q.model ≡ r.model)
      × (digest sha256_hex q ≡ digest sha256_hex r)

  -- Requests with one key have the same tenant, prompt version, model and digest.
  pub build_key_separates :
      (q r : Request)
      → IsNamed q
      → IsNamed r
      → build_key sha256_hex q ≡ build_key sha256_hex r
      → Same q r
  unfolding build_key
  build_key_separates q r (ft, fv, fd) (gt, gv, gd) e =
      let e1 = join_tail key_prefix _ _ e in
      let (et, e2) = join_first q.tenant_id r.tenant_id _ _ ft gt e1 in
      let (ev, e3) = join_first q.prompt_version r.prompt_version _ _ fv gv e2 in
      let (em, ed) = join_last q.model r.model _ _ fd gd e3 in (et, ev, em, ed)

  module _ (redis : Strings) (c : ExactCache) where
    open redis use {Db}

    abbrev pub run : List Stored → Db → Db
    run [] db = db
    run (s ∷ ss) db = run ss (set sha256_hex redis c s.request s.value s.at db)

    -- One of the stores is for the request, has the value, and is still alive.
    abbrev pub Served : Request → ℕ → String → List Stored → Type 0
    Served q now v [] = ⊥
    Served q now v (s ∷ ss) =
        (Same q s.request × (s.value ≡ v) × (now < s.at + c.ttl_seconds * second))
        ⊎ Served q now v ss

    abbrev pub AreBefore : ℕ → List Stored → Type 0
    AreBefore now ss = All (λ s. (s.at ≤ now) × IsNamed s.request) ss

    kept :
        (q : Request) (now : ℕ) (s : Stored) (v : String) (db : Db)
        → IsNamed q
        → IsNamed s.request
        → s.at ≤ now
        → get sha256_hex redis c q now (set sha256_hex redis c s.request s.value s.at db) ≡ some v
        → (Same q s.request × (s.value ≡ v) × (now < s.at + c.ttl_seconds * second))
          ⊎ (get sha256_hex redis c q now db ≡ some v)
    unfolding get set
    kept q now s v db fq fs h e =
        elim (Bool-cases (build_key sha256_hex s.request =ₛ build_key sha256_hex q)) [
          | inl same ↦
              let ek = (=ₛ_iff _ _).0 same in
              let stored =
                subst
                  (λ k.
                    redis.get now
                      (redis.set s.at (build_key sha256_hex s.request) s.value c.ttl_seconds db) k
                    ≡ some v)
                  (sym ek) e in
              let (ev, alive) =
                alive_value now _ s.value v
                  (sym (redis.get-set s.at now _ s.value c.ttl_seconds db h) ∙ stored) in
              inl (build_key_separates q s.request fq fs (sym ek), ev, alive)
          | inr other ↦ inr (
              sym (redis.get-set_ne s.at now _ _ s.value c.ttl_seconds db (ne_of_test _ _ other))
              ∙ e)
        ]

    -- A hit is the value of a store for the same tenant, prompt version, model and digest of the
    -- messages that is still alive, or was there before the stores, whatever else was stored.
    pub hit_of_own_store :
        (q : Request) (now : ℕ) (v : String) (ss : List Stored) (db : Db)
        → IsNamed q
        → AreBefore now ss
        → get sha256_hex redis c q now (run ss db) ≡ some v
        → Served q now v ss ⊎ (get sha256_hex redis c q now db ≡ some v)
    hit_of_own_store q now v [] db fq h e = inr e
    hit_of_own_store q now v (s ∷ ss) db fq ((le, fs), h) e =
        elim (hit_of_own_store q now v ss _ fq h e) [
          | inl later ↦ inl (inr later)
          | inr was ↦ elim (kept q now s v db fq fs le was) [
            | inl own ↦ inl (inl own)
            | inr before ↦ inr before
          ]
        ]
