-- ===== src/Chat/Run.antt =====
-- The code of the service, which calls its collaborators: it returns or raises, changes the world
-- that they keep, and leaves the list of the calls it has made, in their order.
use atlas_gateway.Common.{String, Option, List, [], ◌∷◌, ◌++◌, Result, ok, err, Action}

-- One constructor per collaborator's method, in the order of the documented stages.
pub data Call : Type 0 where
  rate_limit_check : (api_key_id alias : String) → Call
  budget_check : (api_key_id : String) → Call
  run_pre : Call
  prompt_resolve : (ref : String) → Call
  cache_get : (tenant_id model prompt_version : String) → Call
  route_resolve : (alias : String) → Call
  breaker_choose : (primary fallback : String) → Call
  breaker_allow : (provider : String) → Call
  provider_chat : (model : String) → Call
  record_success : (provider : String) → Call
  record_failure : (provider : String) → Call
  account : (model : String) (alias : Option String) (prompt_version : String) → Call
  budget_charge : (api_key_id : String) → Call
  run_post : Call
  cache_set : (tenant_id model prompt_version : String) → Call

-- `UnknownModelError` is the service's own, the others come from a collaborator.
pub data Error (E : Type 0) : Type 0 where
  unknown_model : String → Error E
  raised : E → Error E

pub record Reply (W E A : Type 0) : Type 0 where
  pub outcome : Result (Error E) A
  pub world : W
  pub calls : List Call

abbrev pub Run : Type 0 → Type 0 → Type 0 → Type 0
Run W E A = W → Reply W E A

abbrev pub wrap : {E A : Type 0} → Result E A → Result (Error E) A
wrap (ok x) = ok x
wrap (err e) = err (raised e)

module _ {W E A : Type 0} where
  abbrev pub return : A → Run W E A
  return x w = record { outcome = ok x; world = w; calls = [] }

  abbrev pub throw : Error E → Run W E A
  throw e w = record { outcome = err e; world = w; calls = [] }

  -- A call of a collaborator.
  abbrev pub call : Call → Action W E A → Run W E A
  call c action w =
      let (r, w') = action w in record { outcome = wrap r; world = w'; calls = c ∷ [] }

  -- `try`, with the exception as a value.
  abbrev pub attempt : Run W E A → Run W E (Result (Error E) A)
  attempt m w = let r = m w in record { outcome = ok r.outcome; world = r.world; calls = r.calls }

  -- What a handler does, whose outcome is then the given one.
  abbrev pub and_then : Result (Error E) A → Run W E A
  and_then r w = record { outcome = r; world = w; calls = [] }

module _ {W E A B : Type 0} where
  -- The rest of the code after a first part.
  abbrev pub continue : (A → Run W E B) → Result (Error E) A → W → List Call → Reply W E B
  continue k (err e) w calls = record { outcome = err e; world = w; calls = calls }
  continue k (ok x) w calls =
      let r = k x w in record { outcome = r.outcome; world = r.world; calls = calls ++ r.calls }

  infixl 5 ◌>>=◌ ◌>>◌
  unfoldable pub ◌>>=◌ : Run W E A → (A → Run W E B) → Run W E B
  (m >>= k) w = let r = m w in continue k r.outcome r.world r.calls

  abbrev pub ◌>>◌ : Run W E A → Run W E B → Run W E B
  m >> k = m >>= λ _. k
