-- ===== src/Api/Deps.antt =====
-- app/api/deps.py: the guardrails that are wired, and the check of an API key.
pub mod Wired
pub mod Keys
mod Tests
use atlas_gateway.Limits.Budget.{monthly_period, Date}
use atlas_gateway.Guardrails.Size.{size, SizeGuardrail}
use atlas_gateway.Guardrails.Injection.{injection}
use atlas_gateway.Guardrails.Pii.{pii, redact}
use atlas_gateway.Guardrails.Chain.{rejection, GuardrailChain}
use atlas_gateway.Guardrails.ContentPolicy.{
  content_policy, default_content_policy, ContentPolicyGuardrail,
}
use atlas_gateway.Common.{
  [], ok, ◌=ₛ◌, true, err, none, ◌∷◌, Result, some, ◌||◌, false, if◌then◌else◌, ℕ, Bool, List,
  Option, String,
}

pub data Environment : Type 0 where
  dev stage prod : Environment

-- The settings of app/config.py that are read here.
pub record Settings : Type 0 where
  pub environment : Environment
  pub api_keys : List String
  pub redis_url : Option String
  pub cache_enabled : Bool
  pub rate_limit_enabled : Bool
  pub budget_enabled : Bool
  pub guardrails_enabled : Bool
  pub auth_db_enabled : Bool

-- `settings.environment != "dev"`.
unfoldable pub is_deployed : Environment → Bool
is_deployed dev = false
is_deployed _ = true

-- `None if not enabled or settings.redis_url is None`, with what is made of the address.
unfoldable pub when_redis : {A : Type 0} → Bool → Option String → (String → A) → Option A
when_redis enabled none make = none
when_redis enabled (some url) make = if enabled then some (make url) else none

-- `_build_cache`, `_build_rate_limiter` and `_build_budget`, with the constructor.
unfoldable pub build_cache : {A : Type 0} → Settings → (String → A) → Option A
unfolding when_redis
build_cache s make = when_redis s.cache_enabled s.redis_url make

unfoldable pub build_rate_limiter : {A : Type 0} → Settings → (String → A) → Option A
unfolding when_redis is_deployed
build_rate_limiter s make =
    when_redis (s.rate_limit_enabled || is_deployed s.environment) s.redis_url make

-- `today.replace(day=1)`.
unfoldable pub first_of_month : Date → Date
first_of_month today = record { year = today.year; month = today.month; day = 1 }

-- The constructor takes the month's text, and the first of the month as the day of the reset.
unfoldable pub build_budget :
    {A : Type 0} → Settings → Date → (String → String → Date → A) → Option A
unfolding when_redis is_deployed first_of_month
build_budget s today make =
    when_redis (s.budget_enabled || is_deployed s.environment) s.redis_url
      (λ url. make url (monthly_period (first_of_month today)) (first_of_month today))

-- What the guardrails take of `re` and of numbers: the tests of the patterns of injection and of
-- content, `subn` of the patterns of personal data, and the decimal text.
pub record Matchers : Type 0 where
  pub injection_search : String → String → Bool
  pub content_search : String → String → Bool
  pub subn : String → String → String → String × ℕ
  pub show : ℕ → String

-- `SizeGuardrail()` and `ContentPolicyGuardrail()`.
abbrev pub default_size : SizeGuardrail
default_size = record { max_chars = 100000 }

abbrev default_policy : Matchers → ContentPolicyGuardrail
default_policy re = record { policy = default_content_policy re.content_search }

module _ {W X : Type 0} (re : Matchers) where
  unfoldable pub wired_chain : GuardrailChain W X
  wired_chain = record {
    pre_checks =
        size re.show default_size ∷ injection re.injection_search ∷ pii re.subn re.show redact ∷ [];
    post_checks = content_policy (default_policy re) ∷ [];
  }

  unfoldable pub build_guardrails : Settings → Option (GuardrailChain W X)
  unfolding wired_chain is_deployed
  build_guardrails s =
      if s.guardrails_enabled || is_deployed s.environment then some wired_chain else none

pub record Credentials : Type 0 where
  pub scheme : String
  pub credentials : String

-- The exceptions with status 401.
pub data Error : Type 0 where
  missing_bearer_token invalid_api_key : Error

-- `key in settings.api_keys`.
unfoldable member_of : List String → String → Bool
member_of [] key = false
member_of (k ∷ ks) key = (k =ₛ key) || member_of ks key

-- Whether the key is valid; `key_is_active` asks the database of the pool.
unfoldable pub is_valid :
    {Pool : Type 0} → Settings → (Pool → String → Bool) → Option Pool → String → Bool
unfolding member_of
is_valid s key_is_active none key = member_of s.api_keys key
is_valid s key_is_active (some pool) key =
    if s.auth_db_enabled then key_is_active pool key else member_of s.api_keys key

-- `lower` and `strip` are the methods of texts.
unfoldable pub require_api_key :
    {Pool : Type 0}
    → (lower strip : String → String) → Settings
    → (Pool → String → Bool)
    → Option Pool
    → Option Credentials
    → Result Error String
unfolding is_valid
require_api_key lower strip s key_is_active pool none = err missing_bearer_token
require_api_key lower strip s key_is_active pool (some c) =
    if lower c.scheme =ₛ "bearer"
    then if is_valid s key_is_active pool (strip c.credentials)
      then ok (strip c.credentials)
      else err invalid_api_key
    else err missing_bearer_token
