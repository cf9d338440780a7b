-- ===== src/Cache/Exact.antt =====
-- app/cache/exact.py: the exact-match response cache over Redis.
pub mod Isolation
mod Tests
use Prim.Native.Char.{Char, code}
use Prim.Native.String.{[] as no_chars, ◌∷◌ as ◌∷ₛ◌}
use atlas_gateway.Common.{
  ℕ, ◌/◌, ◌%◌, String, ◌++ₛ◌, Bool, Option, none, some, List, [], ◌∷◌, ltb, ◌==◌, if◌then◌else◌,
  Result, ok, err,
}
use atlas_gateway.Common.Segments.{join}
use atlas_gateway.Redis.Strings.{Strings}
use atlas_gateway.Domain.Messages.{Message}

abbrev pub key_prefix : String
key_prefix = "atlas:cache:exact"

-- `json.dumps` of a text with `ensure_ascii=False`: quotes, backslashes and control characters are
-- escaped, and nothing else.
unfoldable pub hex_digit : ℕ → String
hex_digit n =
    if n == 0
    then "0"
    else if n == 1
    then "1"
    else if n == 2
    then "2"
    else if n == 3
    then "3"
    else if n == 4
    then "4"
    else if n == 5
    then "5"
    else if n == 6
    then "6"
    else if n == 7
    then "7"
    else if n == 8
    then "8"
    else if n == 9
    then "9"
    else if n == 10
    then "a"
    else if n == 11
    then "b"
    else if n == 12
    then "c"
    else if n == 13
    then "d"
    else if n == 14
    then "e"
    else "f"

unfoldable pub escape_char : Char → String
unfolding hex_digit
escape_char c =
    if code c == 34
    then "\\\""
    else if code c == 92
    then "\\\\"
    else if code c == 10
    then "\\n"
    else if code c == 13
    then "\\r"
    else if code c == 9
    then "\\t"
    else if code c == 8
    then "\\b"
    else if code c == 12
    then "\\f"
    else if ltb (code c) 32
    then "\\u00" ++ₛ (hex_digit (code c / 16) ++ₛ hex_digit (code c % 16))
    else c ∷ₛ no_chars

unfoldable pub escape : String → String
unfolding escape_char
escape no_chars = ""
escape (c ∷ₛ s) = escape_char c ++ₛ escape s

unfoldable pub json_text : String → String
unfolding escape
json_text s = "\"" ++ₛ (escape s ++ₛ "\"")

unfoldable pub json_message : Message → String
unfolding json_text
json_message m =
    "{\"role\":" ++ₛ (json_text m.role ++ₛ (",\"content\":" ++ₛ (json_text m.content ++ₛ "}")))

unfoldable pub json_items : List Message → String
unfolding json_message
json_items [] = ""
json_items (m ∷ []) = json_message m
json_items (m ∷ n ∷ ms) = json_message m ++ₛ ("," ++ₛ json_items (n ∷ ms))

-- `_normalize`.
unfoldable pub normalize : List Message → String
unfolding json_items
normalize messages = "[" ++ₛ (json_items messages ++ₛ "]")

-- What a request is cached under, before it is a key.
pub record Request : Type 0 where
  pub tenant_id : String
  pub model : String
  pub messages : List Message
  pub prompt_version : String

-- `ExactCache.__init__`; a time to live is a natural number, so that `<= 0` is 0.
pub record ExactCache : Type 0 where
  pub ttl_seconds : ℕ

pub data Error : Type 0 where
  value_error : Error

unfoldable pub init : ℕ → Result Error ExactCache
init ttl = if ttl == 0 then err value_error else ok (record { ttl_seconds = ttl })

-- The digest is SHA-256 of the UTF-8 bytes, in hexadecimal.
module _ (sha256_hex : String → String) where
  unfoldable pub digest : Request → String
  digest q = sha256_hex (normalize q.messages)

  -- `f"{_KEY_PREFIX}:{tenant_id}:{prompt_version}:{model}:{digest}"`.
  unfoldable pub build_key : Request → String
  build_key q = join key_prefix (join q.tenant_id (join q.prompt_version (join q.model (digest q))))

  module _ (redis : Strings) (c : ExactCache) where
    open redis use {Db}

    unfoldable pub get : Request → ℕ → Db → Option String
    get q now db = redis.get now db (build_key q)

    unfoldable pub set : Request → String → ℕ → Db → Db
    set q value now db = redis.set now (build_key q) value c.ttl_seconds db
