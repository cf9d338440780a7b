-- ===== src/Cache/Exact/Tests.antt =====
-- A cache of an hour over the server in memory; one digest stands for all.
use atlas_gateway.Common.{◌*◌, String, ◌≡◌, refl, ◌⊎◌, Option, none, some, List, [], ◌∷◌, arith}
use atlas_gateway.Redis.{second}
use atlas_gateway.Redis.Strings.{strings_in_memory, Entry, write}
use atlas_gateway.Cache.Exact.{Request, ExactCache, digest, build_key, get, set, normalize}
use atlas_gateway.Cache.Exact.Isolation.{IsNamed, Stored, run, Served, AreBefore, hit_of_own_store}

abbrev plain_digest : String → String
plain_digest s = "cafe"

abbrev hour : ExactCache
hour = record { ttl_seconds = 3600 }

abbrev asked : String → Request
asked model = record {
  tenant_id = "t1";
  model = model;
  messages = record { role = "user"; content = "a \"b\"" } ∷ [];
  prompt_version = "none";
}

normalize_quotes :
    normalize (asked "m").messages ≡ "[{\"role\":\"user\",\"content\":\"a \\\"b\\\"\"}]"
unfolding normalize
normalize_quotes = refl

abbrev store_of : String → Stored
store_of model = record { at = 5 * second; request = asked model; value = "hi" }

asked-IsNamed : (model : String) → IsNamed plain_digest (asked model)
unfolding digest
asked-IsNamed model = (
  ((λ e. cc), ((λ e. cc), tt)),
  ((λ e. cc), ((λ e. cc), ((λ e. cc), ((λ e. cc), tt)))),
  ((λ e. cc), ((λ e. cc), ((λ e. cc), ((λ e. cc), tt)))),
)

abbrev nothing : String → Option Entry
nothing k = none

abbrev stores : List Stored
stores = store_of "m" ∷ store_of "n" ∷ []

stores-AreBefore : AreBefore plain_digest strings_in_memory hour (9 * second) stores
stores-AreBefore = ((omega arith, asked-IsNamed "m"), ((omega arith, asked-IsNamed "n"), tt))

hit :
    get plain_digest strings_in_memory hour
      (asked "m")
      (9 * second)
      (run plain_digest strings_in_memory hour stores nothing)
    ≡ some "hi"
unfolding get set build_key digest write
hit = refl

hit_of_own_store_example :
    Served plain_digest strings_in_memory hour (asked "m") (9 * second) "hi" stores
    ⊎ (get plain_digest strings_in_memory hour (asked "m") (9 * second) nothing ≡ some "hi")
hit_of_own_store_example =
    hit_of_own_store plain_digest strings_in_memory hour (asked "m") (9 * second) "hi" stores
      nothing (asked-IsNamed "m") stores-AreBefore hit
