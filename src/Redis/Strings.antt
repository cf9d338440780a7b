-- ===== src/Redis/Strings.antt =====
-- The string keys of Redis, for GET and SET with EX. Like the hashes of the parent module they are
-- not code of the repository: the laws are the documented behaviour.
use atlas_gateway.Common.{
  ap, ℕ, ◌+◌, ◌*◌, ◌≤◌, String, ◌≡◌, ◌≢◌, Option, none, some, ltb, ◌=ₛ◌, =ₛ-refl, =ₛ-ne,
  if◌then◌else◌,
}
use atlas_gateway.Redis.{second}

pub record Strings : Type 1 where
  pub Db : Type 0
  -- GET key, at a time.
  pub get : ℕ → Db → String → Option String
  -- SET key value EX seconds, at a time.
  pub set : ℕ → String → String → ℕ → Db → Db
  pub get-set :
      (t u : ℕ) (k v : String) (n : ℕ) (db : Db)
      → t ≤ u
      → get u (set t k v n db) k ≡ (if ltb u (t + n * second) then some v else none)
  pub get-set_ne :
      (t u : ℕ) (k j v : String) (n : ℕ) (db : Db) → k ≢ j → get u (set t k v n db) j ≡ get u db j

-- A server in memory: the value of a key and its deadline.
pub record Entry : Type 0 where
  pub value : String
  pub deadline : ℕ

abbrev pub live : ℕ → Option Entry → Option String
live t none = none
live t (some e) = if ltb t e.deadline then some e.value else none

unfoldable pub write : String → Entry → (String → Option Entry) → String → Option Entry
write k e s j = if k =ₛ j then some e else s j

write_self : (k : String) (e : Entry) (s : String → Option Entry) → write k e s k ≡ some e
unfolding write
write_self k e s = simp =ₛ-refl

write_ne : (k j : String) (e : Entry) (s : String → Option Entry) → k ≢ j → write k e s j ≡ s j
unfolding write
write_ne k j e s h = simp (=ₛ-ne k j h)

pub live-write :
    (t u : ℕ) (k v : String) (n : ℕ) (s : String → Option Entry)
    → live u (write k (record { value = v; deadline = t + n * second }) s k)
      ≡ (if ltb u (t + n * second) then some v else none)
live-write t u k v n s = ap (live u) (write_self k _ s)

pub live-write_ne :
    (t u : ℕ) (k j v : String) (n : ℕ) (s : String → Option Entry)
    → k ≢ j
    → live u (write k (record { value = v; deadline = t + n * second }) s j) ≡ live u (s j)
live-write_ne t u k j v n s h = ap (live u) (write_ne k j _ s h)

abbrev pub strings_in_memory : Strings
strings_in_memory = record {
  Db = String → Option Entry;
  get = λ t s k. live t (s k);
  set = λ t k v n s. write k (record { value = v; deadline = t + n * second }) s;
  get-set = λ t u k v n s h. live-write t u k v n s;
  get-set_ne = λ t u k j v n s h. live-write_ne t u k j v n s h;
}
