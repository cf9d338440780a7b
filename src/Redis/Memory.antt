-- ===== src/Redis/Memory.antt =====
-- A server in memory, which has all the laws that the adapters take from Redis.
use atlas_gateway.Common.{
  ℕ, ◌+◌, ◌*◌, ◌≤◌, String, ◌≡◌, ap, ◌∙◌, ◌≢◌, Bool, true, false, Option, none, some, arith, ltb,
  ◌=ₛ◌, =ₛ-refl, =ₛ-ne, if◌then◌else◌,
}
use atlas_gateway.Redis.{Redis, Fields, Value, lookup_or, second}

-- The hash under one key, and the time at which it is gone.
pub record Cell : Type 0 where
  pub fields : String → Option Value
  pub deadline : Option ℕ

abbrev pub Store : Type 0
Store = String → Cell

abbrev pub is_gone : ℕ → Option ℕ → Bool
is_gone t none = false
is_gone t (some d) = if ltb t d then false else true

abbrev pub blank : Cell
blank = record { fields = λ f. none; deadline = none }

abbrev pub live : ℕ → Cell → Cell
live t c = if is_gone t c.deadline then blank else c

-- The store with one key set.
unfoldable pub update : String → Cell → Store → Store
update k c s j = if k =ₛ j then c else s j

-- A field of a cell, at a time.
abbrev pub read : ℕ → Cell → String → Option Value
read t c f = (live t c).fields f

abbrev pub hget : ℕ → Store → String → String → Option Value
hget t s k f = read t (s k) f

abbrev pub hset : ℕ → String → Fields → Store → Store
hset t k m s =
    let c = live t (s k) in update k (record c { fields = λ f. lookup_or f m (c.fields f) }) s

abbrev pub expire : ℕ → String → ℕ → Store → Store
expire t k n s = update k (record (live t (s k)) { deadline = some (t + n * second) }) s

is_gone-live : (t : ℕ) (c : Cell) → is_gone t (live t c).deadline ≡ false
is_gone-live t c = ground arith

update_self : (k : String) (c : Cell) (s : Store) → update k c s k ≡ c
unfolding update
update_self k c s = simp =ₛ-refl

update_ne : (k j : String) (c : Cell) (s : Store) → k ≢ j → update k c s j ≡ s j
unfolding update
update_ne k j c s h = simp (=ₛ-ne k j h)

read-hset :
    (t : ℕ) (f : String) (m : Fields) (c : Cell)
    → read t (record (live t c) { fields = λ g. lookup_or g m ((live t c).fields g) }) f
      ≡ lookup_or f m (read t c f)
read-hset t f m c = ground (arith, is_gone-live t c)

read-expire :
    (t u : ℕ) (f : String) (n : ℕ) (c : Cell)
    → t ≤ u
    → read u (record (live t c) { deadline = some (t + n * second) }) f
      ≡ (if ltb u (t + n * second) then read t c f else none)
read-expire t u f n c h = ground arith

pub hget-hset :
    (t : ℕ) (k f : String) (m : Fields) (s : Store)
    → hget t (hset t k m s) k f ≡ lookup_or f m (hget t s k f)
hget-hset t k f m s = ap (λ c. read t c f) (update_self k _ s) ∙ read-hset t f m (s k)

pub hget-expire :
    (t u : ℕ) (k f : String) (n : ℕ) (s : Store)
    → t ≤ u
    → hget u (expire t k n s) k f ≡ (if ltb u (t + n * second) then hget t s k f else none)
hget-expire t u k f n s h = ap (λ c. read u c f) (update_self k _ s) ∙ read-expire t u f n (s k) h

pub hget-hset_ne :
    (t u : ℕ) (k j f : String) (m : Fields) (s : Store)
    → k ≢ j
    → hget u (hset t k m s) j f ≡ hget u s j f
hget-hset_ne t u k j f m s h = ap (λ c. read u c f) (update_ne k j _ s h)

pub hget-expire_ne :
    (t u : ℕ) (k j f : String) (n : ℕ) (s : Store)
    → k ≢ j
    → hget u (expire t k n s) j f ≡ hget u s j f
hget-expire_ne t u k j f n s h = ap (λ c. read u c f) (update_ne k j _ s h)

abbrev pub memory : Redis
memory = record {
  Db = Store;
  hget = hget;
  hset = hset;
  expire = expire;
  hget-hset = hget-hset;
  hget-hset_ne = hget-hset_ne;
  hget-expire = hget-expire;
  hget-expire_ne = hget-expire_ne;
}

-- The server with no key.
abbrev pub no_keys : Store
no_keys k = blank
