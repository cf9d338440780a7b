-- ===== src/Registry/Promotion/Table.antt =====
-- A `prompt_versions` table in memory, which has all the laws of the store.
use atlas_gateway.Common.{
  subst, =ₛ-refl, Bool-cases, inl, inr, String, ◌≡◌, ◌≢◌, refl, ap, sym, Bool, true, false, Option,
  none, some, List, [], ◌∷◌, ◌=ₛ◌, =ₛ_iff, if◌then◌else◌, arith, ◌&&◌,
}
use atlas_gateway.Registry.Promotion.{Status, draft, candidate, production, retired, Store}

pub record Row : Type 0 where
  pub id : String
  pub prompt_id : String
  pub status : Status

abbrev pub Table : Type 0
Table = List Row

abbrev pub is_production : Option Status → Bool
is_production none = false
is_production (some production) = true
is_production (some _) = false

unfoldable pub status_of : Table → String → Option Status
status_of [] v = none
status_of (r ∷ rs) v = if r.id =ₛ v then some r.status else status_of rs v

unfoldable pub prompt_of : Table → String → Option String
prompt_of [] v = none
prompt_of (r ∷ rs) v = if r.id =ₛ v then some r.prompt_id else prompt_of rs v

unfoldable pub set : String → Status → Table → Table
set v s [] = []
set v s (r ∷ rs) = record r { status = if r.id =ₛ v then s else r.status } ∷ set v s rs

-- The row of a version has the prompt, and the version is in production.
abbrev pub owns : Option String → String → Bool
owns none p = false
owns (some q) p = q =ₛ p

-- The first version of some rows that is in production for the prompt, by the whole table.
unfoldable pub find : Table → String → Table → Option String
find t p [] = none
find t p (r ∷ rs) =
    if is_production (status_of t r.id) && owns (prompt_of t r.id) p then some r.id else find t p rs

rest_status :
    (r : Row) (rs : Table) (v : String) {o : Option Status}
    → (r.id =ₛ v) ≡ false
    → status_of (r ∷ rs) v ≡ o
    → status_of rs v ≡ o
unfolding status_of
rest_status r rs v e h = rw e at h

rest_prompt :
    (r : Row) (rs : Table) (v : String) {o : Option String}
    → (r.id =ₛ v) ≡ false
    → prompt_of (r ∷ rs) v ≡ o
    → prompt_of rs v ≡ o
unfolding prompt_of
rest_prompt r rs v e h = rw e at h

pub status_of-set :
    (t : Table) (v : String) (s : Status) {old : Status}
    → status_of t v ≡ some old
    → status_of (set v s t) v ≡ some s
unfolding status_of set
status_of-set [] v s h = cc
status_of-set (r ∷ rs) v s h = elim (Bool-cases (r.id =ₛ v)) [
  | inl e ↦ rw e
  | inr e ↦ rw e (status_of-set rs v s (rest_status r rs v e h))
]

pub status_of-set_ne :
    (t : Table) (v w : String) (s : Status) → v ≢ w → status_of (set v s t) w ≡ status_of t w
unfolding status_of set
status_of-set_ne [] v w s h = refl
status_of-set_ne (r ∷ rs) v w s h =
    ground (arith, status_of-set_ne rs v w s, =ₛ_iff r.id v, =ₛ_iff r.id w)

pub prompt_of-set :
    (t : Table) (v w : String) (s : Status) → prompt_of (set v s t) w ≡ prompt_of t w
unfolding prompt_of set
prompt_of-set [] v w s = refl
prompt_of-set (r ∷ rs) v w s = ground (arith, prompt_of-set rs v w s)

pub owned :
    (t : Table) (v : String) {s : Status}
    → status_of t v ≡ some s
    → (p : String) × (prompt_of t v ≡ some p)
unfolding status_of prompt_of
owned [] v h = cc
owned (r ∷ rs) v h = elim (Bool-cases (r.id =ₛ v)) [
  | inl e ↦ (r.prompt_id, rw e)
  | inr e ↦ let (p, own) = owned rs v (rest_status r rs v e h) in (p, rw e own)
]

-- The test of one row.
abbrev fits : Table → String → String → Bool
fits t p v = is_production (status_of t v) && owns (prompt_of t v) p

fits_sound :
    (t : Table) (p v : String)
    → fits t p v ≡ true
    → (status_of t v ≡ some production) × (prompt_of t v ≡ some p)
fits_sound t p v h = (
  fits_status (status_of t v) (owns (prompt_of t v) p) h,
  fits_prompt (is_production (status_of t v)) (prompt_of t v) h,
)
  where
    fits_status :
        (o : Option Status) (b : Bool) → (is_production o && b) ≡ true → o ≡ some production
    fits_status none b e = cc
    fits_status (some production) b e = refl
    fits_status (some draft) b e = cc
    fits_status (some candidate) b e = cc
    fits_status (some retired) b e = cc

    fits_prompt : (b : Bool) (o : Option String) → (b && owns o p) ≡ true → o ≡ some p
    fits_prompt false o e = cc
    fits_prompt true none e = cc
    fits_prompt true (some q) e = ap some ((=ₛ_iff q p).0 e)

fits_complete :
    (t : Table) (p v : String)
    → status_of t v ≡ some production
    → prompt_of t v ≡ some p
    → fits t p v ≡ true
fits_complete t p v live own = rw (live, own) (=ₛ-refl p)

pub find_sound :
    (t : Table) (p v : String) (rs : Table)
    → find t p rs ≡ some v
    → (status_of t v ≡ some production) × (prompt_of t v ≡ some p)
unfolding find
find_sound t p v [] h = cc
find_sound t p v (r ∷ rs) h = elim (Bool-cases (fits t p r.id)) [
  | inl e ↦
      let same : r.id ≡ v = found_here e h in
      subst (λ w. (status_of t w ≡ some production) × (prompt_of t w ≡ some p)) same
        (fits_sound t p r.id e)
  | inr e ↦ find_sound t p v rs (rw e at h)
]
  where
    found_here :
        fits t p r.id ≡ true
        → (if fits t p r.id then some r.id else find t p rs) ≡ some v
        → r.id ≡ v
    found_here e k = ground arith

pub find_complete :
    (t : Table) (p v : String) (rs : Table) {q : String}
    → find t p rs ≡ none
    → prompt_of rs v ≡ some q
    → prompt_of t v ≡ some p
    → status_of t v ≢ some production
unfolding find prompt_of
find_complete t p v [] h own own' live = cc
find_complete t p v (r ∷ rs) h own own' live = elim (Bool-cases (fits t p r.id)) [
  | inl e ↦ none_ne e h
  | inr e ↦ elim (Bool-cases (r.id =ₛ v)) [
    | inl same ↦
        let good =
          subst (λ w. fits t p w ≡ true) (sym ((=ₛ_iff r.id v).0 same))
            (fits_complete t p v live own') in
        cc (e, good)
    | inr other ↦ find_complete t p v rs (rw e at h) (rest_prompt r rs v other own) own' live
  ]
]
  where
    none_ne : fits t p r.id ≡ true → (if fits t p r.id then some r.id else find t p rs) ≡ none → ⊥
    none_ne e k = ground arith

-- The table in memory is a store.
abbrev pub table : Store
table = record {
  Db = Table;
  get_status = status_of;
  get_prompt_id = prompt_of;
  get_production_version_id = λ t p. find t p t;
  set_status = set;
  get_status-set_status = status_of-set;
  get_status-set_status_ne = status_of-set_ne;
  get_prompt_id-set_status = prompt_of-set;
  owned = owned;
  production_sound = λ t p v h. find_sound t p v t h;
  production_complete = λ t p v h own. find_complete t p v t h own own;
}
