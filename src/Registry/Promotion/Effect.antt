-- ===== src/Registry/Promotion/Effect.antt =====
-- What an operation does, as one of four effects: the specification of promotion.py.
use atlas_gateway.Common.{
  Option-cases, String, ◌≡◌, ◌≢◌, refl, Bool, true, false, Option, none, some, ◌↔◌, ◌⊎◌, inl, inr,
  arith, Bool-cases, Result, ok, err,
}
use atlas_gateway.Registry.Promotion.{
  illegal_transition, Status, draft, candidate, production, retired, Error, eval_gate_not_green,
  unknown_version, Store, same, forward, is_allowed, require_status, demote,
  demote_current_production, to_production, move, transition, promote, advance, retire,
  rollback_from, rollback,
}

-- The life cycle: the edges of the diagram.
pub data Move : Status → Status → Type 0 where
  nominate : Move draft candidate
  release : Move candidate production
  retire_draft : Move draft retired
  retire_candidate : Move candidate retired
  retire_production : Move production retired

-- The table of the code allows exactly the moves of the life cycle.
pub is_allowed-Move : (c t : Status) → (is_allowed c t ≡ true) ↔ Move c t
unfolding is_allowed
is_allowed-Move c t = (to c t, from)
  where
    to : (c t : Status) → is_allowed c t ≡ true → Move c t
    to draft candidate h = nominate
    to candidate production h = release
    to draft retired h = retire_draft
    to candidate retired h = retire_candidate
    to production retired h = retire_production
    to draft draft h = cc
    to draft production h = cc
    to candidate draft h = cc
    to candidate candidate h = cc
    to production draft h = cc
    to production candidate h = cc
    to production production h = cc
    to retired draft h = cc
    to retired candidate h = cc
    to retired production h = cc
    to retired retired h = cc

    from : {c t : Status} → Move c t → is_allowed c t ≡ true
    from nominate = refl
    from release = refl
    from retire_draft = refl
    from retire_candidate = refl
    from retire_production = refl

same-production : (t : Status) → same t production ≡ true → t ≡ production
unfolding same
same-production t h = ground arith

not-same-production : (t : Status) → same t production ≡ false → t ≢ production
unfolding same
not-same-production t h = ground arith

before_release : {c t : Status} → Move c t → t ≡ production → c ≡ candidate
before_release nominate e = cc
before_release release e = refl
before_release retire_draft e = cc
before_release retire_candidate e = cc
before_release retire_production e = cc

-- The operations of the service.
pub data Op : Type 0 where
  transition_to : String → Status → Op
  promotion retirement : String → Op
  rollback_to : (prompt_id version_id : String) → Op

-- The version that an operation is for.
abbrev pub target : Op → String
target (transition_to v t) = v
target (promotion v) = v
target (retirement v) = v
target (rollback_to p v) = v

module _ (store : Store) (is_green : String → Bool) where
  open store use {Db, get_status, get_prompt_id, get_production_version_id, set_status, owned}

  pub data Effect (v : String) (db : Db) : Result Error Status × Db → Type 0 where
    -- An error, and nothing is written.
    refused : (e : Error) → Effect v db (err e, db)
    -- The version is in production already.
    kept : get_status db v ≡ some production → Effect v db (ok production, db)
    -- A move of the life cycle that is not into production.
    moved :
        (c t : Status)
        → get_status db v ≡ some c
        → Move c t
        → t ≢ production
        → Effect v db (ok t, set_status v t db)
    -- The gate is green, the version in production before is demoted and this one is released.
    flipped :
        (c : Status) (p : String)
        → get_status db v ≡ some c
        → (c ≡ draft) ⊎ (c ≡ candidate)
        → is_green v ≡ true
        → get_prompt_id db v ≡ some p
        → Effect v db (
          ok production,
          set_status v production (demote store is_green v db (get_production_version_id db p)),
        )

  abbrev pub perform : Op → Db → Result Error Status × Db
  perform (transition_to v t) db = transition store is_green v t db
  perform (promotion v) db = promote store is_green v db
  perform (retirement v) db = retire store is_green v db
  perform (rollback_to p v) db = rollback store is_green p v db

  to_production-Effect :
      (v : String) (db : Db) (c : Status)
      → get_status db v ≡ some c
      → (c ≡ draft) ⊎ (c ≡ candidate)
      → Effect v db (to_production store is_green v db)
  unfolding to_production demote_current_production
  to_production-Effect v db c h origin =
      let (p, own) = owned db v h in
      elim (Bool-cases (is_green v)) [
        | inl g ↦ rw (g, own) (flipped c p h origin g own)
        | inr g ↦ rw g (refused (eval_gate_not_green v))
      ]

  move-Effect :
      (v : String) (db : Db) (c t : Status)
      → get_status db v ≡ some c
      → Effect v db (move store is_green v c t db)
  unfolding move
  move-Effect v db c t h = elim (Bool-cases (is_allowed c t)) [
    | inr no_edge ↦ rw no_edge (refused (illegal_transition v c t))
    | inl edge ↦
        let m = (is_allowed-Move c t).0 edge in
        elim (Bool-cases (same t production)) [
          | inl e ↦
              rw (edge, e)
                (to_production-Effect v db c h (inr (before_release m (same-production t e))))
          | inr e ↦ rw (edge, e) (moved c t h m (not-same-production t e))
        ]
  ]

  -- `require_status` answers by the status.
  require_status-eq :
      (v : String) (db : Db)
      → ((get_status db v ≡ none) × (require_status store is_green v db ≡ err (unknown_version v)))
        ⊎ ((c : Status) × (get_status db v ≡ some c) × (require_status store is_green v db ≡ ok c))
  unfolding require_status
  require_status-eq v db = elim (Option-cases (get_status db v)) [
    | inl e ↦ inl (e, ground arith)
    | inr (c, e) ↦ inr (c, e, ground arith)
  ]

  transition-Effect :
      (v : String) (t : Status) (db : Db) → Effect v db (transition store is_green v t db)
  unfolding transition
  transition-Effect v t db = elim (require_status-eq v db) [
    | inl (e, r) ↦ rw r (refused (unknown_version v))
    | inr (c, e, r) ↦ rw r (move-Effect v db c t e)
  ]

  advance-Effect :
      (v : String) (c : Status) (db : Db) (o : Option Status)
      → Effect v db (advance store is_green v c db o)
  unfolding advance
  advance-Effect v c db none = refused (illegal_transition v c c)
  advance-Effect v c db (some t) = transition-Effect v t db

  promote-Effect : (v : String) (db : Db) → Effect v db (promote store is_green v db)
  unfolding promote
  promote-Effect v db = elim (require_status-eq v db) [
    | inl (e, r) ↦ rw r (refused (unknown_version v))
    | inr (c, e, r) ↦ rw r (advance-Effect v c db (forward c))
  ]

  rollback_from-Effect :
      (v : String) (db : Db) (c : Status)
      → get_status db v ≡ some c
      → Effect v db (rollback_from store is_green v db (ok c))
  unfolding rollback_from
  rollback_from-Effect v db draft e = to_production-Effect v db draft e (inl refl)
  rollback_from-Effect v db candidate e = to_production-Effect v db candidate e (inr refl)
  rollback_from-Effect v db production e = kept e
  rollback_from-Effect v db retired e = refused (illegal_transition v retired production)

  rollback-Effect : (p v : String) (db : Db) → Effect v db (rollback store is_green p v db)
  unfolding rollback
  rollback-Effect p v db = elim (require_status-eq v db) [
    | inl (e, r) ↦ rw r (refused (unknown_version v))
    | inr (c, e, r) ↦ rw r (rollback_from-Effect v db c e)
  ]

  -- Every operation has one of the four effects on the version that it is for.
  pub perform-Effect : (op : Op) (db : Db) → Effect (target op) db (perform op db)
  unfolding retire
  perform-Effect (transition_to v t) db = transition-Effect v t db
  perform-Effect (promotion v) db = promote-Effect v db
  perform-Effect (retirement v) db = transition-Effect v retired db
  perform-Effect (rollback_to p v) db = rollback-Effect p v db
