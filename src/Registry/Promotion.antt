-- ===== src/Registry/Promotion.antt =====
-- app/registry/promotion.py: the promotion state machine and the rollback of a production version.
--
-- The status store and the eval gate are injected: `Store` is the port, with the behaviour that its
-- documentation states as laws, and the gate is the predicate `is_green`.
pub mod Table
pub mod Effect
pub mod Pointer
pub mod Gate
mod Tests
use atlas_gateway.Common.{
  String, ◌≡◌, ◌≢◌, Bool, true, false, Option, none, some, ◌=ₛ◌, if◌then◌else◌, Result, ok, err,
  not,
}

-- `PromptStatusEnum`.
pub data Status : Type 0 where
  draft candidate production retired : Status

-- `target == current`.
unfoldable pub same : Status → Status → Bool
same draft draft = true
same candidate candidate = true
same production production = true
same retired retired = true
same _ _ = false

-- `_ALLOWED_TRANSITIONS`: each row holds at most one status.
unfoldable pub forward : Status → Option Status
forward draft = some candidate
forward candidate = some production
forward production = none
forward retired = none

abbrev pub demoted_status : Status
demoted_status = candidate

pub data Error : Type 0 where
  unknown_version : (version_id : String) → Error
  illegal_transition : (version_id : String) (current target : Status) → Error
  eval_gate_not_green : (version_id : String) → Error

-- `target in _ALLOWED_TRANSITIONS[current]`.
unfoldable pub in_row : Status → Option Status → Bool
unfolding same
in_row target none = false
in_row target (some s) = same target s

unfoldable pub is_allowed : Status → Status → Bool
unfolding same in_row forward
is_allowed current target =
    if same target current
    then false
    else if same target retired
    then not (same current retired)
    else in_row target (forward current)

-- `PromotionStore`, over a database that the writes change.
pub record Store : Type 1 where
  pub Db : Type 0
  pub get_status : Db → String → Option Status
  pub get_prompt_id : Db → String → Option String
  pub get_production_version_id : Db → String → Option String
  pub set_status : String → Status → Db → Db
  -- What is set for a known version is read back, for that version alone.
  pub get_status-set_status :
      (db : Db) (v : String) (s : Status) {old : Status}
      → get_status db v ≡ some old
      → get_status (set_status v s db) v ≡ some s
  pub get_status-set_status_ne :
      (db : Db) (v w : String) (s : Status)
      → v ≢ w
      → get_status (set_status v s db) w ≡ get_status db w
  -- A status changes no owner, and every version with a status has one.
  pub get_prompt_id-set_status :
      (db : Db) (v w : String) (s : Status)
      → get_prompt_id (set_status v s db) w ≡ get_prompt_id db w
  pub owned :
      (db : Db) (v : String) {s : Status}
      → get_status db v ≡ some s
      → (p : String) × (get_prompt_id db v ≡ some p)
  -- The production version that is found has that status and owner, and if none is found no version
  -- of the prompt has it.
  pub production_sound :
      (db : Db) (p v : String)
      → get_production_version_id db p ≡ some v
      → (get_status db v ≡ some production) × (get_prompt_id db v ≡ some p)
  pub production_complete :
      (db : Db) (p v : String)
      → get_production_version_id db p ≡ none
      → get_prompt_id db v ≡ some p
      → get_status db v ≢ some production

module _ (store : Store) (is_green : String → Bool) where
  open store use {Db, get_status, get_prompt_id, get_production_version_id, set_status}

  unfoldable pub require_status : String → Db → Result Error Status
  require_status version_id db = elim (get_status db version_id) [
    | none ↦ err (unknown_version version_id)
    | some s ↦ ok s
  ]

  unfoldable pub require_eval_green : String → Result Error (Unit {0})
  require_eval_green version_id =
      if is_green version_id then ok tt else err (eval_gate_not_green version_id)

  -- The last step of `_demote_current_production`, with the version in production.
  unfoldable pub demote : String → Db → Option String → Db
  demote incoming db none = db
  demote incoming db (some existing) =
      if existing =ₛ incoming then db else set_status existing demoted_status db

  -- `_demote_current_production` with the owner of the incoming version.
  unfoldable pub demote_in : String → Db → Option String → Result Error (Unit {0}) × Db
  unfolding demote
  demote_in incoming db none = (err (unknown_version incoming), db)
  demote_in incoming db (some prompt_id) =
      (ok tt, demote incoming db (get_production_version_id db prompt_id))

  unfoldable pub demote_current_production : String → Db → Result Error (Unit {0}) × Db
  unfolding demote_in
  demote_current_production incoming db = demote_in incoming db (get_prompt_id db incoming)

  -- The gate, the demotion and the write that put a version into production.
  unfoldable pub flip : String → Db → Result Error (Unit {0}) × Db → Result Error Status × Db
  flip version_id db (err e, db') = (err e, db')
  flip version_id db (ok _, db') = (ok production, set_status version_id production db')

  unfoldable pub to_production : String → Db → Result Error Status × Db
  unfolding flip
  to_production version_id db =
      if is_green version_id
      then flip version_id db (demote_current_production version_id db)
      else (err (eval_gate_not_green version_id), db)

  -- `transition` with the status that was read.
  unfoldable pub move : String → Status → Status → Db → Result Error Status × Db
  move version_id current target db =
      if is_allowed current target
      then if same target production
        then to_production version_id db
        else (ok target, set_status version_id target db)
      else (err (illegal_transition version_id current target), db)

  unfoldable pub transition_from :
      String → Status → Db → Result Error Status → Result Error Status × Db
  transition_from version_id target db (err e) = (err e, db)
  transition_from version_id target db (ok current) = move version_id current target db

  unfoldable pub transition : String → Status → Db → Result Error Status × Db
  unfolding require_status transition_from
  transition version_id target db =
      transition_from version_id target db (require_status version_id db)

  -- `promote` with the status that was read, and with the row of that status.
  unfoldable pub advance : String → Status → Db → Option Status → Result Error Status × Db
  advance version_id current db none = (err (illegal_transition version_id current current), db)
  advance version_id current db (some target) = transition version_id target db

  unfoldable pub promote_from : String → Db → Result Error Status → Result Error Status × Db
  unfolding advance forward
  promote_from version_id db (err e) = (err e, db)
  promote_from version_id db (ok current) = advance version_id current db (forward current)

  unfoldable pub promote : String → Db → Result Error Status × Db
  unfolding promote_from require_status
  promote version_id db = promote_from version_id db (require_status version_id db)

  unfoldable pub retire : String → Db → Result Error Status × Db
  retire version_id db = transition version_id retired db

  -- `rollback` with the status that was read; the code does not look at `prompt_id`.
  unfoldable pub rollback_from : String → Db → Result Error Status → Result Error Status × Db
  rollback_from to_version_id db (err e) = (err e, db)
  rollback_from to_version_id db (ok production) = (ok production, db)
  rollback_from to_version_id db (ok retired) =
      (err (illegal_transition to_version_id retired production), db)
  rollback_from to_version_id db (ok _) = to_production to_version_id db

  unfoldable pub rollback : String → String → Db → Result Error Status × Db
  unfolding rollback_from require_status
  rollback prompt_id to_version_id db =
      rollback_from to_version_id db (require_status to_version_id db)
