-- ===== src/Registry/Promotion/Gate.antt =====
-- What puts a version into production: the eval gate, the flip of the pointer, and what stays.
use atlas_gateway.Common.{
  arith, Option-cases, ◌=ₛ◌, String, ◌≡◌, ◌≢◌, refl, ap, ◌∙◌, sym, Bool, true, Option, none, some,
  ◌⊎◌, inl, inr, Bool-cases, Result, ok, err,
}
use atlas_gateway.Registry.Promotion.{
  illegal_transition, is_allowed, to_production, demote_current_production, is_allowed, move,
  rollback, transition, Status, draft, candidate, production, retired, Error, Store, demote,
  demoted_status,
}
use atlas_gateway.Registry.Promotion.Effect.{
  rollback_to, transition_to, Move, nominate, release, retire_draft, retire_candidate,
  retire_production, Op, target, Effect, refused, kept, moved, flipped, perform, perform-Effect,
}
use atlas_gateway.Registry.Promotion.Pointer.{
  flipped-HasOnePointer, was_production, live-set, get_prompt_id-demote, status-set,
  get_status-demote_self, HasOnePointer,
}

from_retired : {c t : Status} → Move c t → c ≢ retired
from_retired nominate e = cc
from_retired release e = cc
from_retired retire_draft e = cc
from_retired retire_candidate e = cc
from_retired retire_production e = cc

origin_live : {c : Status} → (c ≡ draft) ⊎ (c ≡ candidate) → c ≢ retired
origin_live (inl e) h = cc
origin_live (inr e) h = cc

ok_inj : {s t : Status} → ◌≡◌ {A = Result Error Status} (ok s) (ok t) → s ≡ t
ok_inj e = cc

module _ (store : Store) (is_green : String → Bool) where
  open store use {
    Db, get_status, get_prompt_id, get_production_version_id, set_status, get_status-set_status,
    get_status-set_status_ne, get_prompt_id-set_status, production_sound, production_complete,
    owned,
  }

  gated :
      (v : String) (db : Db) (w : String) {r : Result Error Status × Db}
      → get_status db w ≢ some production
      → Effect store is_green v db r
      → get_status r.1 w ≡ some production
      → (w ≡ v) × (is_green w ≡ true)
  gated v db w before (refused e) after = absurd (before after)
  gated v db w before (kept h) after = absurd (before after)
  gated v db w before (moved c t h m ne) after = elim (live-set store is_green db v w t h after) [
    | inl (e, s) ↦ absurd (ne s)
    | inr (apart, s) ↦ absurd (before s)
  ]
  gated v db w before (flipped c p h origin g own) after =
      let o = get_production_version_id db p in
      elim (live-set store is_green _ v w production
        (get_status-demote_self store is_green db v o ∙ h) after) [
          | inl (e, s) ↦ (sym e, ap is_green (sym e) ∙ g)
          | inr (apart, s) ↦ absurd (before (was_production store is_green db p v w o refl s))
        ]

  unchanged :
      (v : String) (db : Db) (x : Error) {r : Result Error Status × Db}
      → Effect store is_green v db r
      → r.0 ≡ err x
      → r.1 ≡ db
  unchanged v db x (refused e) h = refl
  unchanged v db x (kept s) h = refl
  unchanged v db x (moved c t s m ne) h = cc
  unchanged v db x (flipped c p s origin g own) h = cc

  -- An operation that puts a version into production is for that version, and the eval gate of the
  -- version is green.
  pub production_gated :
      (op : Op) (db : Db) (w : String)
      → get_status db w ≢ some production
      → get_status (perform store is_green op db).1 w ≡ some production
      → (w ≡ target op) × (is_green w ≡ true)
  production_gated op db w before after =
      gated (target op) db w before (perform-Effect store is_green op db) after

  retired-demote :
      (db : Db) (p v w : String) (o : Option String)
      → get_production_version_id db p ≡ o
      → get_status db w ≡ some retired
      → get_status (demote store is_green v db o) w ≡ some retired
  unfolding demote
  retired-demote db p v w none e h = h
  retired-demote db p v w (some x) e h = elim (Bool-cases (x =ₛ v)) [
    | inl same ↦ rw same h
    | inr other ↦
        rw other
          (elim (status-set store is_green db x w demoted_status (production_sound db p x e).0) [
            | inl (eq, s) ↦ cc (ap (get_status db) eq, h, (production_sound db p x e).0)
            | inr (apart, s) ↦ s ∙ h
          ])
  ]

  kept_retired :
      (v : String) (db : Db) (w : String) {r : Result Error Status × Db}
      → get_status db w ≡ some retired
      → Effect store is_green v db r
      → get_status r.1 w ≡ some retired
  kept_retired v db w h (refused e) = h
  kept_retired v db w h (kept s) = h
  kept_retired v db w h (moved c t s m ne) = elim (status-set store is_green db v w t s) [
    | inl (e, _) ↦ absurd (from_retired m (cc (s, h, ap (get_status db) e)))
    | inr (apart, same) ↦ same ∙ h
  ]
  kept_retired v db w h (flipped c p s origin g own) =
      let o = get_production_version_id db p in
      elim (status-set store is_green _ v w production
        (get_status-demote_self store is_green db v o ∙ s)) [
          | inl (e, _) ↦ absurd (origin_live origin (cc (s, h, ap (get_status db) e)))
          | inr (apart, same) ↦ same ∙ retired-demote db p v w o refl h
        ]

  -- An operation that raises has written nothing.
  pub error_unchanged :
      (op : Op) (db : Db) (e : Error)
      → (perform store is_green op db).0 ≡ err e
      → (perform store is_green op db).1 ≡ db
  error_unchanged op db e h = unchanged (target op) db e (perform-Effect store is_green op db) h

  -- A retired version stays retired, whatever the operation.
  pub retired_stays :
      (op : Op) (db : Db) (w : String)
      → get_status db w ≡ some retired
      → get_status (perform store is_green op db).1 w ≡ some retired
  retired_stays op db w h = kept_retired (target op) db w h (perform-Effect store is_green op db)

  pointer_of_production :
      (db : Db) (p v : String)
      → HasOnePointer store is_green db
      → get_status db v ≡ some production
      → get_prompt_id db v ≡ some p
      → get_production_version_id db p ≡ some v
  pointer_of_production db p v one live own = elim (Option-cases (get_production_version_id db p)) [
    | inl e ↦ absurd (production_complete db p v e own live)
    | inr (w, e) ↦
        let (live', own') = production_sound db p w e in
        e ∙ ap some (one.unique p w v own' own live' live)
  ]

  pointed :
      (v : String) (db : Db) (p : String) {r : Result Error Status × Db}
      → HasOnePointer store is_green db
      → get_prompt_id db v ≡ some p
      → Effect store is_green v db r
      → r.0 ≡ ok production
      → get_production_version_id r.1 p ≡ some v
  pointed v db p one own (refused e) h = cc
  pointed v db p one own (kept live) h = pointer_of_production db p v one live own
  pointed v db p one own (moved c t s m ne) h = absurd (ne (ok_inj h))
  pointed v db p one own (flipped c q s origin g own') h =
      let o = get_production_version_id db q in
      pointer_of_production _ p v (flipped-HasOnePointer store is_green db v q one s own')
        (get_status-set_status _ v production (get_status-demote_self store is_green db v o ∙ s))
        (get_prompt_id-set_status _ v v production
          ∙ get_prompt_id-demote store is_green db v v o
          ∙ own)

  -- A transition, promotion or rollback that returns production has flipped the pointer: the
  -- production version of the prompt that owns the version is then this version.
  pub pointer_flips :
      (op : Op) (db : Db) (p : String)
      → HasOnePointer store is_green db
      → get_prompt_id db (target op) ≡ some p
      → (perform store is_green op db).0 ≡ ok production
      → get_production_version_id (perform store is_green op db).1 p ≡ some (target op)
  pointer_flips op db p one own h =
      pointed (target op) db p one own (perform-Effect store is_green op db) h

  put_there :
      (v : String) (db : Db) {r : Result Error Status × Db}
      → Effect store is_green v db r
      → r.0 ≡ ok production
      → get_status r.1 v ≡ some production
  put_there v db (refused e) h = cc
  put_there v db (kept live) h = live
  put_there v db (moved c t s m ne) h = absurd (ne (ok_inj h))
  put_there v db (flipped c p s origin g own) h =
      let o = get_production_version_id db p in
      get_status-set_status _ v production (get_status-demote_self store is_green db v o ∙ s)

  skips_candidate :
      (q v : String) (db : Db)
      → get_status db v ≡ some draft
      → is_green v ≡ true
      → ((perform store is_green (transition_to v production) db).0
          ≡ err (illegal_transition v draft production))
        × ((perform store is_green (rollback_to q v) db).0 ≡ ok production)
  unfolding transition rollback move is_allowed to_production demote_current_production
  skips_candidate q v db h g = let (p, own) = owned db v h in (ground arith, ground (arith, own))

  -- A draft with a green gate cannot be moved to production by a transition, which raises and writes
  -- nothing; a rollback to it, whatever prompt the rollback names, returns production, and the
  -- version has that status in the database afterwards.
  pub rollback_skips_candidate :
      (q v : String) (db : Db)
      → get_status db v ≡ some draft
      → is_green v ≡ true
      → ((perform store is_green (transition_to v production) db).0
          ≡ err (illegal_transition v draft production))
        × ((perform store is_green (transition_to v production) db).1 ≡ db)
        × ((perform store is_green (rollback_to q v) db).0 ≡ ok production)
        × (get_status (perform store is_green (rollback_to q v) db).1 v ≡ some production)
  rollback_skips_candidate q v db h g =
      let (raises, returns) = skips_candidate q v db h g in
      (
        raises,
        error_unchanged (transition_to v production) db _ raises,
        returns,
        put_there v db (perform-Effect store is_green (rollback_to q v) db) returns,
      )
