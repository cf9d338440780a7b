-- ===== src/Registry/Promotion/Pointer.antt =====
-- What the operations keep: at most one production version for each prompt.
use atlas_gateway.Common.{
  [], ◌∷◌, List, ◌=ₛ◌, =ₛ_iff, ne_of_test, String, ◌≡◌, ◌≢◌, refl, ap, ◌∙◌, sym, Bool, Option, none,
  some, ◌⊎◌, inl, inr, Bool-cases, Result,
}
use atlas_gateway.Registry.Promotion.{
  Status, candidate, production, Error, Store, demote, demoted_status,
}
use atlas_gateway.Registry.Promotion.Effect.{
  Op, target, Effect, refused, kept, moved, flipped, perform, perform-Effect,
}

module _ (store : Store) (is_green : String → Bool) where
  open store use {
    Db, get_status, get_prompt_id, get_production_version_id, set_status, get_status-set_status,
    get_status-set_status_ne, get_prompt_id-set_status, production_sound, production_complete,
    owned,
  }

  -- A prompt has at most one version in production.
  pub record HasOnePointer (db : Db) : Type 0 where
    pub unique :
        (p v w : String)
        → get_prompt_id db v ≡ some p
        → get_prompt_id db w ≡ some p
        → get_status db v ≡ some production
        → get_status db w ≡ some production
        → v ≡ w

  -- The status of a version after a write.
  pub status-set :
      (db : Db) (v w : String) (s : Status) {old : Status}
      → get_status db v ≡ some old
      → ((v ≡ w) × (get_status (set_status v s db) w ≡ some s))
        ⊎ ((v ≢ w) × (get_status (set_status v s db) w ≡ get_status db w))
  status-set db v w s h = elim (Bool-cases (v =ₛ w)) [
    | inl e ↦
        let same = (=ₛ_iff v w).0 e in
        inl (same, ap (get_status (set_status v s db)) (sym same) ∙ get_status-set_status db v s h)
    | inr e ↦ let other = ne_of_test v w e in inr (other, get_status-set_status_ne db v w s other)
  ]

  candidate-ne-production : {o : Option Status} → o ≡ some candidate → o ≢ some production
  candidate-ne-production e h = cc

  -- After the demotion no version of the prompt but the incoming one is in production.
  demoted :
      (db : Db) (p v w : String) (o : Option String)
      → HasOnePointer db
      → get_production_version_id db p ≡ o
      → get_prompt_id db w ≡ some p
      → v ≢ w
      → get_status (demote store is_green v db o) w ≢ some production
  unfolding demote
  demoted db p v w none one e own ne = production_complete db p w e own
  demoted db p v w (some x) one e own ne =
      let (live, owner) = production_sound db p x e in
      elim (Bool-cases (x =ₛ v)) [
        | inl same ↦
            rw same (λ h. ne (sym ((=ₛ_iff x v).0 same) ∙ one.unique p x w owner own live h))
        | inr other ↦ rw other (elim (status-set db x w demoted_status live) [
          | inl (eq, s) ↦ candidate-ne-production s
          | inr (apart, s) ↦ λ h. apart (one.unique p x w owner own live (sym s ∙ h))
        ])
      ]

  -- The demotion puts no version into production.
  pub was_production :
      (db : Db) (p v w : String) (o : Option String)
      → get_production_version_id db p ≡ o
      → get_status (demote store is_green v db o) w ≡ some production
      → get_status db w ≡ some production
  unfolding demote
  was_production db p v w none e = λ h. h
  was_production db p v w (some x) e = elim (Bool-cases (x =ₛ v)) [
    | inl same ↦ rw same (λ h. h)
    | inr other ↦ rw other (elim (status-set db x w demoted_status (production_sound db p x e).0) [
      | inl (eq, s) ↦ λ h. absurd (candidate-ne-production s h)
      | inr (apart, s) ↦ λ h. sym s ∙ h
    ])
  ]

  pub get_prompt_id-demote :
      (db : Db) (v w : String) (o : Option String)
      → get_prompt_id (demote store is_green v db o) w ≡ get_prompt_id db w
  unfolding demote
  get_prompt_id-demote db v w none = refl
  get_prompt_id-demote db v w (some x) = elim (Bool-cases (x =ₛ v)) [
    | inl same ↦ rw same
    | inr other ↦ rw other (get_prompt_id-set_status db x w demoted_status)
  ]

  -- The incoming version keeps its status in the demotion.
  pub get_status-demote_self :
      (db : Db) (v : String) (o : Option String)
      → get_status (demote store is_green v db o) v ≡ get_status db v
  unfolding demote
  get_status-demote_self db v none = refl
  get_status-demote_self db v (some x) = elim (Bool-cases (x =ₛ v)) [
    | inl same ↦ rw same
    | inr other ↦ rw other (get_status-set_status_ne db x v demoted_status (ne_of_test x v other))
  ]

  -- A version in production after a write was the one written, or was in production before.
  pub live-set :
      (db : Db) (v w : String) (s : Status) {old : Status}
      → get_status db v ≡ some old
      → get_status (set_status v s db) w ≡ some production
      → ((v ≡ w) × (s ≡ production)) ⊎ ((v ≢ w) × (get_status db w ≡ some production))
  live-set db v w s h live = elim (status-set db v w s h) [
    | inl (e, t) ↦ inl (e, cc (t, live))
    | inr (ne, t) ↦ inr (ne, sym t ∙ live)
  ]

  moved-HasOnePointer :
      (db : Db) (v : String) (t : Status) {c : Status}
      → HasOnePointer db
      → get_status db v ≡ some c
      → t ≢ production
      → HasOnePointer (set_status v t db)
  moved-HasOnePointer db v t one h ne = record {
    unique = λ p a b oa ob sa sb.
        one.unique p a b (sym (get_prompt_id-set_status db v a t) ∙ oa)
          (sym (get_prompt_id-set_status db v b t) ∙ ob) (before a sa) (before b sb);
  }
    where
      before :
          (w : String)
          → get_status (set_status v t db) w ≡ some production
          → get_status db w ≡ some production
      before w e = elim (live-set db v w t h e) [ inl (eq, s) ↦ absurd (ne s) | inr (apart, s) ↦ s ]

  module _ (db : Db) (v p : String) {c : Status} (one : HasOnePointer db)
      (h : get_status db v ≡ some c) (own : get_prompt_id db v ≡ some p) where
    abbrev demoted_db : Db
    demoted_db = demote store is_green v db (get_production_version_id db p)

    -- The version written, or one that was in production and has another prompt.
    live-flip :
        (w q : String)
        → get_prompt_id (set_status v production demoted_db) w ≡ some q
        → get_status (set_status v production demoted_db) w ≡ some production
        → (v ≡ w) ⊎ ((get_status db w ≡ some production) × (get_prompt_id db w ≡ some q) × (q ≢ p))
    live-flip w q ow live =
        let o = get_production_version_id db p in
        let owner : get_prompt_id db w ≡ some q =
          sym (get_prompt_id-demote db v w o)
          ∙ sym (get_prompt_id-set_status demoted_db v w production)
          ∙ ow in
        elim (live-set demoted_db v w production (get_status-demote_self db v o ∙ h) live) [
          | inl (e, _) ↦ inl e
          | inr (ne, s) ↦ inr (
            was_production db p v w o refl s,
            owner,
            λ e. demoted db p v w o one refl (owner ∙ ap some e) ne s,
          )
        ]

    same_owner :
        (w q : String)
        → v ≡ w
        → get_prompt_id (set_status v production demoted_db) w ≡ some q
        → q ≡ p
    same_owner w q e ow = cc (
      e,
      ow,
      own,
      get_prompt_id-set_status demoted_db v w production,
      get_prompt_id-demote db v w (get_production_version_id db p),
    )

    pub flipped-HasOnePointer : HasOnePointer (set_status v production demoted_db)
    flipped-HasOnePointer = record {
      unique = λ q a b oa ob sa sb. elim (live-flip a q oa sa) [
        | inl va ↦ elim (live-flip b q ob sb) [
          | inl vb ↦ sym va ∙ vb
          | inr (_, _, ne) ↦ absurd (ne (same_owner a q va oa))
        ]
        | inr (la, qa, ne) ↦ elim (live-flip b q ob sb) [
          | inl vb ↦ absurd (ne (same_owner b q vb ob))
          | inr (lb, qb, _) ↦ one.unique q a b qa qb la lb
        ]
      ];
    }

  Effect-HasOnePointer :
      (v : String) (db : Db) {r : Result Error Status × Db}
      → HasOnePointer db
      → Effect store is_green v db r
      → HasOnePointer r.1
  Effect-HasOnePointer v db one (refused e) = one
  Effect-HasOnePointer v db one (kept h) = one
  Effect-HasOnePointer v db one (moved c t h m ne) = moved-HasOnePointer db v t one h ne
  Effect-HasOnePointer v db one (flipped c p h origin g own) =
      flipped-HasOnePointer db v p one h own

  abbrev pub run : List Op → Db → Db
  run [] db = db
  run (op ∷ ops) db = run ops (perform store is_green op db).1

  -- From a database in which no prompt has two versions in production, any sequence of transitions,
  -- promotions, retirements and rollbacks, failing ones included, leads to one.
  pub run-HasOnePointer : (ops : List Op) (db : Db) → HasOnePointer db → HasOnePointer (run ops db)
  run-HasOnePointer [] db one = one
  run-HasOnePointer (op ∷ ops) db one =
      run-HasOnePointer ops (perform store is_green op db).1
        (Effect-HasOnePointer (target op) db one (perform-Effect store is_green op db))
