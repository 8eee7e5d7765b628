-- ===== src/Usecase/Incidents/Frozen.antt =====
-- How incidents freeze the market and release it
-- (internal/usecase/incident, internal/framework/engine/engine.go).
use numflex_sandbox.Prelude.{
  List, Option-cases, [], any, any-append, arith, find?, inl, inr, not, refl, sym, true,
  update_where, ◌&&◌, ◌||◌, ◌∷◌, ◌≡◌,
}
use numflex_sandbox.Entity.Authorization.{Caller}
use numflex_sandbox.Entity.Fault.{Message}
use numflex_sandbox.Entity.Request.{Text, Time}
use numflex_sandbox.Gateway.Incidents.{
  create_incident, get_incident, insert_incident, is_freezing, is_incident, resolve_row, resolved,
}
use numflex_sandbox.Store.Keeps.{Keeps, Keeps-pool, OnOk-Keeps, Stable, keeps_rules}
use numflex_sandbox.Store.Outcomes.{
  OnOk, OnOk-any, OnOk-bind, OnOk-clock_now, OnOk-map_error, OnOk-statement, OnOk-unit_of_work,
}
use numflex_sandbox.Store.Schema.{Db, IncidentRow}
use numflex_sandbox.Store.Session.{Env, World, ok, pool, tx}
use numflex_sandbox.Usecase.Creation.Inputs.{text}
use numflex_sandbox.Usecase.Incidents.{
  DeclareIncidentInput, ResolveIncidentInput, declare_incident, read_incident,
  resolve_in_transaction,
}

insert-frozen :
    (i : IncidentRow) (d : Db)
    → (insert_incident i d).0 ≡ ok tt
    → any is_freezing (insert_incident i d).1.incidents
      ≡ (any is_freezing d.incidents || is_freezing i)
insert-frozen i d h = ground (arith, any-append is_freezing d.incidents i)

-- The market is frozen.
abbrev pub Frozen : Db → Type 0
Frozen d = any is_freezing d.incidents ≡ true

module _ (env : Env) where
  create-Frozen :
      (i : IncidentRow) (w : World)
      → is_freezing i ≡ true
      → OnOk (create_incident env tx i w) (λ _. Frozen)
  unfolding create_incident
  create-Frozen i w h =
      OnOk-map_error _ _ w _
        (OnOk-statement env tx _ w _ (λ now a k. ground (arith, insert-frozen i w.db k)))

  get-Frozen : (id : Text) → Stable env Frozen → Keeps Frozen (get_incident env pool id)
  unfolding get_incident
  get-Frozen id stable = Keeps-pool env _ stable (λ now d p.
      elim (Option-cases (find? (is_incident id) d.incidents)) [
        | inl e ↦ rw e p
        | inr (t, e) ↦ rw e p
      ])

  read-Frozen :
      (id : Text) (text : Message) → Stable env Frozen → Keeps Frozen (read_incident env id text)
  unfolding read_incident
  read-Frozen id text stable = search (keeps_rules, get-Frozen)

  -- Where the other sessions do not release it, the market is frozen after every declaration on
  -- the internal segment that returns.
  pub declare_incident-Frozen :
      (caller : Caller) (i : DeclareIncidentInput) (w : World)
      → Stable env Frozen
      → i.system_locked ≡ true
      → OnOk (declare_incident env caller i w) (λ _. Frozen)
  unfolding declare_incident
  declare_incident-Frozen caller i w stable h =
      OnOk-bind _ _ w (λ _ _. Unit {0}) _ (OnOk-any _)
        (λ type_id w1 _.
          OnOk-bind _ _ w1 (λ _ _. Unit {0}) _ (OnOk-any _)
            (λ _ w2 _.
              OnOk-bind _ _ w2 (λ _ _. Unit {0}) _ (OnOk-any _)
                (λ id w3 _.
                  OnOk-bind _ _ w3 (λ _ _. Unit {0}) _ (OnOk-any _)
                    (λ now w4 _.
                      OnOk-bind _ _ w4 (λ _. Frozen) _
                        (OnOk-map_error _ _ w4 _ (
                          OnOk-unit_of_work env _ w4 _
                            (λ w' e. OnOk-map_error _ _ w' _ (create-Frozen _ w' (rw h refl)))))
                        (λ _ w5 k. OnOk-Keeps Frozen _ w5 (read-Frozen id _ stable) k)))))

any-update_resolved :
    (id comment : Text) (now : Time) (is : List IncidentRow)
    → any is_freezing (update_where (is_incident id) (resolved comment now) is)
      ≡ any (λ x. is_freezing x && not (is_incident id x)) is
any-update_resolved id comment now [] = refl
any-update_resolved id comment now (x ∷ is) = ground (arith, any-update_resolved id comment now is)

-- After the transaction of a resolution that returns, the market is frozen exactly where an open
-- internal incident other than the resolved one stood before it.
pub resolve-frozen :
    (env : Env) (i : ResolveIncidentInput) (w : World)
    → let before = env.others w.calls w.db in
      OnOk (resolve_in_transaction env i w) (λ _ d.
        any is_freezing d.incidents
        ≡ any (λ x. is_freezing x && not (is_incident i.incident_id x)) before.incidents)
unfolding resolve_in_transaction resolve_row
resolve-frozen env i w = OnOk-unit_of_work env _ w _ (λ w' e.
    OnOk-bind _ _ w' (λ _ d. d ≡ env.others w.calls w.db) _ (OnOk-clock_now env _ w' _ (λ now. e))
      (λ now w1 e1. OnOk-map_error _ _ w1 _ (
        OnOk-statement env tx _ w1 _ (λ _ a k.
          rw (sym e1) (any-update_resolved i.incident_id i.comment now w1.db.incidents)))))
