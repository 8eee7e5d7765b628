-- ===== src/Usecase/Incidents/Second.antt =====
-- A second internal incident of one operator is refused, whichever of the two tests sees the first
-- (internal/usecase/incident/declare_incident.go,
-- internal/adapter/gateway/postgres/incident_gateway.go).
use numflex_sandbox.Prelude.{
  Bool, Bool-cases, [], any, ap, arith, false, find?, if◌then◌else◌, inl, inr, refl, some, true,
  ◌&&◌, ◌++◌, ◌+◌, ◌==◌, ◌||◌, ◌∙◌, ◌∷◌, ◌≡◌,
}
use numflex_sandbox.Entity.Authorization.{Caller}
use numflex_sandbox.Entity.Errors.{GoError, fault_from, incident_already_open, unique_violation}
use numflex_sandbox.Entity.Incident.{same}
use numflex_sandbox.Entity.Request.{Text}
use numflex_sandbox.Gateway.Incidents.{
  create_incident, has_open, insert_incident, is_freezing, is_incident, type_id_for,
}
use numflex_sandbox.Gateway.Requests.Transitions.{locked}
use numflex_sandbox.Store.Runs.{
  Reliable, bind-err, bind-ok, map_error-err, map_error-ok, statement-eq, statement-ok,
  unit_of_work-err,
}
use numflex_sandbox.Store.Schema.{Db, IncidentRow, IncidentTypeRow}
use numflex_sandbox.Store.Session.{
  Env, World, err, map_error, new_id, now_written, ok, or_fault_from, pool, pure, raise, tx,
  unit_of_work,
}
use numflex_sandbox.Usecase.Incidents.{
  DeclareIncidentInput, already_open, declare_fault, declare_incident, declared_row, refuse_second,
}

-- The operator has an open internal incident.
abbrev pub has_freezing : Text → Db → Bool
has_freezing op d = any (λ x. x.operator_id == op && is_freezing x) d.incidents

module _ (env : Env) (reliable : Reliable env) (caller : Caller) (i : DeclareIncidentInput)
    (w : World) where
  -- The databases that the two reads and the transaction find.
  abbrev pub first_seen : Db
  first_seen = env.others w.calls w.db

  abbrev pub checked_db : Db
  checked_db = env.others (w.calls + 1) first_seen

  abbrev pub begun_db : Db
  begun_db = env.others (w.calls + 1 + 1) checked_db

  abbrev typed : World
  typed = record w { db = first_seen; calls = w.calls + 1 }

  abbrev checked_world : World
  checked_world = record w { db = checked_db; calls = w.calls + 1 + 1 }

  abbrev stamped : World
  stamped = record checked_world { written = w.written ++ (env.clock (w.calls + 1 + 1) ∷ []) }

  abbrev tried_world : World
  tried_world = record stamped { db = begun_db; calls = w.calls + 1 + 1 + 1 + 1 }

  -- The world after the refusal: the check answers without a transaction; where only the unique
  -- index refuses, the transaction is undone.
  abbrev pub refused_world : Bool → World
  refused_world true = checked_world
  refused_world false = tried_world

  typed-eq :
      (t : IncidentTypeRow)
      → find? (λ x. same x.system_locked i.system_locked) first_seen.incident_types ≡ some t
      → type_id_for env pool i.system_locked w ≡ (ok t.id, typed)
  unfolding type_id_for
  typed-eq t e = statement-ok env reliable pool _ w t.id first_seen (rw e refl)

  check-eq :
      (b : Bool)
      → has_freezing caller.operator_id checked_db ≡ b
      → has_open env pool caller.operator_id typed ≡ (ok b, checked_world)
  unfolding has_open
  check-eq b h =
      statement-ok env reliable pool _ typed b checked_db (ap (λ x. (ok x, checked_db)) h)

  insert-eq :
      (r : IncidentRow) (d : Db)
      → is_freezing r ≡ true
      → has_freezing r.operator_id d ≡ true
      → insert_incident r d ≡ (err unique_violation, d)
  insert-eq r d f h = elim (Bool-cases (any (is_incident r.id) d.incidents)) [
    | inl k ↦ rw k refl
    | inr k ↦ rw k (rw f (rw h refl))
  ]

  create-eq :
      (r : IncidentRow) (v : World)
      → is_freezing r ≡ true
      → has_freezing r.operator_id v.db ≡ true
      → create_incident env tx r v ≡ (err incident_already_open, record v { calls = v.calls + 1 })
  unfolding create_incident
  create-eq r v f h =
      map_error-err _ _ v (record v { calls = v.calls + 1 }) unique_violation
        (statement-eq env tx _ v reliable
          ∙ ap (λ x. (x.0, record v { db = x.1; calls = v.calls + 1 })) (insert-eq r v.db f h))

  refuse-eq :
      (b : Bool)
      → has_freezing caller.operator_id checked_db ≡ b
      → refuse_second env caller.operator_id true typed
        ≡ (if b then (err already_open, checked_world) else (ok tt, checked_world))
  unfolding refuse_second raise pure
  refuse-eq true h =
      bind-ok _ _ typed checked_world true
        (map_error-ok _ _ typed checked_world true (check-eq true h))
  refuse-eq false h =
      bind-ok _ _ typed checked_world false
        (map_error-ok _ _ typed checked_world false (check-eq false h))

  -- The row that would be written.
  abbrev row : IncidentTypeRow → IncidentRow
  row t =
      declared_row (env.fresh (w.calls + 1 + 1)) caller.operator_id t.id i
        (env.clock (w.calls + 1 + 1))

  transaction-eq :
      (t : IncidentTypeRow)
      → i.system_locked ≡ true
      → has_freezing caller.operator_id begun_db ≡ true
      → or_fault_from
          (unit_of_work env (map_error declare_fault (create_incident env tx (row t))))
          stamped
        ≡ (err already_open, tried_world)
  unfolding fault_from
  transaction-eq t locked h =
      let v = record stamped { db = begun_db; calls = w.calls + 1 + 1 + 1 } in
      let v' = record stamped { db = begun_db; calls = w.calls + 1 + 1 + 1 + 1 } in
      map_error-err _ _ stamped tried_world (GoError.fault already_open) (
        unit_of_work-err env reliable _ stamped v' (GoError.fault already_open)
          (map_error-err _ _ v v' incident_already_open (create-eq (row t) v locked h)))

  declare-eq :
      (b : Bool) (t : IncidentTypeRow)
      → i.system_locked ≡ true
      → find? (λ x. same x.system_locked i.system_locked) first_seen.incident_types ≡ some t
      → has_freezing caller.operator_id checked_db ≡ b
      → (has_freezing caller.operator_id checked_db || has_freezing caller.operator_id begun_db)
        ≡ true
      → declare_incident env caller i w ≡ (err already_open, refused_world b)
  unfolding declare_incident new_id now_written
  declare-eq true t locked e h k =
      bind-ok _ _ w typed t.id (map_error-ok _ _ w typed t.id (typed-eq t e))
      ∙ bind-err _ _ typed checked_world already_open (rw locked (refuse-eq true h))
  declare-eq false t locked e h k =
      bind-ok _ _ w typed t.id (map_error-ok _ _ w typed t.id (typed-eq t e))
      ∙ bind-ok _ _ typed checked_world tt (rw locked (refuse-eq false h))
      ∙ bind-ok (new_id env) _ checked_world checked_world (env.fresh (w.calls + 1 + 1)) refl
      ∙ bind-ok (now_written env) _ checked_world stamped (env.clock (w.calls + 1 + 1)) refl
      ∙ bind-err _ _ stamped tried_world already_open
          (transaction-eq t locked (ground (arith, h, k)))

  -- An operator that has an open internal incident declares another one, and the driver does not
  -- fail. It gets the fault of an incident already open, whether the check of the interactor sees the
  -- first incident, and then no transaction begins, or the first one is committed by another session
  -- only after the check, and then the unique index stops the transaction, which is undone.
  pub declare_incident-refused :
      (t : IncidentTypeRow)
      → i.system_locked ≡ true
      → find? (λ x. same x.system_locked i.system_locked) first_seen.incident_types ≡ some t
      → (has_freezing caller.operator_id checked_db || has_freezing caller.operator_id begun_db)
        ≡ true
      → declare_incident env caller i w
        ≡ (err already_open, refused_world (has_freezing caller.operator_id checked_db))
  declare_incident-refused t locked e k =
      declare-eq (has_freezing caller.operator_id checked_db) t locked e refl k
