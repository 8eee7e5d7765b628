-- ===== src/Framework/Seed/Reference.antt =====
-- The reference rows that a start installs (internal/framework/seed/seed.go). The accounts, of which
-- each has the hash of a password, are not modelled: the table of users is outside the database here.
-- `text_of` names a literal, a list of character codes, as the database's texts are named, and an identifier is
-- the number that its hexadecimal digits write.
pub mod Restart
use numflex_sandbox.Prelude.{
  Bool, List, Option, String, [], any, false, if◌then◌else◌, none, some, true, ℕ, ◌++◌, ◌==◌, ◌∷◌,
}
use numflex_sandbox.Entity.Errors.{GoError, unique_violation, wrapped}
use numflex_sandbox.Entity.Fault.{lit}
use numflex_sandbox.Entity.Request.{Text, Time}
use numflex_sandbox.Framework.Seed.{
  Volumes, operator_expresso_id, operator_orange_id, operator_yas_id, seed_numbers,
}
use numflex_sandbox.Framework.Text.{codes}
use numflex_sandbox.Gateway.Requests.Reads.{routing_prefix}
use numflex_sandbox.Store.Schema.{CatalogRow, Db, IncidentTypeRow, OperatorRow, is_catalog_row}
use numflex_sandbox.Store.Session.{
  Env, M, Outcome, err, map_error, ok, pool, pure, statement, ◌>>=◌, ◌>>◌,
}

abbrev pub is_operator_row : Text → OperatorRow → Bool
is_operator_row id o = o.id == id

-- `ON CONFLICT (id) DO NOTHING`
abbrev pub insert_catalog : CatalogRow → List CatalogRow → List CatalogRow
insert_catalog r rs = if any (is_catalog_row r.id) rs then rs else rs ++ (r ∷ [])

abbrev pub is_incident_type : Text → IncidentTypeRow → Bool
is_incident_type id t = t.id == id

abbrev pub insert_incident_type : IncidentTypeRow → List IncidentTypeRow → List IncidentTypeRow
insert_incident_type t ts = if any (is_incident_type t.id) ts then ts else ts ++ (t ∷ [])

-- The same where a second column is unique: a row under another identifier may have the value.
abbrev pub insert_unique : {A : Type 0} → (A → Bool) → (A → Bool) → A → List A → Option (List A)
insert_unique has_id has_value row rows =
    if any has_id rows
    then some rows
    else if any has_value rows
    then none
    else some (rows ++ (row ∷ []))

abbrev pub stored_rows :
    {A : Type 0} → (List A → Db) → Db → Option (List A) → Outcome GoError (Unit {0}) × Db
stored_rows put d none = (err unique_violation, d)
stored_rows put d (some rows) = (ok tt, put rows)

abbrev pub insert_operator : OperatorRow → List OperatorRow → Option (List OperatorRow)
insert_operator o = insert_unique (is_operator_row o.id) (λ x. x.name == o.name) o

abbrev pub insert_named : CatalogRow → List CatalogRow → Option (List CatalogRow)
insert_named r = insert_unique (is_catalog_row r.id) (λ x. x.label == r.label) r

abbrev pub seed_error : String → GoError → GoError
seed_error what e = wrapped (lit what ∷ []) e

abbrev pub put_operator : OperatorRow → Db → Outcome GoError (Unit {0}) × Db
put_operator o d = stored_rows (λ os. record d { operators = os }) d (insert_operator o d.operators)

abbrev pub put_reason : CatalogRow → Db → Outcome GoError (Unit {0}) × Db
put_reason r d = (ok tt, record d { rejection_reasons = insert_catalog r d.rejection_reasons })

abbrev pub put_request_type : CatalogRow → Db → Outcome GoError (Unit {0}) × Db
put_request_type r d =
    stored_rows (λ rs. record d { request_types = rs }) d (insert_named r d.request_types)

abbrev pub put_process : CatalogRow → Db → Outcome GoError (Unit {0}) × Db
put_process r d = stored_rows (λ rs. record d { processes = rs }) d (insert_named r d.processes)

abbrev pub put_incident_type : IncidentTypeRow → Db → Outcome GoError (Unit {0}) × Db
put_incident_type t d =
    (ok tt, record d { incident_types = insert_incident_type t d.incident_types })

module _ (env : Env) where
  -- a loop that inserts the rows of one table, one statement for each
  unfoldable pub seed_rows :
      {A : Type 0}
      → String
      → (A → Db → Outcome GoError (Unit {0}) × Db)
      → List A
      → M GoError (Unit {0})
  seed_rows what insert [] = pure tt
  seed_rows what insert (row ∷ rows) = do
    map_error (seed_error what) (statement env pool (λ now d. insert row d))
    seed_rows what insert rows

module _ (text_of : List ℕ → Text) where
  abbrev pub named : String → Text
  named s = text_of (codes s)

  abbrev operator_of : Text → String → String → OperatorRow
  operator_of id name prefix = record { id = id; name = named name; routing_prefix = named prefix }

  abbrev catalog_of : Text → String → CatalogRow
  catalog_of id label = record { id = id; label = named label }

  -- `operators`
  unfoldable pub seeded_operators : List OperatorRow
  seeded_operators =
      operator_of operator_orange_id "ORANGE" "191"
      ∷ operator_of operator_yas_id "YAS" "192"
      ∷ operator_of operator_expresso_id "EXPRESSO" "193"
      ∷ []

  -- `reasons`
  unfoldable pub seeded_reasons : List CatalogRow
  seeded_reasons =
      catalog_of 0x6a2175c5e6c37b5b5b487edb "Dernier portage inférieur à 3 mois"
      ∷ catalog_of 0x6a2175cfe6c37b5b5b487edc "Erreur sur les infos"
      ∷ catalog_of 0x6a2175d9e6c37b5b5b487edd "Données manquantes"
      ∷ catalog_of 0x6a2175e7e6c37b5b5b487ede "Numéro Inactif"
      ∷ catalog_of 0x6a2175f3e6c37b5b5b487edf "Identité non prouvée"
      ∷ catalog_of 0x6a2175fde6c37b5b5b487ee0 "Engagement en cours dans une demande"
      ∷ []

  -- `types`
  unfoldable pub seeded_request_types : List CatalogRow
  seeded_request_types =
      catalog_of 0x6a217518e6c37b5b5b487ec8 "PORTAGE"
      ∷ catalog_of 0x6a21751be6c37b5b5b487ec9 "RESTITUTION"
      ∷ catalog_of 0x6a21751fe6c37b5b5b487eca "REVERSE"
      ∷ []

  -- `procs`
  unfoldable pub seeded_processes : List CatalogRow
  seeded_processes =
      catalog_of 0x6a217686e6c37b5b5b487ee8 "PREPAID"
      ∷ catalog_of 0x6a217689e6c37b5b5b487ee9 "POSTPAID"
      ∷ []

  -- `incidents`
  unfoldable pub seeded_incident_types : List IncidentTypeRow
  seeded_incident_types =
      record { id = 0x65abc456def001; label = named "Gateway"; system_locked = false }
      ∷ record { id = 0x65abc456def002; label = named "Technique"; system_locked = true }
      ∷ []

  module _ (env : Env) where
    -- `Run`, less the accounts
    unfoldable pub run_seed : (ℕ → Time → Time) → Volumes → M GoError (Unit {0})
    run_seed days_before v = do
      seed_rows env "seed opérateur : " put_operator seeded_operators
      seed_rows env "seed motif : " put_reason seeded_reasons
      seed_rows env "seed type de demande : " put_request_type seeded_request_types
      seed_rows env "seed processus : " put_process seeded_processes
      seed_rows env "seed type d'incident : " put_incident_type seeded_incident_types
      seed_numbers env days_before v
