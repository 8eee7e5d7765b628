-- ===== src/Framework/Seed/Reference/Restart.antt =====
-- A start on a database that has its reference rows (internal/framework/seed/seed.go).
use numflex_sandbox.Prelude.{
  Bool, List, String, [], any, ap, if◌then◌else◌, keep, refl, some, true, ℕ, ◌++◌, ◌==◌, ◌∙◌, ◌∷◌,
  ◌≡◌,
}
use numflex_sandbox.Entity.Errors.{GoError}
use numflex_sandbox.Entity.Incident.{same}
use numflex_sandbox.Entity.Request.{Text, Time}
use numflex_sandbox.Framework.Seed.{Volumes}
use numflex_sandbox.Framework.Seed.Pool.{numbers-Keeps}
use numflex_sandbox.Framework.Seed.Reference.{
  insert_unique, is_incident_type, is_operator_row, run_seed, seed_rows, seeded_incident_types,
  seeded_operators, seeded_processes, seeded_reasons, seeded_request_types,
}
use numflex_sandbox.Store.Keeps.{Keeps, Keeps-bind, Keeps-map_error, Keeps-pool, Keeps-pure, Stable}
use numflex_sandbox.Store.Schema.{CatalogRow, Db, IncidentTypeRow, OperatorRow, is_catalog_row}
use numflex_sandbox.Store.Session.{Env, Outcome}

-- Each row has one of its identifier in the table.
abbrev pub Present : {A : Type 0} → (A → A → Bool) → List A → List A → Type 0
Present same [] table = Unit
Present same (row ∷ rows) table = (any (same row) table ≡ true) × Present same rows table

-- What identifies a row of each kind of table.
abbrev pub same_operator : OperatorRow → OperatorRow → Bool
same_operator o = is_operator_row o.id

abbrev pub same_catalog : CatalogRow → CatalogRow → Bool
same_catalog r = is_catalog_row r.id

abbrev pub same_incident_type : IncidentTypeRow → IncidentTypeRow → Bool
same_incident_type t = is_incident_type t.id

-- The reference tables are those of another database.
abbrev pub SameReference : Db → Db → Type 0
SameReference t d =
    (d.operators ≡ t.operators)
    × (d.rejection_reasons ≡ t.rejection_reasons)
    × (d.request_types ≡ t.request_types)
    × (d.processes ≡ t.processes)
    × (d.incident_types ≡ t.incident_types)

module _ (text_of : List ℕ → Text) where
  -- Every row that a start installs is there, under whatever name.
  abbrev pub IsInstalled : Db → Type 0
  IsInstalled t =
      Present same_operator (seeded_operators text_of) t.operators
      × Present same_catalog (seeded_reasons text_of) t.rejection_reasons
      × Present same_catalog (seeded_request_types text_of) t.request_types
      × Present same_catalog (seeded_processes text_of) t.processes
      × Present same_incident_type (seeded_incident_types text_of) t.incident_types

module _ (text_of : List ℕ → Text) (env : Env) (t : Db)
    (stable : Stable env (SameReference t)) where
  abbrev P : Db → Type 0
  P = SameReference t

  rows-Keeps :
      {A : Type 0} (what : String) (same : A → A → Bool)
      (insert : A → Db → Outcome GoError (Unit {0}) × Db) (table rows : List A)
      → ((row : A) (d : Db) → any (same row) table ≡ true → P d → P (insert row d).1)
      → Present same rows table
      → Keeps P (seed_rows env what insert rows)
  unfolding seed_rows
  rows-Keeps what same insert table [] keep h = Keeps-pure tt
  rows-Keeps what same insert table (row ∷ rows) keep h =
      Keeps-bind _ _ (Keeps-map_error _ _ (Keeps-pool env _ stable (λ now d p. keep row d h.0 p)))
        (λ _. rows-Keeps what same insert table rows keep h.1)

  module _ {A : Type 0} (same : A → A → Bool) (row : A) (table : List A)
      (h : any (same row) table ≡ true) where
    abbrev inserted : List A → List A
    inserted xs = if any (same row) xs then xs else xs ++ (row ∷ [])

    unique-same :
        (xs : List A) (has_value : A → Bool)
        → xs ≡ table
        → insert_unique (same row) has_value row xs ≡ some xs
    unique-same xs has_value e = rw (ap (any (same row)) e ∙ h) refl

    inserted-same : (xs : List A) → xs ≡ table → inserted xs ≡ table
    inserted-same xs e = ap inserted e ∙ rw h refl

  -- On a database that holds a row of each identifier that a start installs, a start leaves the
  -- reference tables exactly as they are, rows edited since included, whether it succeeds or fails,
  -- where the other sessions leave them so.
  pub run_seed-SameReference :
      (days_before : ℕ → Time → Time) (v : Volumes)
      → IsInstalled text_of t
      → Keeps P (run_seed text_of env days_before v)
  unfolding run_seed
  run_seed-SameReference days_before v h =
      Keeps-bind _ _
        (rows-Keeps _ same_operator _ t.operators _
          (λ o d k p.
            rw (unique-same same_operator o t.operators k d.operators (λ x. x.name == o.name) p.0)
              p)
          h.0)
        (λ _.
          Keeps-bind _ _
            (rows-Keeps _ same_catalog _ t.rejection_reasons _
              (λ r d k p. (
                p.0,
                inserted-same same_catalog r t.rejection_reasons k d.rejection_reasons p.1,
                p.2,
                p.3,
                p.4,
              ))
              h.1)
            (λ _.
              Keeps-bind _ _
                (rows-Keeps _ same_catalog _ t.request_types _
                  (λ r d k p.
                    rw
                      (unique-same same_catalog r t.request_types k d.request_types
                        (λ x. x.label == r.label) p.2)
                      p)
                  h.2)
                (λ _.
                  Keeps-bind _ _
                    (rows-Keeps _ same_catalog _ t.processes _
                      (λ r d k p.
                        rw
                          (unique-same same_catalog r t.processes k d.processes
                            (λ x. x.label == r.label) p.3)
                          p)
                      h.3)
                    (λ _.
                      Keeps-bind _ _
                        (rows-Keeps _ same_incident_type _ t.incident_types _
                          (λ i d k p. (
                            p.0,
                            p.1,
                            p.2,
                            p.3,
                            inserted-same same_incident_type i t.incident_types k d.incident_types
                                p.4,
                          ))
                          h.4)
                        (λ _. numbers-Keeps env days_before P stable (λ n d p. p) v)))))
