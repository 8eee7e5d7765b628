-- ===== src/Controller/Respond.antt =====
-- What the handlers share (internal/adapter/controller): binding a body, the checks of its shape,
-- and rendering an outcome through the presenter.
use numflex_sandbox.Prelude.{List, Option, String, [], if◌then◌else◌, some, ℕ, ◌==◌, ◌∷◌}
use numflex_sandbox.Controller.Creation.{required_msisdn}
use numflex_sandbox.Entity.Authorization.{Caller}
use numflex_sandbox.Entity.Fault.{Fault, FieldFault, invalid_json_format, lit, validation}
use numflex_sandbox.Entity.Request.{Text, Time, empty_text}
use numflex_sandbox.Presenter.{ViewModel}
use numflex_sandbox.Presenter.Modes.{Presenter}
use numflex_sandbox.Store.Session.{M, Outcome, World, err, ok, pure, raise, require}

-- A request as a handler reads it. The body is what the framework's binding makes of the JSON, none
-- where it fails.
pub record Call (B : Type 0) : Type 0 where
  pub path : Text
  pub id : Text
  pub caller : Caller
  pub body : Option B

abbrev pub Handler : Type 0 → Type 0
Handler D = World → ViewModel D × World

-- `if err := c.ShouldBindJSON(&req); err != nil`
abbrev pub bound : {B : Type 0} → Call B → M Fault B
bound c = require c.body invalid_json_format

-- `if req.RequestID == ""`
abbrev pub require_id : String → Text → M Fault (Unit {0})
require_id object id =
    if id == empty_text
    then raise (
        validation (
          record {
            object_name = object;
            field = "idDemande";
            message = lit "ne doit pas être vide" ∷ [];
          }
          ∷ []))
    else pure tt

-- `if fields := …; len(fields) > 0`
abbrev pub check_fields : List FieldFault → M Fault (Unit {0})
check_fields [] = pure tt
check_fields (field ∷ fields) = raise (validation (field ∷ fields))

-- `if !msisdnPattern.MatchString(req.MSISDN)`
abbrev pub require_msisdn : String → List ℕ → M Fault (Unit {0})
require_msisdn object msisdn = check_fields (required_msisdn object "numero" msisdn)

-- The end of a handler: a fault is rendered with the path, a result with its status and its message.
-- What is shown of the result reads the request's written timestamps.
abbrev pub respond :
    {A D : Type 0}
    → Presenter
    → Text
    → ℕ
    → String
    → (List Time → A → D)
    → Outcome Fault A × World
    → ViewModel D × World
respond p path status message show (ok a, w) =
    (p.success status (lit message ∷ []) (show w.written a), w)
respond p path status message show (err f, w) = (p.failure (some f) path, w)

-- The same of the two responses that carry no data.
abbrev pub acknowledge :
    {A : Type 0}
    → Presenter
    → Text
    → String
    → Outcome Fault A × World
    → ViewModel (Unit {0}) × World
acknowledge p path message (ok a, w) = (p.success_without_data 200 (lit message ∷ []), w)
acknowledge p path message (err f, w) = (p.failure (some f) path, w)
