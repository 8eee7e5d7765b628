-- ===== src/Store/Schema.antt =====
-- The tables of migrations/0001_init.up.sql and 0002_demande_numero_position.up.sql: a table is a
-- list of rows, in insertion order. A column that no modelled statement reads back is left out:
-- `cree_le` of otp, `actif` of numero, the serial key of etape_historique.
use numflex_sandbox.Prelude.{
  Bool, List, Option, any, find?, if◌then◌else◌, none, some, update_where, ℕ, ◌==◌,
}
use numflex_sandbox.Entity.Fault.{Message}
use numflex_sandbox.Entity.Request.{
  RequestStatus, RequestType, Step, StepStatus, SubscriberType, Text, Time, empty_text,
}

pub record OperatorRow : Type 0 where
  pub id : Text
  pub name : Text
  pub routing_prefix : Text

-- numero
pub record NumberRow : Type 0 where
  pub msisdn : Text
  pub current_operator_id : Text
  pub origin_operator_id : Text
  pub last_porting_date : Option Time
  pub already_restituted : Bool

-- demande
pub record RequestRow : Type 0 where
  pub id : Text
  pub msisdn : Text
  pub subscriber_type : SubscriberType
  pub request_type : RequestType
  pub status : RequestStatus
  pub current_step : Step
  pub current_step_status : StepStatus
  pub source_operator_id : Text
  pub recipient_operator_id : Text
  pub creator_operator_id : Text
  pub process : Option Text
  pub routing_info : Option Text
  pub request_date : Time
  pub step_start : Time
  -- transition_prevue_a
  pub transition_due : Option Time
  pub completion_date : Option Time
  pub rejection_reason_id : Option Text
  pub comment : Option Text

-- demande_numero; its status is EN_COURS or REJETE
pub record RequestNumberRow : Type 0 where
  pub request_id : Text
  pub msisdn : Text
  pub is_rejected : Bool
  pub rejection_reason_id : Option Text
  pub is_excluded : Bool
  pub exclusion_reason : Message
  pub exclusion_code : Message
  pub routing_info : Option Text
  pub position : ℕ

-- demande_client
pub record ClientRow : Type 0 where
  pub request_id : Text
  pub last_name : Text
  pub first_name : Text
  pub birth_date : Text
  pub birth_place : Text
  pub id_type : Text
  pub id_number : Text
  pub company_name : Option Text
  pub rc_number : Option Text

pub data Origin : Type 0 where
  action expiration : Origin

-- etape_historique
pub record HistoryRow : Type 0 where
  pub request_id : Text
  pub step : Step
  pub status : StepStatus
  pub operator_id : Option Text
  pub origin : Origin
  pub comment : Option Text
  pub started : Time
  pub ended : Time

pub record ConfirmationRow : Type 0 where
  pub request_id : Text
  pub operator_id : Text
  pub comment : Option Text
  pub confirmed_at : Time

-- otp
pub record OneTimePassword : Type 0 where
  pub msisdn : Text
  pub code : Text
  pub expires_at : Time
  pub attempts : ℕ
  pub consumed : Bool

pub data ReverseStatus : Type 0 where
  pending validated refused : ReverseStatus

-- reverse_request
pub record ReverseRow : Type 0 where
  pub id : Text
  pub msisdn : Text
  pub operator_id : Text
  pub status : ReverseStatus
  pub request_date : Time
  pub decided_at : Option Time
  pub request_id : Option Text

-- motif_rejet, type_demande and processus: an identifier and what it names
pub record CatalogRow : Type 0 where
  pub id : Text
  pub label : Text

abbrev pub is_catalog_row : Text → CatalogRow → Bool
is_catalog_row id r = r.id == id

pub record IncidentTypeRow : Type 0 where
  pub id : Text
  pub label : Text
  pub system_locked : Bool

pub record IncidentRow : Type 0 where
  pub id : Text
  pub operator_id : Text
  pub type_id : Text
  pub system_locked : Bool
  pub description : Text
  pub is_open : Bool
  pub opened_at : Time
  pub resolved_at : Option Time
  pub resolution : Option Text

pub record Db : Type 0 where
  pub operators : List OperatorRow
  pub rejection_reasons : List CatalogRow
  pub request_types : List CatalogRow
  pub processes : List CatalogRow
  pub incident_types : List IncidentTypeRow
  pub numbers : List NumberRow
  pub requests : List RequestRow
  pub request_numbers : List RequestNumberRow
  pub clients : List ClientRow
  pub history : List HistoryRow
  pub confirmations : List ConfirmationRow
  pub otps : List OneTimePassword
  pub reverses : List ReverseRow
  pub incidents : List IncidentRow

-- NULLIF(x, '')
abbrev pub nullif : Text → Option Text
nullif x = if x == empty_text then none else some x

abbrev pub is_request : Text → RequestRow → Bool
is_request id r = r.id == id

abbrev pub find_request : Text → Db → Option RequestRow
find_request id d = find? (is_request id) d.requests

abbrev pub update_request : Text → (RequestRow → RequestRow) → Db → Db
update_request id f d = record d { requests = update_where (is_request id) f d.requests }

abbrev pub has_operator : Text → Db → Bool
has_operator id d = any (λ o. o.id == id) d.operators
