-- ===== src/Controller/RequestView.antt =====
-- How a request is shown (internal/adapter/controller/request_view.go). A key that the map may lack
-- is an optional field.
pub mod Client
use numflex_sandbox.Prelude.{Bool, List, Option, [], false, none, not, option_map, some, true, ◌∷◌}
use numflex_sandbox.Controller.Instant.{rendered_instant}
use numflex_sandbox.Entity.Request.{
  RequestStatus, RequestType, Step, StepStatus, SubscriberType, Text, Time, is_enterprise,
}
use numflex_sandbox.Gateway.Requests.Reads.{ClientView, RequestView}

-- `{"id": …, "nom": …}`
pub record OperatorDto : Type 0 where
  pub id : Text
  pub nom : Text

pub record ClientDto : Type 0 where
  pub nom : Text
  pub prenom : Text
  pub date_naissance : Text
  pub type_piece : Text
  pub numero_piece : Text
  pub raison_sociale : Option Text
  pub num_rc : Option Text
  pub lieu_naissance : Option Text

-- `processus` and `routageInfo` are null where they are none; `date_finalisation`, `numeros`,
-- `numero` and `client` are absent.
pub record RequestDto : Type 0 where
  pub id : Text
  pub type_abonne : SubscriberType
  pub type_demande : RequestType
  pub statut_demande : RequestStatus
  pub etape_actuelle : Step
  pub statut_etape_actuel : StepStatus
  pub operateur_source : OperatorDto
  pub operateur_destinataire : OperatorDto
  pub date_demande : Time
  pub processus : Option Text
  pub routage_info : Option Text
  pub date_finalisation : Option Time
  pub numeros : Option (List Text)
  pub numero : Option Text
  pub client : Option ClientDto

-- a key that is set under a test
abbrev pub key_if : {A : Type 0} → Bool → A → Option A
key_if true a = some a
key_if false a = none

abbrev pub client_dto : Bool → ClientView → ClientDto
client_dto fleet c = record {
  nom = c.last_name;
  prenom = c.first_name;
  date_naissance = c.birth_date;
  type_piece = c.id_type;
  numero_piece = c.id_number;
  raison_sociale = key_if fleet c.company_name;
  num_rc = key_if fleet c.rc_number;
  lieu_naissance = key_if (not fleet) c.birth_place;
}

-- `requestViewDTO`, on the skew of the clock and the timestamps that the request has written
unfoldable pub request_view_dto : Time → List Time → RequestView → RequestDto
request_view_dto skew written v = record {
  id = v.id;
  type_abonne = v.subscriber_type;
  type_demande = v.request_type;
  statut_demande = v.status;
  etape_actuelle = v.current_step;
  statut_etape_actuel = v.current_step_status;
  operateur_source = record { id = v.source_operator_id; nom = v.source_operator_name };
  operateur_destinataire = record { id = v.recipient_operator_id; nom = v.recipient_operator_name };
  date_demande = rendered_instant (some written) skew v.request_date;
  processus = v.process;
  routage_info = v.routing_info;
  date_finalisation = option_map (rendered_instant (some written) skew) v.completion_date;
  numeros = key_if (is_enterprise v.subscriber_type) v.numbers;
  numero = key_if (not (is_enterprise v.subscriber_type)) v.msisdn;
  client = option_map (client_dto (is_enterprise v.subscriber_type)) v.client;
}

-- `sansClient`
unfoldable pub sans_client : RequestDto → RequestDto
sans_client dto = record dto { client = none }

-- `dtoList`
unfoldable pub dto_list :
    Time → (RequestDto → RequestDto) → List Time → List RequestView → List RequestDto
dto_list skew transform written [] = []
dto_list skew transform written (v ∷ views) =
    transform (request_view_dto skew written v) ∷ dto_list skew transform written views

-- `identity`
abbrev pub identity : RequestDto → RequestDto
identity dto = dto
