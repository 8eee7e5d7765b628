-- ===== src/Entity/Fault.antt =====
-- internal/entity/fault.go and fault_catalog.go: the one error type and its catalogue.
-- A message is the list of the pieces that the code concatenates or formats.
use numflex_sandbox.Prelude.{List, String, [], ◌∷◌}
use numflex_sandbox.Entity.Request.{RequestStatus, Step, Text}

pub data Piece : Type 0 where
  lit : String → Piece
  step_piece : Step → Piece
  status_piece : RequestStatus → Piece
  text_piece : Text → Piece
  -- the text of an error that the database driver made
  foreign : Piece

abbrev pub Message : Type 0
Message = List Piece

pub data FaultKind : Type 0 where
  fault_validation fault_state fault_access fault_not_found fault_internal : FaultKind

pub record FieldFault : Type 0 where
  pub object_name : String
  pub field : String
  pub message : Message

pub record Fault : Type 0 where
  pub code : String
  pub message : Message
  pub kind : FaultKind
  pub fields : List FieldFault
  pub real_detail : Message

-- `New`
abbrev pub new : FaultKind → String → Message → Fault
new kind code message = record {
  code = code;
  message = message;
  kind = kind;
  fields = [];
  real_detail = [];
}

abbrev pub validation : List FieldFault → Fault
validation fields = record {
  code = "VALIDATION_ECHOUEE";
  message = lit "Un ou plusieurs champs obligatoires sont manquants ou invalides" ∷ [];
  kind = fault_validation;
  fields = fields;
  real_detail = [];
}

abbrev pub detailed : FaultKind → String → String → String → Fault
detailed kind code message detail = record {
  code = code;
  message = lit message ∷ [];
  kind = kind;
  fields = [];
  real_detail = lit detail ∷ [];
}

abbrev pub simple : FaultKind → String → String → Fault
simple kind code message = new kind code (lit message ∷ [])

abbrev pub otp_invalid : Fault
otp_invalid = simple fault_state "OTP_INVALID" "Code OTP incorrect"

abbrev pub otp_expired : Fault
otp_expired =
    detailed fault_state "OTP_EXPIRED" "Code expiré (délai de 5 minutes dépassé)"
      "Le code OTP a expiré"

abbrev pub otp_already_used : Fault
otp_already_used = simple fault_state "OTP_ALREADY_USED" "Code déjà utilisé"

abbrev pub otp_max_attempts : Fault
otp_max_attempts =
    simple fault_state "OTP_MAX_ATTEMPTS" "Nombre maximum de tentatives atteint (3 essais)"

abbrev pub otp_absent : Fault
otp_absent =
    detailed fault_state "OTP_INVALID" "Aucun OTP actif pour ce numéro"
      "Aucun OTP actif pour ce numéro"

abbrev pub number_already_at_recipient : Fault
number_already_at_recipient =
    simple fault_state "NUMERO_DEJA_CHEZ_DESTINATAIRE"
      "Le numéro est déjà chez l'opérateur destinataire"

abbrev pub incorrect_source_operator : Fault
incorrect_source_operator =
    simple fault_state "OPERATEUR_SOURCE_INCORRECT"
      "Le numéro n'appartient pas à l'opérateur source indiqué"

abbrev pub request_already_in_progress_for_number : Fault
request_already_in_progress_for_number =
    simple fault_state "DEMANDE_EN_COURS_POUR_NUMERO" "Demande déjà en cours pour ce numéro"

abbrev pub porting_delay_not_respected : Fault
porting_delay_not_respected =
    detailed fault_state "DELAI_PORTAGE_NON_RESPECTE"
      "Le délai minimum entre deux portages n'est pas respecté" "Unexpected runtime exception"

abbrev pub number_not_ported : Fault
number_not_ported =
    simple fault_state "NUMERO_NON_PORTE"
      "Le numéro n'a pas été porté, pas de restitution/reverse possible"

abbrev pub number_already_restituted : Fault
number_already_restituted =
    simple fault_state "NUMERO_DEJA_RESTITUE" "Ce numéro a déjà été restitué"

abbrev pub restitution_delay_not_respected : Fault
restitution_delay_not_respected =
    detailed fault_state "DELAI_RESTITUTION_NON_RESPECTE"
      "Le délai de 6 mois minimum n'est pas écoulé"
      "400 BAD_REQUEST \"{\"type\":\"https://www.jhipster.tech/problem/problem-with-message\",\"title\":\"Bad Request\",\"status\":400,\"detail\":\"error.numeroRestitutionTooEarly\"}\""

abbrev pub invalid_step : Message → Fault
invalid_step message = new fault_state "ETAPE_INVALIDE" message

abbrev pub rejection_reason_required : Fault
rejection_reason_required =
    simple fault_state "MOTIF_REJET_OBLIGATOIRE"
      "Un motif de rejet est obligatoire pour rejeter une demande"

abbrev pub request_not_found : Fault
request_not_found = simple fault_not_found "DEMANDE_NON_TROUVEE" "Demande introuvable"

abbrev pub request_access_denied : Message → Fault
request_access_denied message = new fault_access "DEMANDE_ACCES_REFUSE" message

abbrev pub incident_not_found : Fault
incident_not_found = simple fault_not_found "DEMANDE_NON_TROUVEE" "Incident introuvable"

abbrev pub fleet_empty : Fault
fleet_empty = simple fault_validation "FLOTTE_VIDE" "La liste des numéros de flotte est vide"

abbrev pub fleet_mixed_operators : Fault
fleet_mixed_operators =
    simple fault_state "FLOTTE_OPERATEURS_MIXTES"
      "Les numéros appartiennent à des opérateurs différents"

abbrev pub no_eligible_number : Fault
no_eligible_number =
    simple fault_state "AUCUN_NUMERO_ELIGIBLE" "Aucun numéro de la flotte n'est éligible au portage"

abbrev pub access_forbidden : Fault
access_forbidden =
    simple fault_access "ACCES_INTERDIT"
      "Token JWT absent, invalide ou expiré. Veuillez vous authentifier à nouveau."

abbrev pub operator_not_found : Fault
operator_not_found =
    simple fault_access "OPERATEUR_NON_TROUVE" "Votre compte n'est pas associé à un opérateur"

abbrev pub validation_failed : Message → Fault
validation_failed message = new fault_validation "VALIDATION_ECHOUEE" message

abbrev pub invalid_json_format : Fault
invalid_json_format =
    simple fault_validation "FORMAT_JSON_INVALIDE" "Le corps de la requête n'est pas un JSON valide"

abbrev pub internal_error : Message → Fault
internal_error message = new fault_internal "ERREUR_INTERNE" message

abbrev pub bad_credentials : Fault
bad_credentials =
    simple fault_access "IDENTIFIANTS_INVALIDES" "Nom d'utilisateur ou mot de passe incorrect"
