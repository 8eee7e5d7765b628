-- ===== src/Controller/Creation.antt =====
-- The bean validation of the creation routes (internal/adapter/controller/creation_controller.go);
-- the texts of a body are lists of character codes.
pub mod Valid
use numflex_sandbox.Prelude.{
  Bool, List, String, [], false, if◌then◌else◌, suc, true, zero, ℕ, ◌&&◌, ◌++◌, ◌||◌, ◌∷◌,
}
use numflex_sandbox.Entity.Fault.{FieldFault, lit}
use numflex_sandbox.Framework.Text.{codes, is_digit, same_text}

-- `msisdnPattern`, `^[0-9]{9}$` (otp_controller.go)
abbrev pub are_digits : ℕ → List ℕ → Bool
are_digits zero [] = true
are_digits zero (c ∷ cs) = false
are_digits (suc n) [] = false
are_digits (suc n) (c ∷ cs) = is_digit c && are_digits n cs

abbrev pub matches_msisdn : List ℕ → Bool
matches_msisdn = are_digits 9

-- `creationClientDTO`
pub record CreationClientDto : Type 0 where
  pub name : List ℕ
  pub prenom : List ℕ
  pub date_naissance : List ℕ
  pub lieu_naissance : List ℕ
  pub type_piece : List ℕ
  pub id_document_number : List ℕ
  pub company_name : List ℕ
  pub num_rc : List ℕ

-- `individualRequestDTO`
pub record IndividualRequestDto : Type 0 where
  pub msisdn : List ℕ
  pub otp_code : List ℕ
  pub source_operator_id : List ℕ
  pub recipient_operator_id : List ℕ
  pub type_portabilite : List ℕ
  pub client : CreationClientDto

-- `enterpriseRequestDTO`
pub record EnterpriseRequestDto : Type 0 where
  pub fleet_holder_msisdn : List ℕ
  pub otp_code : List ℕ
  pub source_operator_id : List ℕ
  pub recipient_operator_id : List ℕ
  pub type_portabilite : List ℕ
  pub fleet_msisdns : List (List ℕ)
  pub client : CreationClientDto

-- the closure `required`
abbrev pub required : String → String → List ℕ → List FieldFault
required object field [] =
    record { object_name = object; field = field; message = lit "ne doit pas être vide" ∷ [] } ∷ []
required object field (c ∷ cs) = []

abbrev pub required_msisdn : String → String → List ℕ → List FieldFault
required_msisdn object field value =
    if matches_msisdn value
    then []
    else record {
      object_name = object;
      field = field;
      message = lit "doit correspondre à \"^[0-9]{9}$\"" ∷ [];
    }
      ∷ []

abbrev pub is_process : List ℕ → Bool
is_process value = same_text value (codes "PREPAID") || same_text value (codes "POSTPAID")

abbrev pub required_process : String → List ℕ → List FieldFault
required_process object value =
    if is_process value
    then []
    else record {
      object_name = object;
      field = "typePortabilite";
      message = lit "doit valoir PREPAID ou POSTPAID" ∷ [];
    }
      ∷ []

-- the faults that `append` gathers, in order
abbrev pub gathered : List (List FieldFault) → List FieldFault
gathered [] = []
gathered (faults ∷ rest) = faults ++ gathered rest

abbrev pub individual_object : String
individual_object = "demandeParticulierDTO"

abbrev pub enterprise_object : String
enterprise_object = "demandeEntrepriseDTO"

-- the checks of `validateIndividual`, in order
abbrev pub individual_faults : IndividualRequestDto → List (List FieldFault)
individual_faults r =
    required_msisdn individual_object "numero" r.msisdn
    ∷ required individual_object "otpCode" r.otp_code
    ∷ required individual_object "operateurSourceId" r.source_operator_id
    ∷ required individual_object "operateurDestinataireId" r.recipient_operator_id
    ∷ required individual_object "client.nom" r.client.name
    ∷ required individual_object "client.prenom" r.client.prenom
    ∷ required individual_object "client.dateNaissance" r.client.date_naissance
    ∷ required individual_object "client.lieuNaissance" r.client.lieu_naissance
    ∷ required individual_object "client.typePiece" r.client.type_piece
    ∷ required individual_object "client.numeroPiece" r.client.id_document_number
    ∷ required_process individual_object r.type_portabilite
    ∷ []

-- `validateIndividual`
unfoldable pub validate_individual : IndividualRequestDto → List FieldFault
validate_individual r = gathered (individual_faults r)

-- the checks of `validateEnterprise`, in order
abbrev pub enterprise_faults : EnterpriseRequestDto → List (List FieldFault)
enterprise_faults r =
    required_msisdn enterprise_object "numeroPorteurFlotte" r.fleet_holder_msisdn
    ∷ required enterprise_object "otpCode" r.otp_code
    ∷ required enterprise_object "operateurSourceId" r.source_operator_id
    ∷ required enterprise_object "operateurDestinataireId" r.recipient_operator_id
    ∷ required enterprise_object "client.raisonSociale" r.client.company_name
    ∷ required enterprise_object "client.numRC" r.client.num_rc
    ∷ required enterprise_object "client.nom" r.client.name
    ∷ required enterprise_object "client.prenom" r.client.prenom
    ∷ required enterprise_object "client.dateNaissance" r.client.date_naissance
    ∷ required enterprise_object "client.typePiece" r.client.type_piece
    ∷ required enterprise_object "client.numeroPiece" r.client.id_document_number
    ∷ required_process enterprise_object r.type_portabilite
    ∷ []

-- `validateEnterprise`
unfoldable pub validate_enterprise : EnterpriseRequestDto → List FieldFault
validate_enterprise r = gathered (enterprise_faults r)
