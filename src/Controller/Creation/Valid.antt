-- ===== src/Controller/Creation/Valid.antt =====
-- What passes the bean validation (internal/adapter/controller/creation_controller.go).
use numflex_sandbox.Prelude.{List, String, [], arith, refl, true, ℕ, ◌↔◌, ◌∷◌, ◌≡◌, ◌≢◌}
use numflex_sandbox.Controller.Creation.{
  CreationClientDto, EnterpriseRequestDto, IndividualRequestDto, enterprise_faults,
  enterprise_object, gathered, individual_faults, individual_object, is_process, matches_msisdn,
  required, required_msisdn, required_process, validate_enterprise, validate_individual,
}
use numflex_sandbox.Entity.Fault.{FieldFault}

abbrev AllNil : List (List FieldFault) → Type 0
AllNil [] = Unit
AllNil (faults ∷ rest) = (faults ≡ []) × AllNil rest

gathered-nil : (faults : List (List FieldFault)) → gathered faults ≡ [] → AllNil faults
gathered-nil [] h = tt
gathered-nil ([] ∷ rest) h = (refl, gathered-nil rest h)
gathered-nil ((f ∷ faults) ∷ rest) h = cc

nil-gathered : (faults : List (List FieldFault)) → AllNil faults → gathered faults ≡ []
nil-gathered [] h = refl
nil-gathered ([] ∷ rest) h = nil-gathered rest h.1
nil-gathered ((f ∷ faults) ∷ rest) h = cc

required-nil :
    (object field : String) (value : List ℕ) → (required object field value ≡ []) ↔ (value ≢ [])
required-nil object field [] = ground arith
required-nil object field (c ∷ cs) = ground arith

required_msisdn-nil :
    (object field : String) (value : List ℕ)
    → (required_msisdn object field value ≡ []) ↔ (matches_msisdn value ≡ true)
required_msisdn-nil object field value = ground arith

required_process-nil :
    (object : String) (value : List ℕ)
    → (required_process object value ≡ []) ↔ (is_process value ≡ true)
required_process-nil object value = ground arith

-- The parts of a person that both routes require.
abbrev pub HasPerson : CreationClientDto → Type 0
HasPerson c =
    (c.name ≢ [])
    × (c.prenom ≢ [])
    × (c.date_naissance ≢ [])
    × (c.type_piece ≢ [])
    × (c.id_document_number ≢ [])

abbrev pub IsIndividual : IndividualRequestDto → Type 0
IsIndividual r =
    (matches_msisdn r.msisdn ≡ true)
    × (is_process r.type_portabilite ≡ true)
    × (r.otp_code ≢ [])
    × (r.source_operator_id ≢ [])
    × (r.recipient_operator_id ≢ [])
    × HasPerson r.client
    × (r.client.lieu_naissance ≢ [])

abbrev pub IsEnterprise : EnterpriseRequestDto → Type 0
IsEnterprise e =
    (matches_msisdn e.fleet_holder_msisdn ≡ true)
    × (is_process e.type_portabilite ≡ true)
    × (e.otp_code ≢ [])
    × (e.source_operator_id ≢ [])
    × (e.recipient_operator_id ≢ [])
    × HasPerson e.client
    × (e.client.company_name ≢ [])
    × (e.client.num_rc ≢ [])

validate_individual_iff : (r : IndividualRequestDto) → (validate_individual r ≡ []) ↔ IsIndividual r
unfolding validate_individual
validate_individual_iff r = grind (
  arith,
  gathered-nil (individual_faults r),
  nil-gathered (individual_faults r),
  required_msisdn-nil individual_object "numero" r.msisdn,
  required-nil individual_object "otpCode" r.otp_code,
  required-nil individual_object "operateurSourceId" r.source_operator_id,
  required-nil individual_object "operateurDestinataireId" r.recipient_operator_id,
  required-nil individual_object "client.nom" r.client.name,
  required-nil individual_object "client.prenom" r.client.prenom,
  required-nil individual_object "client.dateNaissance" r.client.date_naissance,
  required-nil individual_object "client.lieuNaissance" r.client.lieu_naissance,
  required-nil individual_object "client.typePiece" r.client.type_piece,
  required-nil individual_object "client.numeroPiece" r.client.id_document_number,
  required_process-nil individual_object r.type_portabilite,
)

validate_enterprise_iff : (e : EnterpriseRequestDto) → (validate_enterprise e ≡ []) ↔ IsEnterprise e
unfolding validate_enterprise
validate_enterprise_iff e = grind (
  arith,
  gathered-nil (enterprise_faults e),
  nil-gathered (enterprise_faults e),
  required_msisdn-nil enterprise_object "numeroPorteurFlotte" e.fleet_holder_msisdn,
  required-nil enterprise_object "otpCode" e.otp_code,
  required-nil enterprise_object "operateurSourceId" e.source_operator_id,
  required-nil enterprise_object "operateurDestinataireId" e.recipient_operator_id,
  required-nil enterprise_object "client.raisonSociale" e.client.company_name,
  required-nil enterprise_object "client.numRC" e.client.num_rc,
  required-nil enterprise_object "client.nom" e.client.name,
  required-nil enterprise_object "client.prenom" e.client.prenom,
  required-nil enterprise_object "client.dateNaissance" e.client.date_naissance,
  required-nil enterprise_object "client.typePiece" e.client.type_piece,
  required-nil enterprise_object "client.numeroPiece" e.client.id_document_number,
  required_process-nil enterprise_object e.type_portabilite,
)

-- The body of an individual request has no field fault exactly when its number has nine digits, its
-- process is PREPAID or POSTPAID, and its code, both operators, the person and the place of birth
-- are there; of an enterprise, the company's name and register number in place of the place of
-- birth.
pub validate_individual-validate_enterprise :
    (r : IndividualRequestDto) (e : EnterpriseRequestDto)
    → ((validate_individual r ≡ []) ↔ IsIndividual r)
      × ((validate_enterprise e ≡ []) ↔ IsEnterprise e)
validate_individual-validate_enterprise r e = (validate_individual_iff r, validate_enterprise_iff e)
