-- ===== src/Controller/Tests.antt =====
-- Renderings of concrete values.
use numflex_sandbox.Prelude.{[], contains, refl, some, true, ℕ, ◌+◌, ◌↔◌, ◌∷◌, ◌≡◌, ◌≢◌}
use numflex_sandbox.Controller.Creation.{
  CreationClientDto, EnterpriseRequestDto, IndividualRequestDto, validate_enterprise,
  validate_individual,
}
use numflex_sandbox.Controller.Creation.Valid.{
  IsEnterprise, IsIndividual, validate_individual-validate_enterprise,
}
use numflex_sandbox.Controller.Instant.{rendered_instant}
use numflex_sandbox.Controller.Instant.Precision.{rendered_instant-written, stored}
use numflex_sandbox.Controller.Pagination.{parse_query_int}
use numflex_sandbox.Entity.Fault.{fault_access, fault_validation, number_not_ported}
use numflex_sandbox.Entity.Request.{Time}
use numflex_sandbox.Framework.Text.{atoi, codes}
use numflex_sandbox.Gateway.Pages.{is_negative, offset}
use numflex_sandbox.Presenter.{contract_failure, real_failure}
use numflex_sandbox.Presenter.Statuses.{IsRefusal, real_failure-contract_failure}

real_failure-contract_failure_example :
    let real = real_failure {D = ℕ} (some number_not_ported) 5 in
    let contract = contract_failure {D = ℕ} (some number_not_ported) 5 in
    ((contract.status ≡ 400) ↔ (number_not_ported.kind ≡ fault_validation))
    × ((real.status ≡ 400) ↔ (contract.status ≡ 400))
    × ((real.status ≡ 500) ↔ (contract.status ≢ 400))
    × ((contract.status ≡ 403) ↔ (number_not_ported.kind ≡ fault_access))
    × IsRefusal number_not_ported real.status real.body
    × IsRefusal number_not_ported contract.status contract.body
real_failure-contract_failure_example = real_failure-contract_failure ℕ number_not_ported 5

rendered_instant-written_example :
    (u : Time) × (stored u ≡ 1583043000)
    × (contains (7 ∷ 1583043149 ∷ []) u ≡ true)
    × (rendered_instant (some (7 ∷ 1583043149 ∷ [])) 540000000000 1583043000 ≡ u + 540000000000)
rendered_instant-written_example =
    rendered_instant-written (7 ∷ 1583043149 ∷ []) 540000000000 1583043149 refl refl

abbrev person : CreationClientDto
person = record {
  name = codes "Ndiaye";
  prenom = codes "Awa";
  date_naissance = codes "1990-01-01";
  lieu_naissance = codes "Dakar";
  type_piece = codes "CNI";
  id_document_number = codes "1";
  company_name = [];
  num_rc = codes "RC-1";
}

abbrev individual_body : IndividualRequestDto
individual_body = record {
  msisdn = codes "771000001";
  otp_code = codes "123456";
  source_operator_id = codes "a";
  recipient_operator_id = codes "b";
  type_portabilite = codes "PREPAID";
  client = person;
}

-- Its company has no name.
abbrev enterprise_body : EnterpriseRequestDto
enterprise_body = record {
  fleet_holder_msisdn = codes "771000001";
  otp_code = codes "123456";
  source_operator_id = codes "a";
  recipient_operator_id = codes "b";
  type_portabilite = codes "POSTPAID";
  fleet_msisdns = codes "771000002" ∷ [];
  client = person;
}

validate_individual-validate_enterprise_example :
    ((validate_individual individual_body ≡ []) ↔ IsIndividual individual_body)
    × ((validate_enterprise enterprise_body ≡ []) ↔ IsEnterprise enterprise_body)
validate_individual-validate_enterprise_example =
    validate_individual-validate_enterprise individual_body enterprise_body

-- Page 2^62 with two rows each passes the parser, and its offset is negative.
parsed_page :
    is_negative
      (offset (parse_query_int (codes "4611686018427387904") 0) (parse_query_int (codes "2") 20))
    ≡ true
unfolding parse_query_int atoi
parsed_page = refl
