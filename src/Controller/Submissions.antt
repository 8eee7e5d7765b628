-- ===== src/Controller/Submissions.antt =====
-- The handlers that check the texts of a body (internal/adapter/controller): CreationController,
-- ReverseController.Submit and OTPController. Bodies hold lists of character codes; `text_of` names
-- each text for the use cases.
use numflex_sandbox.Prelude.{List, Option, length, ltb, map, ℕ}
use numflex_sandbox.Controller.Creation.{
  CreationClientDto, EnterpriseRequestDto, IndividualRequestDto, validate_enterprise,
  validate_individual,
}
use numflex_sandbox.Controller.Incidents.{ReverseDto, reverse_view_dto}
use numflex_sandbox.Controller.RequestView.{RequestDto, key_if, request_view_dto}
use numflex_sandbox.Controller.Respond.{
  Call, Handler, acknowledge, bound, check_fields, require_msisdn, respond,
}
use numflex_sandbox.Entity.Fault.{Fault, Message}
use numflex_sandbox.Entity.Request.{Text, Time, empty_text}
use numflex_sandbox.Gateway.Requests.Reads.{RequestView}
use numflex_sandbox.Gateway.Reverses.{ReverseView}
use numflex_sandbox.Presenter.Modes.{Presenter}
use numflex_sandbox.Store.Session.{Env, M, or_fault_from, ◌>>=◌, ◌>>◌}
use numflex_sandbox.Usecase.Creation.Enterprise.{
  CreateEnterpriseRequestOutput, create_enterprise_request,
}
use numflex_sandbox.Usecase.Creation.Individual.{create_individual_request}
use numflex_sandbox.Usecase.Creation.Inputs.{ClientInput, ExcludedNumber}
use numflex_sandbox.Usecase.Creation.Restitution.{create_restitution_request}
use numflex_sandbox.Usecase.Otp.{send_otp, verify_otp}
use numflex_sandbox.Usecase.Reverses.{submit_reverse_request}

-- `restitutionRequestDTO`, `reverseRequestBody` and `otpSendRequest`
pub record MsisdnDto : Type 0 where
  pub msisdn : List ℕ

-- `otpVerifyRequest`
pub record OtpVerifyRequest : Type 0 where
  pub msisdn : List ℕ
  pub otp_code : List ℕ

-- `excludedNumberDTO`
pub record ExcludedNumberDto : Type 0 where
  pub numero : Text
  pub raison : Message
  pub code_erreur : Message

-- What `Enterprise` shows; the warning holds the number of excluded numbers.
pub record EnterpriseDto : Type 0 where
  pub demande : RequestDto
  pub numeros_portes_count : ℕ
  pub numeros_exclus_count : ℕ
  pub numeros_exclus : List ExcludedNumberDto
  pub avertissement : Option ℕ

abbrev pub excluded_dto : ExcludedNumber → ExcludedNumberDto
excluded_dto x = record { numero = x.msisdn; raison = x.reason; code_erreur = x.error_code }

unfoldable pub enterprise_dto : Time → List Time → CreateEnterpriseRequestOutput → EnterpriseDto
enterprise_dto skew written out = record {
  demande = request_view_dto skew written out.view;
  numeros_portes_count = out.retained_count;
  numeros_exclus_count = length out.excluded;
  numeros_exclus = map excluded_dto out.excluded;
  avertissement = key_if (ltb 0 (length out.excluded)) (length out.excluded);
}

module _ (env : Env) (max_attempts : ℕ) (text_of : List ℕ → Text) where
  -- the texts that only a fleet has are left empty by `Individual`
  abbrev pub client_input : CreationClientDto → Text → Text → ClientInput
  client_input c company rc = record {
    last_name = text_of c.name;
    first_name = text_of c.prenom;
    birth_date = text_of c.date_naissance;
    birth_place = text_of c.lieu_naissance;
    id_type = text_of c.type_piece;
    id_number = text_of c.id_document_number;
    company_name = company;
    rc_number = rc;
  }

  -- `Individual` up to its response
  unfoldable pub individual_run : Call IndividualRequestDto → M Fault RequestView
  individual_run c = do
    req ← bound c
    check_fields (validate_individual req)
    create_individual_request env max_attempts c.caller (record {
      msisdn = text_of req.msisdn;
      otp_code = text_of req.otp_code;
      source_operator_id = text_of req.source_operator_id;
      recipient_operator_id = text_of req.recipient_operator_id;
      process = text_of req.type_portabilite;
      client = client_input req.client empty_text empty_text;
    })

  -- `Enterprise` up to its response
  unfoldable pub enterprise_run : Call EnterpriseRequestDto → M Fault CreateEnterpriseRequestOutput
  enterprise_run c = do
    req ← bound c
    check_fields (validate_enterprise req)
    create_enterprise_request env max_attempts c.caller (record {
      fleet_msisdn = text_of req.fleet_holder_msisdn;
      otp_code = text_of req.otp_code;
      source_operator_id = text_of req.source_operator_id;
      recipient_operator_id = text_of req.recipient_operator_id;
      process = text_of req.type_portabilite;
      fleet_numbers = map text_of req.fleet_msisdns;
      client =
          client_input req.client (text_of req.client.company_name) (text_of req.client.num_rc);
    })

  -- `Restitution` up to its response
  unfoldable pub restitution_run : Call MsisdnDto → M Fault RequestView
  restitution_run c = do
    req ← bound c
    require_msisdn "demandeRestitutionDTO" req.msisdn
    create_restitution_request env c.caller (text_of req.msisdn)

  -- `ReverseController.Submit` up to its response
  unfoldable pub submit_run : Call MsisdnDto → M Fault ReverseView
  submit_run c = do
    req ← bound c
    require_msisdn "reverseRequestDTO" req.msisdn
    submit_reverse_request env c.caller (text_of req.msisdn)

  -- `Send` up to its response
  unfoldable pub send_run : Text → Time → Call MsisdnDto → M Fault (Unit {0})
  send_run code ttl c = do
    req ← bound c
    require_msisdn "otpSendDTO" req.msisdn
    or_fault_from (send_otp env code ttl (text_of req.msisdn))

  -- `Verify` up to its response
  unfoldable pub verify_run : Call OtpVerifyRequest → M Fault (Unit {0})
  verify_run c = do
    req ← bound c
    verify_otp env max_attempts (text_of req.msisdn) (text_of req.otp_code)

  module _ (skew : Time) (p : Presenter) where
    -- `Individual`
    unfoldable pub post_individual : Call IndividualRequestDto → Handler RequestDto
    post_individual c w =
        respond p c.path 201 "Demande particulier créée avec succès" (request_view_dto skew)
          (individual_run c w)

    -- `Enterprise`
    unfoldable pub post_enterprise : Call EnterpriseRequestDto → Handler EnterpriseDto
    post_enterprise c w =
        respond p c.path 201 "Demande entreprise créée avec succès" (enterprise_dto skew)
          (enterprise_run c w)

    -- `Restitution`
    unfoldable pub post_restitution : Call MsisdnDto → Handler RequestDto
    post_restitution c w =
        respond p c.path 201 "Demande de restitution créée avec succès" (request_view_dto skew)
          (restitution_run c w)

    -- `ReverseController.Submit`
    unfoldable pub post_reverse : Call MsisdnDto → Handler ReverseDto
    post_reverse c w =
        respond p c.path 201 "Demande de reverse soumise avec succès" (reverse_view_dto skew)
          (submit_run c w)

    -- `Send`
    unfoldable pub post_send : Text → Time → Call MsisdnDto → Handler (Unit {0})
    post_send code ttl c w = acknowledge p c.path "OTP envoyé avec succès" (send_run code ttl c w)

    -- `Verify`
    unfoldable pub post_verify : Call OtpVerifyRequest → Handler (Unit {0})
    post_verify c w = acknowledge p c.path "Code OTP vérifié avec succès" (verify_run c w)
