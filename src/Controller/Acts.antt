-- ===== src/Controller/Acts.antt =====
-- PortingController and AcceptanceController (internal/adapter/controller).
pub mod Gate
use numflex_sandbox.Prelude.{Bool, List, map}
use numflex_sandbox.Controller.RequestView.{RequestDto, request_view_dto, sans_client}
use numflex_sandbox.Controller.Respond.{Call, Handler, bound, require_id, respond}
use numflex_sandbox.Entity.Fault.{Fault}
use numflex_sandbox.Entity.Request.{Text, Time}
use numflex_sandbox.Gateway.Requests.Reads.{RequestView}
use numflex_sandbox.Presenter.Modes.{Presenter}
use numflex_sandbox.Store.Session.{Env, M, ◌>>=◌, ◌>>◌}
use numflex_sandbox.Usecase.Acceptance.{
  RejectedNumberInput, accept_fleet_request, accept_request, market_frozen,
}
use numflex_sandbox.Usecase.Engine.{Window}
use numflex_sandbox.Usecase.Porting.{cancel_request, confirm_request, process_step}

-- `confirmationRequest` and `processRequestDTO`, which have the same fields
pub record ActDto : Type 0 where
  pub request_id : Text
  pub comment : Text

-- `acceptRequestDTO`
pub record AcceptRequestDto : Type 0 where
  pub request_id : Text
  pub accepte : Bool
  pub rejection_reason_id : Text
  pub comment : Text

-- `rejectedFleetNumberDTO`
pub record RejectedFleetNumberDto : Type 0 where
  pub msisdn : Text
  pub rejection_reason_id : Text

-- `acceptFleetRequestDTO`
pub record AcceptFleetRequestDto : Type 0 where
  pub accepte : Bool
  pub rejected_numbers : List RejectedFleetNumberDto
  pub rejection_reason_id : Text
  pub comment : Text

abbrev pub rejected_input : RejectedFleetNumberDto → RejectedNumberInput
rejected_input nr = record { msisdn = nr.msisdn; rejection_reason_id = nr.rejection_reason_id }

module _ (env : Env) (window : Window) where
  -- `Confirmation` up to its response
  unfoldable pub confirmation_run : Call ActDto → M Fault RequestView
  confirmation_run c = do
    market_frozen env window c.caller
    req ← bound c
    require_id "confirmationDTO" req.request_id
    confirm_request env c.caller window req.request_id req.comment

  -- `Process` up to its response
  unfoldable pub process_run : Call ActDto → M Fault RequestView
  process_run c = do
    market_frozen env window c.caller
    req ← bound c
    require_id "traitementDTO" req.request_id
    process_step env c.caller window req.request_id req.comment

  -- `Accept` up to its response
  unfoldable pub accept_run : Call AcceptRequestDto → M Fault RequestView
  accept_run c = do
    market_frozen env window c.caller
    req ← bound c
    require_id "acceptationDTO" req.request_id
    accept_request env window c.caller (record {
      request_id = req.request_id;
      accept = req.accepte;
      rejection_reason_id = req.rejection_reason_id;
      comment = req.comment;
    })

  -- `AcceptFleet` up to its response
  unfoldable pub accept_fleet_run : Call AcceptFleetRequestDto → M Fault RequestView
  accept_fleet_run c = do
    market_frozen env window c.caller
    req ← bound c
    accept_fleet_request env window c.caller (record {
      request_id = c.id;
      accept = req.accepte;
      rejected_numbers = map rejected_input req.rejected_numbers;
      rejection_reason_id = req.rejection_reason_id;
      comment = req.comment;
    })

  module _ (skew : Time) (p : Presenter) where
    abbrev shown : List Time → RequestView → RequestDto
    shown = request_view_dto skew

    -- `Confirmation`
    unfoldable pub post_confirmation : Call ActDto → Handler RequestDto
    post_confirmation c w =
        respond p c.path 200 "Étape traitée avec succès"
          (λ written v. sans_client (request_view_dto skew written v)) (confirmation_run c w)

    -- `Process`
    unfoldable pub post_process : Call ActDto → Handler RequestDto
    post_process c w = respond p c.path 200 "Étape traitée avec succès" shown (process_run c w)

    -- `Cancel`: no body, and no test of the market
    unfoldable pub post_cancel : Call (Unit {0}) → Handler RequestDto
    post_cancel c w =
        respond p c.path 200 "Demande annulée avec succès" shown
          (cancel_request env c.caller c.id w)

    -- `Accept`
    unfoldable pub post_accept : Call AcceptRequestDto → Handler RequestDto
    post_accept c w =
        respond p c.path 200 "Décision d'acceptation enregistrée" shown (accept_run c w)

    -- `AcceptFleet`
    unfoldable pub post_accept_fleet : Call AcceptFleetRequestDto → Handler RequestDto
    post_accept_fleet c w =
        respond p c.path 200 "Décision d'acceptation enregistrée" shown (accept_fleet_run c w)
