-- ===== src/Controller/Queues.antt =====
-- QueryController (internal/adapter/controller/query_controller.go).
use numflex_sandbox.Prelude.{Bool, List, String}
use numflex_sandbox.Controller.RequestView.{
  RequestDto, dto_list, identity, request_view_dto, sans_client,
}
use numflex_sandbox.Controller.Respond.{Call, Handler, respond}
use numflex_sandbox.Entity.Fault.{Fault}
use numflex_sandbox.Entity.Request.{Text, Time}
use numflex_sandbox.Gateway.Requests.Reads.{RequestView}
use numflex_sandbox.Presenter.Modes.{Presenter}
use numflex_sandbox.Store.Session.{Env, M}
use numflex_sandbox.Usecase.Queries.{
  detail_to_accept, detail_to_confirm, detail_to_process, list_already_confirmed, list_incoming,
  list_outgoing, list_own, list_to_accept, list_to_confirm, list_to_process,
}

module _ (env : Env) (skew : Time) (p : Presenter) where
  -- a list handler: the views of the interactor, each through `transform`
  abbrev pub respond_list :
      String
      → (RequestDto → RequestDto)
      → Text
      → M Fault (List RequestView)
      → Handler (List RequestDto)
  respond_list message transform path execute w =
      respond p path 200 message (dto_list skew transform) (execute w)

  -- a detail handler
  abbrev pub respond_detail :
      (RequestDto → RequestDto) → Text → M Fault RequestView → Handler RequestDto
  respond_detail transform path execute w =
      respond p path 200 "Demande récupérée avec succès"
        (λ written v. transform (request_view_dto skew written v)) (execute w)

  -- `Own`
  unfoldable pub get_own : Call (Unit {0}) → Handler (List RequestDto)
  get_own c =
      respond_list "Demandes récupérées avec succès" identity c.path
        (list_own env c.caller.operator_id)

  -- `ToAccept`
  unfoldable pub get_to_accept : Call (Unit {0}) → Handler (List RequestDto)
  get_to_accept c =
      respond_list "Demandes à accepter récupérées avec succès" identity c.path
        (list_to_accept env c.caller.operator_id)

  -- `ToAcceptDetail`
  unfoldable pub get_to_accept_detail : Call (Unit {0}) → Handler RequestDto
  get_to_accept_detail c =
      respond_detail identity c.path (detail_to_accept env c.id c.caller.operator_id)

  -- `ToProcess`
  unfoldable pub get_to_process : Call (Unit {0}) → Handler (List RequestDto)
  get_to_process c =
      respond_list "Demandes à traiter récupérées avec succès" identity c.path
        (list_to_process env c.caller.operator_id)

  -- `ToProcessDetail`
  unfoldable pub get_to_process_detail : Call (Unit {0}) → Handler RequestDto
  get_to_process_detail c =
      respond_detail identity c.path (detail_to_process env c.id c.caller.operator_id)

  -- `ToConfirm`
  unfoldable pub get_to_confirm : Call (Unit {0}) → Handler (List RequestDto)
  get_to_confirm c =
      respond_list "Demandes à confirmer récupérées avec succès" sans_client c.path
        (list_to_confirm env c.caller.operator_id)

  -- `ToConfirmDetail`
  unfoldable pub get_to_confirm_detail : Call (Unit {0}) → Handler RequestDto
  get_to_confirm_detail c =
      respond_detail sans_client c.path (detail_to_confirm env c.id c.caller.operator_id)

  -- `AlreadyConfirmed`, under the configured exclusion of the source operator
  unfoldable pub get_already_confirmed : Bool → Call (Unit {0}) → Handler (List RequestDto)
  get_already_confirmed exclude_source c =
      respond_list "Demandes déjà confirmées récupérées avec succès" identity c.path
        (list_already_confirmed env exclude_source c.caller.operator_id)

  -- `In`
  unfoldable pub get_in : Call (Unit {0}) → Handler (List RequestDto)
  get_in c =
      respond_list "Demandes IN récupérées avec succès" identity c.path
        (list_incoming env c.caller.operator_id)

  -- `Out`
  unfoldable pub get_out : Call (Unit {0}) → Handler (List RequestDto)
  get_out c =
      respond_list "Demandes OUT récupérées avec succès" identity c.path
        (list_outgoing env c.caller.operator_id)
