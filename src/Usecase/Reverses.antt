-- ===== src/Usecase/Reverses.antt =====
-- The reverse interactors (internal/usecase/reverse).
use numflex_sandbox.Prelude.{List, Option, [], if◌then◌else◌, none, not, some, ℕ, ◌==◌, ◌∷◌}
use numflex_sandbox.Entity.Authorization.{Caller}
use numflex_sandbox.Entity.Eligibility.{NumberState}
use numflex_sandbox.Entity.Fault.{
  Fault, Message, incorrect_source_operator, internal_error, lit, number_not_ported,
  request_access_denied,
}
use numflex_sandbox.Entity.Request.{Text}
use numflex_sandbox.Gateway.Numbers.{read_number_state}
use numflex_sandbox.Gateway.Reverses.{ReverseView, create_reverse, get_reverse, own_reverses}
use numflex_sandbox.Store.Session.{
  Env, M, check, new_id, now_written, or_fail, or_fault_from, or_internal, pool, pure, require, tx,
  unit_of_work, ◌>>=◌, ◌>>◌,
}
use numflex_sandbox.Usecase.Creation.Inputs.{text}

abbrev reverse_denied : Fault
reverse_denied = request_access_denied (
    lit
      "Seul l'opérateur source (opérateur d'origine du numéro) peut soumettre une demande de reverse pour ce numéro."
    ∷ [])

-- the two tests of `SubmitReverseRequestInteractor.Execute` on the number
unfoldable pub can_submit : NumberState → Text → Option Fault
can_submit state operator_id =
    if not (state.origin_operator_id == operator_id)
    then some reverse_denied
    else if state.current_operator_id == state.origin_operator_id
    then some number_not_ported
    else none

module _ (env : Env) where
  -- the read that ends the writing interactor and makes the list
  unfoldable pub read_reverse : Text → Message → M Fault ReverseView
  read_reverse id text = do
    view ← or_internal (get_reverse env pool id) text
    require view (internal_error text)

  -- `SubmitReverseRequestInteractor.Execute`
  unfoldable pub submit_reverse_request : Caller → Text → M Fault ReverseView
  submit_reverse_request caller msisdn = do
    found ← or_internal (read_number_state env pool msisdn) (lit "reading the number" ∷ [])
    state ← require found incorrect_source_operator
    check (can_submit state caller.operator_id)
    id ← new_id env
    now ← now_written env
    or_fault_from (
        unit_of_work env (
          or_fail (create_reverse env tx id msisdn caller.operator_id now)
            (internal_error (lit "creating the reverse request" ∷ []))))
    read_reverse id (lit "re-reading the reverse request" ∷ [])

  -- the loop of `ListOwnReverseRequestsInteractor`
  unfoldable pub reverse_views : List Text → M Fault (List ReverseView)
  reverse_views [] = pure []
  reverse_views (id ∷ ids) = do
    view ← read_reverse id (lit "reading the reverse request" ∷ [])
    rest ← reverse_views ids
    pure (view ∷ rest)

  -- `ListOwnReverseRequestsInteractor.Execute`
  unfoldable pub list_own_reverse_requests : Text → ℕ → ℕ → M Fault (List ReverseView)
  list_own_reverse_requests operator_id page size = do
    ids ←
        or_internal (own_reverses env pool operator_id page size)
          (lit "reading the reverse requests" ∷ [])
    reverse_views ids
