-- ===== src/Usecase/Queries.antt =====
-- The interactors of the work queues (internal/usecase/query).
pub mod Shown
use numflex_sandbox.Prelude.{Bool, List, String, [], if◌then◌else◌, ◌∷◌}
use numflex_sandbox.Entity.Errors.{GoError}
use numflex_sandbox.Entity.Fault.{Fault, Message, internal_error, lit, request_not_found}
use numflex_sandbox.Entity.Request.{Text}
use numflex_sandbox.Gateway.Queries.{
  Queue, already_confirmed_ids, ids_to_confirm, incoming_ids, outgoing_ids, own_ids, queue_by_id,
  queue_to_accept, queue_to_confirm, queue_to_process, to_accept_ids, to_process_ids,
}
use numflex_sandbox.Gateway.Requests.Reads.{RequestView, get_request}
use numflex_sandbox.Store.Session.{Env, M, or_internal, pool, pure, raise, require, ◌>>=◌, ◌>>◌}

abbrev text : String → Message
text s = lit s ∷ []

module _ (env : Env) where
  -- `resolveViews`
  unfoldable pub resolve_views : List Text → M Fault (List RequestView)
  resolve_views [] = pure []
  resolve_views (id ∷ ids) = do
    found ← or_internal (get_request env pool id) (text "reading the request")
    view ← require found (internal_error (text "reading the request"))
    rest ← resolve_views ids
    pure (view ∷ rest)

  -- a list: the identifiers of the queue, then the views
  unfoldable pub list_views : M GoError (List Text) → String → M Fault (List RequestView)
  list_views ids failure = do found ← or_internal ids (text failure); resolve_views found

  -- `detailView`
  unfoldable pub detail_view : Queue → Text → Text → String → M Fault RequestView
  detail_view queue id op failure = do
    member ← or_internal (queue_by_id env pool queue id op) (text failure)
    if member then pure tt else raise request_not_found
    found ← or_internal (get_request env pool id) (text failure)
    require found request_not_found

  -- `Execute` of the seven interactors
  abbrev pub list_own : Text → M Fault (List RequestView)
  list_own op = list_views (own_ids env pool op) "reading the requests"

  abbrev pub list_to_accept : Text → M Fault (List RequestView)
  list_to_accept op = list_views (to_accept_ids env pool op) "reading the requests to accept"

  abbrev pub list_to_process : Text → M Fault (List RequestView)
  list_to_process op = list_views (to_process_ids env pool op) "reading the requests to process"

  abbrev pub list_to_confirm : Text → M Fault (List RequestView)
  list_to_confirm op = list_views (ids_to_confirm env pool op) "reading the requests to confirm"

  abbrev pub list_incoming : Text → M Fault (List RequestView)
  list_incoming op = list_views (incoming_ids env pool op) "reading the IN requests"

  abbrev pub list_outgoing : Text → M Fault (List RequestView)
  list_outgoing op = list_views (outgoing_ids env pool op) "reading the OUT requests"

  abbrev pub list_already_confirmed : Bool → Text → M Fault (List RequestView)
  list_already_confirmed exclude_source op =
      list_views (already_confirmed_ids env pool op exclude_source)
        "reading the already-confirmed requests"

  -- `Detail` of the three interactors
  abbrev pub detail_to_accept : Text → Text → M Fault RequestView
  detail_to_accept id op = detail_view queue_to_accept id op "reading the request"

  abbrev pub detail_to_process : Text → Text → M Fault RequestView
  detail_to_process id op = detail_view queue_to_process id op "reading the request"

  abbrev pub detail_to_confirm : Text → Text → M Fault RequestView
  detail_to_confirm id op = detail_view queue_to_confirm id op "reading the request"
