-- ===== src/Controller/RequestView/Client.antt =====
-- Which keys a request is shown with (internal/adapter/controller/request_view.go,
-- query_controller.go, porting_controller.go).
use numflex_sandbox.Prelude.{
  List, Option, String, [], arith, none, option_map, refl, some, subst, sym, ℕ, ◌↔◌, ◌∷◌, ◌≡◌, ◌≢◌,
}
use numflex_sandbox.Controller.Acts.{ActDto, post_confirmation}
use numflex_sandbox.Controller.Queues.{get_to_confirm, get_to_confirm_detail}
use numflex_sandbox.Controller.RequestView.{
  ClientDto, RequestDto, client_dto, dto_list, request_view_dto, sans_client,
}
use numflex_sandbox.Controller.Respond.{Call, respond}
use numflex_sandbox.Entity.Fault.{Fault, lit}
use numflex_sandbox.Entity.Request.{SubscriberType, Text, Time, enterprise, is_enterprise}
use numflex_sandbox.Gateway.Requests.Reads.{ClientView, RequestView}
use numflex_sandbox.Presenter.Modes.{Presenter, shown_data}
use numflex_sandbox.Store.Session.{Env, Outcome, World, err, ok}
use numflex_sandbox.Usecase.Engine.{Window}

-- The answer's data, where it has any, satisfy the predicate.
abbrev pub Shows : {D : Type 0} → (D → Type 0) → Option D → Type 0
Shows P none = Unit
Shows P (some d) = P d

abbrev pub IsWithoutClient : RequestDto → Type 0
IsWithoutClient dto = dto.client ≡ none

abbrev pub All : {D : Type 0} → (D → Type 0) → List D → Type 0
All P [] = Unit
All P (d ∷ ds) = P d × All P ds

respond-Shows :
    {A D : Type 0} (p : Presenter) (path : Text) (status : ℕ) (message : String)
    (show : List Time → A → D) (P : D → Type 0) (x : Outcome Fault A × World)
    → ((written : List Time) (a : A) → P (show written a))
    → Shows P (shown_data (respond p path status message show x).0)
respond-Shows p path status message show P (ok a, w) h =
    subst (Shows P) (sym (p.success-data status (lit message ∷ []) (show w.written a)))
      (h w.written a)
respond-Shows p path status message show P (err f, w) h =
    subst (Shows P) (sym (p.failure-data (some f) path)) tt

sans_client-IsWithoutClient : (dto : RequestDto) → IsWithoutClient (sans_client dto)
unfolding sans_client
sans_client-IsWithoutClient dto = refl

dto_list-All :
    (skew : Time) (written : List Time) (views : List RequestView)
    → All IsWithoutClient (dto_list skew sans_client written views)
unfolding dto_list
dto_list-All skew written [] = tt
dto_list-All skew written (v ∷ views) =
    (sans_client-IsWithoutClient (request_view_dto skew written v), dto_list-All skew written views)

module _ (env : Env) (window : Window) (skew : Time) (p : Presenter) where
  -- In either mode, whatever the database holds and whatever the driver does, no answer of the three
  -- confirmation routes carries the client of a request: the queue, its detail and the confirmation.
  pub get_to_confirm-IsWithoutClient :
      (queue detail : Call (Unit {0})) (act : Call ActDto) (w : World)
      → Shows (All IsWithoutClient) (shown_data (get_to_confirm env skew p queue w).0)
        × Shows IsWithoutClient (shown_data (get_to_confirm_detail env skew p detail w).0)
        × Shows IsWithoutClient (shown_data (post_confirmation env window skew p act w).0)
  unfolding get_to_confirm get_to_confirm_detail post_confirmation
  get_to_confirm-IsWithoutClient queue detail act w = (
    respond-Shows p queue.path 200 _ _ (All IsWithoutClient) _ (dto_list-All skew),
    respond-Shows p detail.path 200 _ _ IsWithoutClient _
        (λ written v. sans_client-IsWithoutClient (request_view_dto skew written v)),
    respond-Shows p act.path 200 _ _ IsWithoutClient _
        (λ written v. sans_client-IsWithoutClient (request_view_dto skew written v)),
  )

-- The keys of a client: the place of birth of an individual, or the company of a fleet.
abbrev pub HasKeys : Type 0 → ClientDto → Type 0
HasKeys Fleet c =
    (Fleet ↔ (c.lieu_naissance ≡ none))
    × (Fleet ↔ (c.raison_sociale ≢ none))
    × (Fleet ↔ (c.num_rc ≢ none))

client_dto-HasKeys :
    (t : SubscriberType) (c : ClientView)
    → HasKeys (t ≡ enterprise) (client_dto (is_enterprise t) c)
client_dto-HasKeys t c = ground arith

shown_client :
    (t : SubscriberType) (o : Option ClientView)
    → Shows (HasKeys (t ≡ enterprise)) (option_map (client_dto (is_enterprise t)) o)
shown_client t none = tt
shown_client t (some c) = client_dto-HasKeys t c

-- A fleet is shown with its list of numbers and any other request with its one number, never both. A
-- client is shown where the view has one, a fleet's with the company's name and register number, any
-- other with the place of birth. Hiding the client changes no other key.
pub request_view_dto-HasKeys :
    (skew : Time) (written : List Time) (v : RequestView)
    → let dto = request_view_dto skew written v in
      let Fleet = v.subscriber_type ≡ enterprise in
      (Fleet ↔ (dto.numeros ≡ some v.numbers))
      × (Fleet ↔ (dto.numero ≡ none))
      × ((dto.client ≡ none) ↔ (v.client ≡ none))
      × Shows (HasKeys Fleet) dto.client
      × (record (sans_client dto) { client = dto.client } ≡ dto)
unfolding request_view_dto sans_client
request_view_dto-HasKeys skew written v =
    (ground arith, ground arith, ground arith, shown_client v.subscriber_type v.client, refl)
