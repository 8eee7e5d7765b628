-- ===== src/Usecase/Queries/Shown.antt =====
-- What the lists of the queues show (internal/usecase/query).
use numflex_sandbox.Prelude.{
  List, Option, String, [], arith, map, none, refl, some, subst, ◌∷◌, ◌≡◌,
}
use numflex_sandbox.Entity.Errors.{GoError}
use numflex_sandbox.Entity.Fault.{Fault}
use numflex_sandbox.Entity.Request.{Text, is_enterprise}
use numflex_sandbox.Gateway.Requests.Reads.{
  RequestView, get_request, joined, select_view, view_row, with_numbers,
}
use numflex_sandbox.Store.Outcomes.{
  OnOk, OnOk-any, OnOk-bind, OnOk-if, OnOk-map_error, OnOk-pure, OnOk-raise, OnOk-statement,
}
use numflex_sandbox.Store.Runs.{bind-ok, map_error-ok}
use numflex_sandbox.Store.Schema.{ClientRow, Db, OperatorRow, RequestRow, find_request}
use numflex_sandbox.Store.Session.{Env, M, Outcome, World, ok, pool, require}
use numflex_sandbox.Store.Table.{find_request-id}
use numflex_sandbox.Usecase.Queries.{list_views, resolve_views}

abbrev IsViewOf : Text → Option RequestView → Type 0
IsViewOf id none = Unit
IsViewOf id (some v) = v.id ≡ id

joined-IsViewOf :
    (r : RequestRow) (src dst : Option OperatorRow) (client : Option ClientRow)
    → IsViewOf r.id (joined r src dst client)
joined-IsViewOf r none dst client = tt
joined-IsViewOf r (some src) none client = tt
joined-IsViewOf r (some src) (some dst) client = refl

view_row-IsViewOf :
    (id : Text) (d : Db) (found : Option RequestRow)
    → find_request id d ≡ found
    → IsViewOf id (view_row id d found)
view_row-IsViewOf id d none e = tt
view_row-IsViewOf id d (some r) e =
    subst (λ x. IsViewOf x (view_row id d (some r))) (find_request-id id d r e)
      (joined-IsViewOf r _ _ _)

select_view-IsViewOf : (id : Text) (d : Db) → IsViewOf id (select_view id d)
unfolding select_view
select_view-IsViewOf id d = view_row-IsViewOf id d (find_request id d) refl

ok-IsViewOf :
    (id : Text) (v v' : Option RequestView)
    → ◌≡◌ {A = Outcome GoError (Option RequestView)} (ok v) (ok v')
    → IsViewOf id v
    → IsViewOf id v'
ok-IsViewOf id v v' e h = subst (IsViewOf id) (ground arith) h

module _ (env : Env) where
  numbers-IsViewOf :
      (id : Text) (v : Option RequestView) (w : World)
      → IsViewOf id v
      → OnOk (with_numbers env pool id v w) (λ v' _. IsViewOf id v')
  unfolding with_numbers
  numbers-IsViewOf id none w h = OnOk-pure _ none w _ tt
  numbers-IsViewOf id (some v) w h =
      OnOk-if (is_enterprise v.subscriber_type) _ _ w _
        (λ _. OnOk-bind _ _ w (λ _ _. Unit {0}) _ (OnOk-any _) (λ rows w1 _. OnOk-pure _ _ w1 _ h))
        (λ _. OnOk-pure _ (some v) w _ h)

  get-IsViewOf : (id : Text) (w : World) → OnOk (get_request env pool id w) (λ v _. IsViewOf id v)
  unfolding get_request
  get-IsViewOf id w =
      OnOk-bind _ _ w (λ v _. IsViewOf id v) _
        (OnOk-statement env pool _ w _
          (λ now v e. ok-IsViewOf id _ v e (select_view-IsViewOf id _)))
        (λ v w1 h. numbers-IsViewOf id v w1 h)

  require-IsViewOf :
      (id : Text) (v : Option RequestView) (f : Fault) (w : World)
      → IsViewOf id v
      → OnOk (require v f w) (λ v' _. v'.id ≡ id)
  require-IsViewOf id none f w h = OnOk-raise f w _
  require-IsViewOf id (some v) f w h = OnOk-pure _ v w _ h

  resolve_views-ids :
      (ids : List Text) (w : World)
      → OnOk (resolve_views env ids w) (λ views _. map (λ v. v.id) views ≡ ids)
  unfolding resolve_views
  resolve_views-ids [] w = OnOk-pure _ [] w _ refl
  resolve_views-ids (id ∷ ids) w =
      OnOk-bind _ _ w (λ v _. IsViewOf id v) _ (OnOk-map_error _ _ w _ (get-IsViewOf id w))
        (λ found w1 h.
          OnOk-bind _ _ w1 (λ v _. v.id ≡ id) _ (require-IsViewOf id found _ w1 h)
            (λ view w2 k.
              OnOk-bind _ _ w2 (λ views _. map (λ v. v.id) views ≡ ids) _ (resolve_views-ids ids w2)
                (λ rest w3 e. OnOk-pure _ (view ∷ rest) w3 _ (rw k (rw e refl)))))

  -- A list that returns shows one view for each identifier that its queue answered, in the same
  -- order, whatever happens to the requests meanwhile.
  pub list_views-ids :
      (ids : M GoError (List Text)) (failure : String) (found : List Text) (w w' : World)
      → ids w ≡ (ok found, w')
      → OnOk (list_views env ids failure w) (λ views _. map (λ v. v.id) views ≡ found)
  unfolding list_views
  list_views-ids ids failure found w w' e =
      rw (bind-ok _ (resolve_views env) w w' found (map_error-ok _ ids w w' found e))
        (resolve_views-ids found w')
