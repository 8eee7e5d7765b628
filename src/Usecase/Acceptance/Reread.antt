-- ===== src/Usecase/Acceptance/Reread.antt =====
-- The re-read that ends the interactors on requests writes nothing (internal/usecase/acceptance).
use numflex_sandbox.Prelude.{Option, none, some}
use numflex_sandbox.Entity.Request.{Text, is_enterprise}
use numflex_sandbox.Gateway.Requests.Reads.{RequestView, get_request, with_numbers}
use numflex_sandbox.Store.Keeps.{
  Keeps, Keeps-bind, Keeps-if, Keeps-pool, Keeps-pure, Stable, keeps_rules,
}
use numflex_sandbox.Store.Schema.{Db}
use numflex_sandbox.Store.Session.{Env, pool}
use numflex_sandbox.Usecase.Acceptance.{read_back}

module _ (env : Env) {P : Db → Type 0} (stable : Stable env P) where
  with_numbers-Keeps : (id : Text) (v : Option RequestView) → Keeps P (with_numbers env pool id v)
  unfolding with_numbers
  with_numbers-Keeps id none = Keeps-pure none
  with_numbers-Keeps id (some v) =
      Keeps-if (is_enterprise v.subscriber_type) _ _
        (Keeps-bind _ _ (Keeps-pool env _ stable (λ now d p. p)) (λ rows. Keeps-pure _))
        (Keeps-pure (some v))

  get_request-Keeps : (id : Text) → Keeps P (get_request env pool id)
  unfolding get_request
  get_request-Keeps id =
      Keeps-bind _ _ (Keeps-pool env _ stable (λ now d p. p)) (λ v. with_numbers-Keeps id v)

  pub read_back-Keeps : (id : Text) → Keeps P (read_back env id)
  unfolding read_back
  read_back-Keeps id = search (keeps_rules, get_request-Keeps)
