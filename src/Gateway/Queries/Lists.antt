-- ===== src/Gateway/Queries/Lists.antt =====
-- The lists of the queues against their filters and their details (query_gateway.go).
use numflex_sandbox.Prelude.{
  Bool, IsSorted, List, [], any, any-order_by, ap, arith, contains, keep, length,
  length-keep-order_by, map, order_by-IsSorted, refl, sym, ◌&&◌, ◌==◌, ◌||◌, ◌∙◌, ◌∷◌, ◌≡◌,
}
use numflex_sandbox.Entity.Request.{Text}
use numflex_sandbox.Gateway.Queries.{by_filter, request_ids, selected}
use numflex_sandbox.Store.Runs.{Reliable, statement-eq}
use numflex_sandbox.Store.Schema.{Db, RequestRow}
use numflex_sandbox.Store.Session.{Env, Querier, World, ok, seen}

contains-map :
    (rows : List RequestRow) (id : Text)
    → contains (map (λ r. r.id) rows) id ≡ any (λ r. r.id == id) rows
contains-map [] id = refl
contains-map (r ∷ rows) id = ap (λ b. (r.id == id) || b) (contains-map rows id)

any-keep :
    {A : Type 0} (p f : A → Bool) (xs : List A) → any p (keep f xs) ≡ any (λ x. p x && f x) xs
any-keep p f [] = refl
any-keep p f (x ∷ xs) = ground (arith, any-keep p f xs)

keep-keep :
    {A : Type 0} (p f : A → Bool) (xs : List A)
    → length (keep p (keep f xs)) ≡ length (keep (λ x. f x && p x) xs)
keep-keep p f [] = refl
keep-keep p f (x ∷ xs) = ground (arith, keep-keep p f xs)

selected-any :
    (filter : RequestRow → Bool) (id : Text) (d : Db)
    → contains (map (λ r. r.id) (selected filter d)) id
      ≡ any (λ r. r.id == id && filter r) d.requests
selected-any filter id d =
    contains-map (selected filter d) id
    ∙ any-order_by (λ r. r.request_date) (λ r. r.id == id) (keep filter d.requests)
    ∙ any-keep (λ r. r.id == id) filter d.requests

-- Where the driver does not fail, the list of a queue has the identifiers of exactly the rows that
-- pass its filter, each as often as in the table, the oldest request first; and the detail of a
-- request finds it in the queue exactly when the list, read at the same moment, has it.
pub request_ids-by_filter :
    (env : Env) (q : Querier) (filter : RequestRow → Bool) (id : Text) (w : World)
    → Reliable env
    → (rows : List RequestRow) × ((request_ids env q filter w).0 ≡ ok (map (λ r. r.id) rows))
      × ((by_filter env q filter id w).0 ≡ ok (contains (map (λ r. r.id) rows) id))
      × IsSorted (λ r. r.request_date) rows
      × ((p : RequestRow → Bool)
          → length (keep p rows) ≡ length (keep (λ r. filter r && p r) (seen env q w).requests))
unfolding request_ids by_filter
request_ids-by_filter env q filter id w reliable =
    let d = seen env q w in
    (
      selected filter d,
      ap (λ x. x.0) (statement-eq env q _ w reliable),
      ap (λ x. x.0) (statement-eq env q _ w reliable) ∙ ap ok (sym (selected-any filter id d)),
      order_by-IsSorted (λ r. r.request_date) (keep filter d.requests),
      λ p.
          length-keep-order_by (λ r. r.request_date) p (keep filter d.requests)
          ∙ keep-keep p filter d.requests,
    )
