-- ===== src/Store/Table.antt =====
-- What the keyed UPDATEs of the table demande do to the row that is found under an identifier.
use numflex_sandbox.Prelude.{
  ==_iff, Bool-cases, arith, find?-holds, find?-update_other, find?-update_same, if◌then◌else◌, inl,
  inr, none, some, ◌==◌, ◌≡◌, ◌≢◌,
}
use numflex_sandbox.Entity.Request.{Text}
use numflex_sandbox.Store.Schema.{Db, RequestRow, find_request, is_request, update_request}

pub find_request-id : (id : Text) (d : Db) (r : RequestRow) → find_request id d ≡ some r → r.id ≡ id
find_request-id id d r h = (==_iff r.id id).0 (find?-holds (is_request id) d.requests r h)

-- The row under `j` after an UPDATE under `id` that keeps the identifier.
pub find_request-update :
    (id j : Text) (f : RequestRow → RequestRow) (d : Db)
    → ((r : RequestRow) → (f r).id ≡ r.id)
    → find_request j (update_request id f d) ≡ (
        if id == j
        then (elim (find_request j d) [ none ↦ none | some r ↦ some (f r) ])
        else find_request j d)
find_request-update id j f d h = elim (Bool-cases (id == j)) [
  | inl e ↦ rw e (
      let p : id ≡ j = (==_iff id j).0 e in
      rw p (find?-update_same (is_request j) (is_request j) f (λ r. rw (h r)) d.requests))
  | inr e ↦
      rw e (
        find?-update_other (is_request id) (is_request j) f (λ r k. ground (arith, h r)) d.requests)
]

-- The updated row is found where the row was.
pub find_request-update_self :
    (id : Text) (f : RequestRow → RequestRow) (d : Db) (r : RequestRow)
    → ((x : RequestRow) → (f x).id ≡ x.id)
    → find_request id d ≡ some r
    → find_request id (update_request id f d) ≡ some (f r)
find_request-update_self id f d r h e = ground (arith, find_request-update id id f d h)

-- No other row is touched.
pub find_request-update_ne :
    (id j : Text) (f : RequestRow → RequestRow) (d : Db)
    → ((x : RequestRow) → (f x).id ≡ x.id)
    → id ≢ j
    → find_request j (update_request id f d) ≡ find_request j d
find_request-update_ne id j f d h e = ground (arith, find_request-update id j f d h)
