-- ===== src/Usecase/Sandbox/Again.antt =====
-- A purge and what it leaves to a second one, and to the other operators.
use numflex_sandbox.Prelude.{
  Bool, List, Option, [], ap, arith, contains, false, find?, keep, map, none, not, refl, some, true,
  update_where, ℕ, ◌∙◌, ◌∷◌, ◌≡◌,
}
use numflex_sandbox.Entity.Authorization.{Caller}
use numflex_sandbox.Entity.Request.{Text}
use numflex_sandbox.Gateway.Sandbox.{is_made_by, is_purged_reverse, refers_to, restored}
use numflex_sandbox.Store.Runs.{Reliable}
use numflex_sandbox.Store.Schema.{Db, RequestRow, ReverseRow}
use numflex_sandbox.Store.Session.{Env, World, ok}
use numflex_sandbox.Usecase.Sandbox.{PurgeTestDataResult, purge_test_data}
use numflex_sandbox.Usecase.Sandbox.Purged.{
  counted, counts, made_ids, made_numbers, purge_test_data-purged, purged, without,
}

module _ {A : Type 0} (p f : A → Bool) where
  -- A test that leaves out only rows that the other test leaves out anyhow.
  pub keep-keep_same :
      ((x : A) → p x ≡ true → f x ≡ true) → (xs : List A) → keep p (keep f xs) ≡ keep p xs
  keep-keep_same h [] = refl
  keep-keep_same h (x ∷ xs) = ground (arith, h x, keep-keep_same h xs)

  pub find?-keep_same :
      ((x : A) → p x ≡ true → f x ≡ true) → (xs : List A) → find? p (keep f xs) ≡ find? p xs
  find?-keep_same h [] = refl
  find?-keep_same h (x ∷ xs) = ground (arith, h x, find?-keep_same h xs)

keep-all : {A : Type 0} (xs : List A) → keep (λ _. true) xs ≡ xs
keep-all [] = refl
keep-all (x ∷ xs) = ap (λ ys. x ∷ ys) (keep-all xs)

keep-none : {A : Type 0} (xs : List A) → keep (λ _. false) xs ≡ []
keep-none [] = refl
keep-none (x ∷ xs) = keep-none xs

update_where-none : {A : Type 0} (f : A → A) (xs : List A) → update_where (λ _. false) f xs ≡ xs
update_where-none f [] = refl
update_where-none f (x ∷ xs) = ap (λ ys. x ∷ ys) (update_where-none f xs)

-- None of the requests that are left was made by the operator.
made-purged :
    (op : Text) (ids : List Text) (rs : List RequestRow)
    → ((id : Text)
        → contains (map (λ r. r.id) (keep (is_made_by op) rs)) id ≡ true
        → contains ids id ≡ true)
    → keep (is_made_by op) (keep (λ r. not (contains ids r.id)) rs) ≡ []
made-purged op ids [] h = refl
made-purged op ids (r ∷ rs) h =
    ground (arith, h r.id, made-purged op ids rs (λ id e. h id (ground (arith, e))))

refers_to-nil : (o : Option Text) → refers_to [] o ≡ false
refers_to-nil none = refl
refers_to-nil (some x) = refl

-- Nor was any of the reverse requests.
reverses-purged :
    (op : Text) (ids : List Text) (vs : List ReverseRow)
    → keep (is_purged_reverse op []) (keep (λ v. not (is_purged_reverse op ids v)) vs) ≡ []
reverses-purged op ids [] = refl
reverses-purged op ids (v ∷ vs) =
    ground (arith, refers_to-nil v.request_id, reverses-purged op ids vs)

reverses-left :
    (op : Text) (vs : List ReverseRow)
    → keep (is_purged_reverse op []) vs ≡ []
    → keep (λ v. not (is_purged_reverse op [] v)) vs ≡ vs
reverses-left op [] h = refl
reverses-left op (v ∷ vs) h = ground (arith, reverses-left op vs)

abbrev pub nothing : PurgeTestDataResult
nothing = record {
  requests_deleted = 0;
  numbers_restored = 0;
  otp_deleted = 0;
  reverse_deleted = 0;
}

module _ (op : Text) (d : Db) (e : made_ids op d ≡ []) where
  made_numbers-none : made_numbers op d ≡ []
  made_numbers-none = rw e (rw (keep-none d.requests) (rw (keep-none d.request_numbers) refl))

  module _ (h : keep (is_purged_reverse op []) d.reverses ≡ []) where
    counted-nothing : counted op d ≡ nothing
    counted-nothing =
        ap (λ ids. counts op ids (made_numbers op d) d) e
        ∙ ap (λ numbers. counts op [] numbers d) made_numbers-none
        ∙ rw (keep-none d.requests) (rw (keep-none d.numbers) (rw (keep-none d.otps) (rw h refl)))

    purged-same : purged op d ≡ d
    purged-same =
        ap (λ ids. without op ids (made_numbers op d) d) e
        ∙ ap (λ numbers. without op [] numbers d) made_numbers-none
        ∙ rw (keep-all d.requests) (
            rw (keep-all d.request_numbers) (
              rw (keep-all d.clients) (
                rw (keep-all d.history) (
                  rw (keep-all d.confirmations) (
                    rw (reverses-left op d.reverses h)
                      (rw (keep-all d.otps) (rw (update_where-none restored d.numbers) refl)))))))

module _ (env : Env) (reliable : Reliable env) where
  -- Where the driver does not fail and no other session commits, a purge right after a purge finds
  -- nothing: it answers four zeros and leaves the database as it is.
  pub purge_test_data-again :
      (caller : Caller) (w : World)
      → ((n : ℕ) (d : Db) → env.others n d ≡ d)
      → let w' = (purge_test_data env caller w).1 in
        let x = purge_test_data env caller w' in (x.0 ≡ ok nothing) × (x.1.db ≡ w'.db)
  purge_test_data-again caller w quiet =
      let op = caller.operator_id in
      let d = env.others w.calls w.db in
      let w' = (purge_test_data env caller w).1 in
      let d' = env.others w'.calls w'.db in
      let e = quiet w'.calls w'.db ∙ (purge_test_data-purged env reliable caller w).1 in
      let made : made_ids op d' ≡ [] =
        ap (made_ids op) e
        ∙ ap (map (λ r. r.id)) (made-purged op (made_ids op d) d.requests (λ id h. h)) in
      let reverses : keep (is_purged_reverse op []) d'.reverses ≡ [] =
        ap (λ x. keep (is_purged_reverse op []) x.reverses) e
        ∙ reverses-purged op (made_ids op d) d.reverses in
      let (answer, left) = purge_test_data-purged env reliable caller w' in
      (
        answer ∙ ap ok (counted-nothing op d' made reverses),
        left ∙ purged-same op d' made reverses ∙ quiet w'.calls w'.db,
      )
