-- ===== src/Usecase/Platform/Validated.antt =====
-- What the validation of a reverse request opens
-- (internal/usecase/platform/auto_validate_reverses.go).
use numflex_sandbox.Prelude.{
  [], ap, find?-update_other, sym, arith, false, find?, refl, some, true, ◌++◌, ◌+◌, ◌∙◌, ◌∷◌, ◌≡◌,
  ◌≢◌,
}
use numflex_sandbox.Entity.Request.{Text}
use numflex_sandbox.Gateway.Numbers.{is_number}
use numflex_sandbox.Gateway.Reverses.{is_pending, is_reverse_row, lock_pending, validated_row}
use numflex_sandbox.Store.Calm.{Calm, statement-calm, unit_of_work-calm}
use numflex_sandbox.Store.Runs.{Reliable, bind-ok}
use numflex_sandbox.Store.Schema.{validated, NumberRow, ReverseRow}
use numflex_sandbox.Store.Session.{Env, World, ok, pure, tx}
use numflex_sandbox.Usecase.Platform.{validate_pending, validate_reverse}
use numflex_sandbox.Usecase.Platform.Opening.{
  CanOpen, done, instant, marked_row, new_request_id, opened_number, opened_request, validate-eq,
}

module _ (env : Env) (reliable : Reliable env) (calm : Calm env) (reverse_id : Text) where
  -- A reverse request that is decided.
  settled-eq :
      (v : ReverseRow) (w : World)
      → find? (is_reverse_row reverse_id) w.db.reverses ≡ some v
      → is_pending v.status ≡ false
      → validate_reverse env reverse_id w ≡ (ok tt, record w { calls = w.calls + 1 + 1 + 1 })
  unfolding validate_reverse validate_pending pure lock_pending
  settled-eq v w f p =
      let w' = record w { calls = w.calls + 1 } in
      let w'' = record w { calls = w.calls + 1 + 1 } in
      unit_of_work-calm env reliable calm _ w w'' tt (
        bind-ok _ _ w' w'' v (statement-calm env reliable calm tx _ w' v w.db (rw f refl))
        ∙ rw p refl)

  -- A pending reverse request on a number is validated, where both operators are known, the
  -- identifier that is drawn is new, the driver does not fail and no other session writes. It
  -- returns; one request is opened, at the step of the confirmation, from the holder of the number to
  -- the operator that asked; it carries this number; the reverse request is validated and names it,
  -- and the others are as they were. Validating once more returns too, and changes nothing.
  pub validate_reverse-once :
      (r : ReverseRow) (n : NumberRow) (w : World) (j : Text)
      → find? (is_reverse_row reverse_id) w.db.reverses ≡ some r
      → is_pending r.status ≡ true
      → find? (is_number r.msisdn) w.db.numbers ≡ some n
      → CanOpen env reverse_id r n w
      → reverse_id ≢ j
      → let first = validate_reverse env reverse_id w in
        (first.0 ≡ ok tt)
        × (first.1.db.requests ≡ w.db.requests ++ (opened_request env reverse_id r n w ∷ []))
        × (first.1.db.request_numbers
            ≡ w.db.request_numbers ++ (opened_number env reverse_id r n w ∷ []))
        × ((r' : ReverseRow) × (find? (is_reverse_row reverse_id) first.1.db.reverses ≡ some r')
            × (r'.status ≡ validated)
            × (r'.request_id ≡ some (new_request_id env reverse_id r n w)))
        × (find? (is_reverse_row j) first.1.db.reverses ≡ find? (is_reverse_row j) w.db.reverses)
        × ((validate_reverse env reverse_id first.1).0 ≡ ok tt)
        × ((validate_reverse env reverse_id first.1).1.db ≡ first.1.db)
  validate_reverse-once r n w j f p e h d =
      let run = validate-eq env reverse_id r n w reliable calm f p e h in
      let w' = done env reverse_id r n w reliable calm in
      let row = marked_row env reverse_id r n w reliable calm f in
      let again = settled-eq _ w' row refl in
      (
        ap (λ x. x.0) run,
        ap (λ x. x.1.db.requests) run,
        ap (λ x. x.1.db.request_numbers) run,
        (_, ap (λ x. find? (is_reverse_row reverse_id) x.1.db.reverses) run ∙ row, refl, refl),
        ap (λ x. find? (is_reverse_row j) x.1.db.reverses) run
            ∙ (find?-update_other (is_reverse_row reverse_id) (is_reverse_row j)
                (validated_row (new_request_id env reverse_id r n w) (instant env reverse_id r n w))
                (λ x k. ground (arith, k, d)) w.db.reverses),
        ap (λ x. (validate_reverse env reverse_id x.1).0) run ∙ ap (λ x. x.0) again,
        ap (λ x. (validate_reverse env reverse_id x.1).1.db) run
            ∙ ap (λ x. x.1.db) again
            ∙ sym (ap (λ x. x.1.db) run),
      )
