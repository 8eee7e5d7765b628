-- ===== src/Gateway/Pages.antt =====
-- A page of a list: `LIMIT size OFFSET page*size`, as the gateways of reverse requests and of
-- incidents pass them (reverse_gateway.go, incident_gateway.go).
pub mod Cover
use numflex_sandbox.Prelude.{
  Bool, List, Option, if◌then◌else◌, leb, none, skip, some, take, ℕ, ◌%◌, ◌*◌, ◌^◌,
}

-- `page*size` on Go's int, as its 64-bit pattern.
abbrev pub offset : ℕ → ℕ → ℕ
offset page size = (page * size) % 2 ^ 64

-- The pattern stands for a negative number, which PostgreSQL refuses as an OFFSET.
abbrev pub is_negative : ℕ → Bool
is_negative n = leb (2 ^ 63) n

-- The rows of a page, or none where PostgreSQL refuses the query.
abbrev pub page_of {ℓ} : {A : Type ℓ} → ℕ → ℕ → List A → Option (List A)
page_of page size rows =
    if is_negative (offset page size) then none else some (take size (skip (offset page size) rows))
