-- ===== src/Framework/Folders/Nearest.antt =====
-- The walk finds the nearest folder (internal/framework/web/router.go,
-- internal/framework/persistence/migrate.go).
use numflex_sandbox.Prelude.{
  Bool-cases, List, [], ap, false, find?, inl, inr, none, refl, some, suc, sym, zero, ℕ, ◌∙◌, ◌∷◌,
  ◌≡◌,
}
use numflex_sandbox.Framework.Folders.{
  FileSystem, migrations_dir, resolve_docs_dir, walk_from, walk_up,
}
use numflex_sandbox.Framework.Seed.Reference.{named}

module _ (fs : FileSystem) where
  open fs use {FilePath, is_dir, join, parent, same_path, same_path_iff}

  -- The candidates of a directory and of its ancestors, nearest first.
  abbrev pub candidates : ℕ → FilePath → FilePath → List FilePath
  candidates zero name dir = []
  candidates (suc n) name dir = join dir name ∷ candidates n name (parent dir)

  root_none :
      (n : ℕ) (name dir : FilePath)
      → parent dir ≡ dir
      → is_dir (join dir name) ≡ false
      → find? is_dir (candidates n name dir) ≡ none
  root_none zero name dir h k = refl
  root_none (suc n) name dir h k =
      rw k (ap (λ d. find? is_dir (candidates n name d)) h ∙ root_none n name dir h k)

  stopped :
      (n : ℕ) (name dir : FilePath)
      → parent dir ≡ dir
      → is_dir (join dir name) ≡ false
      → find? is_dir (candidates n name (parent dir)) ≡ none
  stopped n name dir h k = ap (λ d. find? is_dir (candidates n name d)) h ∙ root_none n name dir h k

  walk_up-find? :
      (n : ℕ) (name dir : FilePath) → walk_up fs n name dir ≡ find? is_dir (candidates n name dir)
  walk_up-find? zero name dir = refl
  walk_up-find? (suc n) name dir = elim (Bool-cases (is_dir (join dir name))) [
    | inl h ↦ rw h refl
    | inr h ↦ rw h (elim (Bool-cases (same_path (parent dir) dir)) [
      | inl k ↦ rw k (sym (stopped n name dir ((same_path_iff _ _).0 k) h))
      | inr k ↦ rw k (walk_up-find? n name (parent dir))
    ])
  ]

  -- From a working directory, the walk for a relative name and the walk for the migrations find the
  -- nearest folder among the working directory and its first seven ancestors, or nothing where none
  -- of them has it: to stop at the root loses no candidate.
  pub resolve_docs_dir-nearest :
      (name migrations dir : FilePath)
      → fs.is_empty name ≡ false
      → fs.is_abs name ≡ false
      → fs.working_directory ≡ some dir
      → (resolve_docs_dir fs name ≡ find? is_dir (candidates 8 name dir))
        × (migrations_dir fs migrations ≡ find? is_dir (candidates 8 migrations dir))
  unfolding resolve_docs_dir migrations_dir
  resolve_docs_dir-nearest name migrations dir named relative here = (
    rw named (rw relative (ap (walk_from fs name) here ∙ walk_up-find? 8 name dir)),
    ap (walk_from fs migrations) here ∙ walk_up-find? 8 migrations dir,
  )
