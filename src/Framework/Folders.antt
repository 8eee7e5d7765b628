-- ===== src/Framework/Folders.antt =====
-- The walks up the directory tree (internal/framework/web/router.go,
-- internal/framework/persistence/migrate.go).
pub mod Nearest
use numflex_sandbox.Prelude.{Bool, Option, if◌then◌else◌, none, some, suc, true, zero, ℕ, ◌↔◌, ◌≡◌}

-- What the programs of the operating system and of the filepath package answer: the working
-- directory, whether a path is a directory, and the paths themselves.
pub record FileSystem : Type 1 where
  pub FilePath : Type 0
  pub working_directory : Option FilePath
  pub is_dir : FilePath → Bool
  pub is_abs : FilePath → Bool
  pub is_empty : FilePath → Bool
  pub join : FilePath → FilePath → FilePath
  pub parent : FilePath → FilePath
  pub same_path : FilePath → FilePath → Bool
  -- strings are equal where `==` says so
  pub same_path_iff : (a b : FilePath) → (same_path a b ≡ true) ↔ (a ≡ b)

module _ (fs : FileSystem) where
  open fs use {FilePath, working_directory, is_dir, is_abs, is_empty, join, parent, same_path}

  -- the loop of both functions, for the number of turns that are left
  abbrev pub walk_up : ℕ → FilePath → FilePath → Option FilePath
  walk_up zero name dir = none
  walk_up (suc turns) name dir =
      let rest = walk_up turns name (parent dir) in
      if is_dir (join dir name)
      then some (join dir name)
      else if same_path (parent dir) dir
      then none
      else rest

  abbrev pub walk_from : FilePath → Option FilePath → Option FilePath
  walk_from name none = none
  walk_from name (some dir) = walk_up 8 name dir

  -- `resolveDocsDir`
  unfoldable pub resolve_docs_dir : FilePath → Option FilePath
  resolve_docs_dir name =
      if is_empty name
      then none
      else if is_abs name
      then (if is_dir name then some name else none)
      else walk_from name working_directory

  -- `MigrationsDir`, of the name `migrations`; none is its error
  unfoldable pub migrations_dir : FilePath → Option FilePath
  migrations_dir migrations = walk_from migrations working_directory
