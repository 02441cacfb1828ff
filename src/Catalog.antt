-- ===== src/Catalog.antt =====
-- The catalog: its name, the demo hive as a SQL expression, and JSON values
-- (crates/reghive-worker/src/lib.rs, sample.rs and meta.rs).
pub mod Sample
pub mod Meta
pub mod Functions
pub mod ForensicKeys
pub mod Tasks
pub mod Model
use vgi_reghive.Base.{Text, codes, ◌≡◌, refl}

-- The environment variable VGI_WORKER_CATALOG_NAME.
pub data Variable : Type 0 where
  unset : Variable
  text : Text → Variable
  not_unicode : Variable

-- `std::env::var(…).unwrap_or_else(|_| "reghive".to_string())`
abbrev name_in : Variable → Text
name_in unset = codes "reghive"
name_in (text name) = name
name_in not_unicode = codes "reghive"

-- The name, and the variable after it has been set where it was not.
unfoldable pub catalog_name : Variable → Text × Variable
catalog_name unset = (name_in (text (codes "reghive")), text (codes "reghive"))
catalog_name (text name) = (name_in (text name), text name)
catalog_name not_unicode = (name_in not_unicode, not_unicode)

-- A second call gives the same name, and leaves the variable.
pub catalog_name_again : (v : Variable) → catalog_name (catalog_name v).1 ≡ catalog_name v
unfolding catalog_name
catalog_name_again unset = refl
catalog_name_again (text name) = refl
catalog_name_again not_unicode = refl
