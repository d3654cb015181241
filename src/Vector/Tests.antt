-- ===== src/Vector/Tests.antt =====
-- The theorem about internal/vector/vector.go at a concrete input.
use agentic_coop_db.Prelude.{◌≡◌, refl, false, true, none, [], ◌∷◌, ◌++◌, Bytes, codes, ok}
use agentic_coop_db.Tenant.{all_safe, is_safe_byte}
use agentic_coop_db.Vector.{Tx, is_safe_ident, ensure_ivfflat_index, create_index}
use agentic_coop_db.Vector.Index.{IsCreated, ensure_ivfflat_index-IsCreated}

abbrev quote : Bytes → Bytes
quote s = b'"' ∷ (s ++ (b'"' ∷ []))

abbrev tx : Tx Bytes
tx = record {
  index_exists = λ name. ok false;
  count = λ stmt. ok 5000;
  exec = λ stmt. none;
  query = λ stmt. ok [];
  rows_error = none;
}

created : (ensure_ivfflat_index quote tx (codes "docs") (codes "embedding") 1000 0).1 ≡ ok true
unfolding ensure_ivfflat_index create_index is_safe_ident all_safe is_safe_byte
created = refl

ensure_ivfflat_index-IsCreated_example :
    IsCreated quote tx (codes "docs") (codes "embedding") 1000 0
ensure_ivfflat_index-IsCreated_example =
    ensure_ivfflat_index-IsCreated quote tx (codes "docs") (codes "embedding") 1000 0 created
