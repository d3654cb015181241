-- ===== src/Rpc/Registry/Loaded.antt =====
-- What LoadBuiltins (internal/rpc/registry.go) leaves in the registry.
use agentic_coop_db.Prelude.{
  ◌⊎◌, ◌≡◌, refl, inl, inr, arith, some, [], Bytes, codes, bytes_eq, if◌then◌else◌, ok,
  Result-cases,
}
use agentic_coop_db.Rpc.Registry.{Registry, get, register}
use agentic_coop_db.Rpc.Registry.Builtins.{
  World, FileAnswer, file, not_exist, failed, schema_json, upsert_document, upsert_procedure,
  bodies_root, compile_schema, register_upsert, load_builtins,
}
use agentic_coop_db.Rpc.Registry.Laws.{IsComplete, get-register}

module _ {Doc Schema : Type 0} (w : World Doc Schema) (reg reg' : Registry Schema) where
  -- The registry as it was, or with a complete upsert_document and everything else as it was.
  abbrev pub IsLoaded : Type 0
  IsLoaded =
      (reg' ≡ reg)
      ⊎ ((body : Bytes) × (schema : Schema) × IsComplete Schema (upsert_procedure w body schema)
          × ((q : Bytes)
              → get Schema reg' q ≡ (
                  if bytes_eq upsert_document q
                  then some (upsert_procedure w body schema)
                  else get Schema reg q)))

  register_upsert-IsLoaded : (body : Bytes) → register_upsert w body reg ≡ ok reg' → IsLoaded
  unfolding register_upsert
  register_upsert-IsLoaded body h = elim (Result-cases (compile_schema w schema_json)) [
    | inr (e, f) ↦ ground arith
    | inl (schema, f) ↦
        elim (Result-cases (register Schema reg (some (upsert_procedure w body schema)))) [
          | inr (e, g) ↦ ground arith
          | inl (made, g) ↦
              let same : made ≡ reg' = ground arith in
              let now = rw same at g in
              inr (
                body,
                schema,
                (get-register Schema reg reg' (upsert_procedure w body schema) [] now).0,
                λ q. (get-register Schema reg reg' (upsert_procedure w body schema) q now).1,
              )
        ]
  ]

  file-IsLoaded :
      (root : Bytes) (a : FileAnswer)
      → w.read_file (w.join root (codes "upsert_document.sql")) ≡ a
      → bodies_root w ≡ ok root
      → load_builtins w reg ≡ ok reg'
      → IsLoaded
  unfolding load_builtins
  file-IsLoaded root not_exist e f h = inl (ground arith)
  file-IsLoaded root (failed x) e f h = ground arith
  file-IsLoaded root (file body) e f h = register_upsert-IsLoaded body (ground arith)

  -- LoadBuiltins without an error leaves every other procedure as it was, and upsert_document either
  -- as it was, where the file is missing, or complete with the body of the file.
  pub load_builtins-IsLoaded : load_builtins w reg ≡ ok reg' → IsLoaded
  unfolding load_builtins
  load_builtins-IsLoaded h = elim (Result-cases (bodies_root w)) [
    | inr (e, f) ↦ ground arith
    | inl (root, f) ↦
        file-IsLoaded root (w.read_file (w.join root (codes "upsert_document.sql"))) refl f h
  ]
