-- ===== src/Rpc/Registry/Builtins.antt =====
-- LoadBuiltins of internal/rpc/registry.go. The file system, the environment, encoding/json and the
-- compiler of JSON schemas are parameters; an error is its text.
use agentic_coop_db.Prelude.{
  Bool, not, Option, none, some, [], ◌∷◌, ◌++◌, Bytes, codes, bytes_eq, if◌then◌else◌, Result, ok,
  err, ◌>>=◌,
}
use agentic_coop_db.Rpc.Registry.{Procedure, Registry, RegisterError, register}

-- os.ReadFile: the file, os.ErrNotExist, or another error.
pub data FileAnswer : Type 0 where
  file : Bytes → FileAnswer
  not_exist : FileAnswer
  failed : Bytes → FileAnswer

pub record World (Doc Schema : Type 0) : Type 0 where
  pub rpc_dir_env : Bytes
  pub is_dir : Bytes → Bool
  pub abs : Bytes → Result Bytes Bytes
  pub join : Bytes → Bytes → Bytes
  pub read_file : Bytes → FileAnswer
  pub unmarshal : Bytes → Result Bytes Doc
  pub add_resource : Doc → Option Bytes
  pub compile : Doc → Result Bytes Schema
  pub register_text : RegisterError → Bytes

abbrev pub upsert_document : Bytes
upsert_document = codes "upsert_document"

-- The text of the schema of upsert_document, with the blanks of the source.
abbrev pub schema_json : Bytes
schema_json =
    b'{'
    ∷ 10
    ∷ (codes "        \"$schema\": \"https://json-schema.org/draft/2020-12/schema\","
        ++ (10
            ∷ (codes "        \"type\": \"object\","
                ++ (10
                    ∷ (codes "        \"additionalProperties\": false,"
                        ++ (10
                            ∷ (codes "        \"required\": [\"id\", \"body\"],"
                                ++ (10
                                    ∷ (codes "        \"properties\": {"
                                        ++ (10
                                            ∷ (codes "            \"id\":   {\"type\": \"string\"},"
                                                ++ (10
                                                    ∷ (codes
                                                          "            \"body\": {\"type\": \"string\"}"
                                                        ++ (10
                                                            ∷ (codes "        }"
                                                            ++ (10 ∷ codes "    }"))))))))))))))))

module _ {Doc Schema : Type 0} (w : World Doc Schema) where
  unfoldable pub bodies_root : Result Bytes Bytes
  bodies_root =
      if not (bytes_eq w.rpc_dir_env [])
      then ok w.rpc_dir_env
      else if w.is_dir (codes "/app/sql/rpc")
      then w.abs (codes "/app/sql/rpc")
      else if w.is_dir (codes "sql/rpc")
      then w.abs (codes "sql/rpc")
      else err (codes "rpc bodies directory not found")

  unfoldable pub compile_schema : Bytes → Result Bytes Schema
  compile_schema text = elim (w.unmarshal text) [
    | err e ↦ err (codes "schema decode: " ++ e)
    | ok doc ↦ elim (w.add_resource doc) [ some e ↦ err e | none ↦ w.compile doc ]
  ]

  abbrev pub upsert_procedure : (body : Bytes) → Schema → Procedure Schema
  upsert_procedure body schema = record {
    name = upsert_document;
    version = 1;
    description = codes "Insert or update a document by id, returning the new row.";
    required_role = codes "dbuser";
    body_path = codes "upsert_document.sql";
    body = body;
    schema = some schema;
  }

  -- Register of the procedure with the compiled schema.
  unfoldable pub register_upsert : (body : Bytes) → Registry Schema → Result Bytes (Registry Schema)
  register_upsert body reg = elim (compile_schema schema_json) [
    | err e ↦ err (codes "compile upsert_document schema: " ++ e)
    | ok schema ↦ elim (register Schema reg (some (upsert_procedure body schema))) [
      | err e ↦ err (w.register_text e)
      | ok reg' ↦ ok reg'
    ]
  ]

  -- A missing file is not an error.
  unfoldable pub load_builtins : Registry Schema → Result Bytes (Registry Schema)
  load_builtins reg = bodies_root >>= λ root.
      elim (w.read_file (w.join root (codes "upsert_document.sql"))) [
        | not_exist ↦ ok reg
        | failed e ↦ err e
        | file body ↦ register_upsert body reg
      ]
