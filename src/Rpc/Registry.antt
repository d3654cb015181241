-- ===== src/Rpc/Registry.antt =====
-- internal/rpc/registry.go: the registered procedures. A compiled JSON schema is a parameter.
pub mod Laws
pub mod Builtins
pub mod Loaded
use agentic_coop_db.Prelude.{
  ℕ, Bool, true, false, Option, none, some, List, [], ◌∷◌, Bytes, bytes_eq, if◌then◌else◌, Result,
  ok, err,
}

pub data RegisterError : Type 0 where
  no_procedure no_schema empty_body : RegisterError

module _ (Schema : Type 0) where
  -- A nil schema is `none`.
  pub record Procedure : Type 0 where
    pub name : Bytes
    pub version : ℕ
    pub description : Bytes
    pub required_role : Bytes
    pub body_path : Bytes
    pub body : Bytes
    pub schema : Option Schema

  -- The map from names to procedures.
  abbrev pub Registry : Type 0
  Registry = List (Bytes × Procedure)

  abbrev pub new_registry : Registry
  new_registry = []

  abbrev is_nil : Option Schema → Bool
  is_nil none = true
  is_nil (some s) = false

  -- `r.procs[name]`.
  unfoldable pub get : Registry → Bytes → Option Procedure
  get [] name = none
  get ((k, p) ∷ procs) name = if bytes_eq k name then some p else get procs name

  -- `r.procs[name] = p`.
  unfoldable pub set : Registry → Bytes → Procedure → Registry
  set [] name p = (name, p) ∷ []
  set ((k, q) ∷ procs) name p =
      if bytes_eq k name then (k, p) ∷ procs else (k, q) ∷ set procs name p

  -- A nil procedure is `none`.
  unfoldable pub register : Registry → Option Procedure → Result RegisterError Registry
  register procs none = err no_procedure
  register procs (some p) =
      if bytes_eq p.name []
      then err no_procedure
      else if is_nil p.schema
      then err no_schema
      else if bytes_eq p.body []
      then err empty_body
      else ok (set procs p.name p)
