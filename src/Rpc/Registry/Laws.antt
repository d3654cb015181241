-- ===== src/Rpc/Registry/Laws.antt =====
-- What the registry (internal/rpc/registry.go) answers after a registration.
use agentic_coop_db.Prelude.{
  ◌≡◌, ◌≢◌, refl, sym, ap, ◌∙◌, arith, none, some, [], ◌∷◌, Bytes, bytes_eq, bytes_eq_iff,
  if◌then◌else◌, ok,
}
use agentic_coop_db.Rpc.Registry
use agentic_coop_db.Rpc.Registry.{Procedure, Registry, set, register}

module _ (Schema : Type 0) where
  get-set :
      (procs : Registry Schema) (name q : Bytes) (p : Procedure Schema)
      → Registry.get Schema (set Schema procs name p) q
        ≡ (if bytes_eq name q then some p else Registry.get Schema procs q)
  unfolding Registry.get set
  get-set [] name q p = refl
  get-set ((k, o) ∷ procs) name q p =
      ground
        (arith, get-set procs name q p, bytes_eq_iff k name, bytes_eq_iff k q, bytes_eq_iff name q)

  -- A procedure that can be called: it has a name, a body and a schema.
  pub record IsComplete (p : Procedure Schema) : Type 0 where
    pub name : p.name ≢ []
    pub body : p.body ≢ []
    pub schema : p.schema ≢ none

  register-some :
      (procs procs' : Registry Schema) (p : Procedure Schema)
      → register Schema procs (some p) ≡ ok procs'
      → (set Schema procs p.name p ≡ procs') × (p.name ≢ []) × (p.body ≢ []) × (p.schema ≢ none)
  unfolding register
  register-some procs procs' p h = ground (arith, bytes_eq_iff p.name [], bytes_eq_iff p.body [])

  -- A registration that succeeds is of a complete procedure, which its name then finds, and every
  -- other name finds what it found before.
  pub get-register :
      (procs procs' : Registry Schema) (p : Procedure Schema) (q : Bytes)
      → register Schema procs (some p) ≡ ok procs'
      → IsComplete p
        × (Registry.get Schema procs' q
            ≡ (if bytes_eq p.name q then some p else Registry.get Schema procs q))
  get-register procs procs' p q h =
      let (same, name, body, schema) = register-some procs procs' p h in
      (
        record { name = name; body = body; schema = schema },
        ap (λ r. Registry.get Schema r q) (sym same) ∙ get-set procs p.name q p,
      )
