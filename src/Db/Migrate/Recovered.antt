-- ===== src/Db/Migrate/Recovered.antt =====
-- When RunMigrations of internal/db/migrate.go succeeds, and by which calls of golang-migrate.
use mathlib.Core.Path.{subst}
use agentic_coop_db.Prelude.{
  ◌≡◌, ◌⊎◌, refl, sym, ap, inl, inr, arith, ℤ, none, List, [], ◌∷◌, Bytes, codes, ok, Result-cases,
  Option-cases,
}
use agentic_coop_db.Db.Migrate.{World, prepare, redact_secrets}
use agentic_coop_db.Db.Migrate.Flow.{
  UpAnswer, done, no_change, dirty, failed, MigrateCall, up, force, Migrator, previous, up_failure,
  recover, apply, with_migrate, run_migrations,
}

module _ (m : Migrator) where
  -- The first Up succeeds, or finds a dirty version, the version before it is forced, and Up succeeds.
  pub data Route : List MigrateCall → Type 0 where
    clean : up_failure m.first_up ≡ none → Route (up ∷ [])
    recovered :
        (version : ℤ) (text : Bytes)
        → m.first_up ≡ dirty version text
        → m.force (previous version) ≡ none
        → up_failure m.second_up ≡ none
        → Route (up ∷ force (previous version) ∷ up ∷ [])

  recover_route :
      (version : ℤ) (text : Bytes)
      → m.first_up ≡ dirty version text
      → (recover m version).1 ≡ none
      → Route (up ∷ (recover m version).0)
  unfolding recover
  recover_route version text e h = elim (Option-cases (m.force (previous version))) [
    | inr (x, f) ↦ ground arith
    | inl f ↦ elim (Option-cases (up_failure m.second_up)) [
      | inr (x, k) ↦ ground arith
      | inl k ↦ rw (f, recover) (recovered version text e f k)
    ]
  ]

  UpAnswer-cases :
      (a : UpAnswer)
      → (a ≡ done)
        ⊎ ((a ≡ no_change)
            ⊎ (((v : ℤ) × (t : Bytes) × (a ≡ dirty v t)) ⊎ ((t : Bytes) × (a ≡ failed t))))
  UpAnswer-cases done = inl refl
  UpAnswer-cases no_change = inr (inl refl)
  UpAnswer-cases (dirty v t) = inr (inr (inl (v, t, refl)))
  UpAnswer-cases (failed t) = inr (inr (inr (t, refl)))

  clean_route :
      {calls : List MigrateCall} → calls ≡ up ∷ [] → up_failure m.first_up ≡ none → Route calls
  clean_route same fine = subst Route (sym same) (clean fine)

  apply_route : (apply m).1 ≡ none → Route (apply m).0
  unfolding apply
  apply_route h = elim (UpAnswer-cases m.first_up) [
    | inl e ↦ clean_route (ground arith) (ap up_failure e)
    | inr (inl e) ↦ clean_route (ground arith) (ap up_failure e)
    | inr (inr (inl (v, t, e))) ↦
        let same : (apply m).0 ≡ up ∷ (recover m v).0 = ground arith in
        subst Route (sym same) (recover_route v t e (ground arith))
    | inr (inr (inr (t, e))) ↦ ground arith
  ]

  module _ (w : World) (raw password : Bytes) where
    -- RunMigrations succeeds only with a URL and a directory that could be prepared and opened, and
    -- then after one Up that succeeded or had nothing to do, or after an Up that found a dirty version,
    -- a Force to the version before it that succeeded, and one more Up of that kind: there is never a
    -- second retry.
    pub run_migrations_sound :
        (run_migrations w m raw password).1 ≡ none
        → ((final dir : Bytes) × (prepare w (codes "RunMigrations") raw password ≡ ok (final, dir))
            × (m.open_error dir final ≡ none))
          × Route (run_migrations w m raw password).0
    unfolding run_migrations with_migrate redact_secrets
    run_migrations_sound h = elim (Result-cases (prepare w (codes "RunMigrations") raw password)) [
      | inr (e, f) ↦ ground arith
      | inl ((final, dir), f) ↦ elim (Option-cases (m.open_error dir final)) [
        | inr (e, k) ↦ ground arith
        | inl k ↦ elim (Option-cases (apply m).1) [
          | inr (e, n) ↦ ground arith
          | inl n ↦
              let same : (run_migrations w m raw password).0 ≡ (apply m).0 = ground arith in
              ((final, dir, f, k), subst Route (sym same) (apply_route n))
        ]
      ]
    ]
