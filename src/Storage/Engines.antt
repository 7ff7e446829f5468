-- ===== src/Storage/Engines.antt =====
-- src/crawllmer/adapters/storage.py: `get_storage` and the repositories for the two backends. What
-- `create_engine` makes is its arguments; `create_all` is the outcome of the creation of the tables.
use mathlib.Core.Path.{subst}
use geo_optimizer.Base.{
  Bool, Option, arith, codes_beq, codes_eq, false, if◌then◌else◌, inl, inr, nat_eq, none, refl,
  some, sym, true, ◌==◌, ◌≡◌, ◌⊎◌,
}
use geo_optimizer.Text.{Text, lit}
use geo_optimizer.Errors.{
  Error, Result, ok, err, library, invalid_transition, invalid_input, run_not_found,
  pipeline_processing,
}
use geo_optimizer.Config.{
  Settings, StorageBackend, EngineKwargs, pooled, connect_args, engine_kwargs, engine_kwargs_for,
}

pub record Engine : Type 0 where
  pub url : Option Text
  pub kwargs : EngineKwargs

-- SQLAlchemy's exception for a table that is there already.
abbrev pub operational_error : Error
operational_error = library (lit "OperationalError")

is_operational : Error → Bool
is_operational (library name) = name == lit "OperationalError"
is_operational (invalid_transition old next) = false
is_operational (invalid_input field reason) = false
is_operational (run_not_found run_id) = false
is_operational (pipeline_processing stage run_id cause) = false

module _ (create_all : Engine → Option Error) where
  -- `SqlAlchemyStorageRepository(engine)`
  unfoldable pub repository_over : Engine → Result Engine
  repository_over engine = elim (create_all engine) [ none ↦ ok engine | some e ↦ err e ]

  passed_over : Engine → Result Engine → Result Engine
  unfolding is_operational
  passed_over engine (ok made) = ok made
  passed_over engine (err e) = if is_operational e then ok engine else err e

  unfoldable pub sqlite_repository : Option Text → Result Engine
  unfolding repository_over passed_over
  sqlite_repository db_url =
      let engine : Engine = record { url = db_url; kwargs = connect_args false } in
      passed_over engine (repository_over engine)

  unfoldable pub pgsql_repository : Option Text → Result Engine
  unfolding repository_over
  pgsql_repository db_url = repository_over (record { url = db_url; kwargs = pooled true 5 })

  storage_for : StorageBackend → Option Text → Result Engine
  unfolding sqlite_repository pgsql_repository
  storage_for StorageBackend.pgsql db_url = pgsql_repository db_url
  storage_for StorageBackend.sqlite db_url = sqlite_repository db_url

  unfoldable pub get_storage : Settings → Result Engine
  unfolding storage_for
  get_storage settings = storage_for settings.storage_backend settings.db_url

-- The engine that the settings describe.
abbrev engine_of : Settings → Engine
engine_of settings = record { url = settings.db_url; kwargs = engine_kwargs settings }

storage_for_lem :
    (create_all : Engine → Option Error) (backend : StorageBackend) (db_url : Option Text)
    → (create_all (record { url = db_url; kwargs = engine_kwargs_for backend }) ≡ none)
      ⊎ ((backend ≡ StorageBackend.sqlite)
          × (create_all (record { url = db_url; kwargs = engine_kwargs_for backend })
              ≡ some operational_error))
    → storage_for create_all backend db_url
      ≡ ok (record { url = db_url; kwargs = engine_kwargs_for backend })
unfolding storage_for sqlite_repository pgsql_repository repository_over passed_over is_operational
    engine_kwargs_for codes_beq lit
storage_for_lem create_all StorageBackend.pgsql db_url (inl h) = ground arith
storage_for_lem create_all StorageBackend.pgsql db_url (inr h) = absurd (ground arith)
storage_for_lem create_all StorageBackend.sqlite db_url (inl h) = ground arith
storage_for_lem create_all StorageBackend.sqlite db_url (inr h) =
    let engine : Engine = record { url = db_url; kwargs = connect_args false } in
    subst
      (λ (o : Option Error).
        passed_over create_all engine (elim o [ none ↦ ok engine | some e ↦ err e ]) ≡ ok engine)
      (sym h.1) refl

-- If the tables can be created, or, for SQLite, are there already, the repository is over the engine
-- that the settings describe.
get_storage_lem :
    (create_all : Engine → Option Error) (settings : Settings)
    → (create_all (engine_of settings) ≡ none)
      ⊎ ((settings.storage_backend ≡ StorageBackend.sqlite)
          × (create_all (engine_of settings) ≡ some operational_error))
    → get_storage create_all settings ≡ ok (engine_of settings)
unfolding get_storage engine_kwargs
get_storage_lem create_all settings =
    storage_for_lem create_all settings.storage_backend settings.db_url
