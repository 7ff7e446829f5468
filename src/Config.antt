-- ===== src/Config.antt =====
-- src/crawllmer/core/config.py: the settings, their validator and what is derived from them.
pub mod Storage
pub mod Extensions
use geo_optimizer.Base.{
  Bool, List, Option, false, if◌then◌else◌, map, none, some, suc, true, zero, ℕ, ◌++◌,
}
use geo_optimizer.Text.{Text, lit, decimal, starts_with, split, strip}

pub data StorageBackend : Type 0 where
  sqlite pgsql : StorageBackend

-- The fields that the code reads; `db_url` and the `pg_` fields may be unset.
pub record Settings : Type 0 where
  pub storage_backend : StorageBackend
  pub db_url : Option Text
  pub pg_host : Option Text
  pub pg_port : Option ℕ
  pub pg_user : Option Text
  pub pg_password : Option Text
  pub pg_database : Option Text
  pub celery_broker_url : Text
  pub celery_result_backend : Text
  pub celery_task_acks_late : Bool
  pub celery_task_reject_on_worker_lost : Bool
  pub celery_broker_visibility_timeout : ℕ
  pub spider_max_depth : ℕ
  pub spider_max_scan_pages : ℕ
  pub spider_max_index_pages : ℕ
  pub spider_include_extensions : Text

-- `all(getattr(self, f) is not None for f in pg_fields)`, with the values at hand.
unfoldable pub pg_parts : Settings → Option (Text × Text × Text × Text)
pg_parts s = elim s.pg_host [
  | none ↦ none
  | some host ↦ elim s.pg_user [
    | none ↦ none
    | some user ↦ elim s.pg_password [
      | none ↦ none
      | some password ↦ elim s.pg_database [
        | none ↦ none
        | some database ↦ some (host, user, password, database)
      ]
    ]
  ]
]

-- `self.pg_port or 5432`
port_or_default : Option ℕ → ℕ
port_or_default none = 5432
port_or_default (some zero) = 5432
port_or_default (some (suc n)) = suc n

unfoldable pub pg_url : Settings → Text × Text × Text × Text → Text
unfolding port_or_default decimal
pg_url s (host, user, password, database) =
    lit "postgresql://"
    ++ (user
        ++ (lit ":"
            ++ (password
                ++ (lit "@"
                    ++ (host
                        ++ (lit ":"
                            ++ (decimal (port_or_default s.pg_port) ++ (lit "/" ++ database))))))))

unfoldable pub keep_pg_url : Settings → Option Text → Option Settings
keep_pg_url s none = none
keep_pg_url s (some url) = if starts_with (lit "postgresql://") url then some s else none

validate_pgsql : Settings → Option Settings
validate_pgsql s = elim (pg_parts s) [
  | some parts ↦ some (record s { db_url = some (pg_url s parts) })
  | none ↦ keep_pg_url s s.db_url
]

default_sqlite : Settings → Option Text → Settings
default_sqlite s none = record s { db_url = some (lit "sqlite:///./crawllmer.db") }
default_sqlite s (some url) = s

-- `none` is the `ValueError`.
validate_for : StorageBackend → Settings → Option Settings
unfolding validate_pgsql default_sqlite
validate_for sqlite s = some (default_sqlite s s.db_url)
validate_for pgsql s = validate_pgsql s

unfoldable pub validate_storage_config : Settings → Option Settings
unfolding validate_for
validate_storage_config s = validate_for s.storage_backend s

pub data EngineKwargs : Type 0 where
  pooled : (pool_pre_ping : Bool) (pool_size : ℕ) → EngineKwargs
  connect_args : (check_same_thread : Bool) → EngineKwargs

unfoldable pub engine_kwargs_for : StorageBackend → EngineKwargs
engine_kwargs_for pgsql = pooled true 5
engine_kwargs_for sqlite = connect_args false

unfoldable pub engine_kwargs : Settings → EngineKwargs
unfolding engine_kwargs_for
engine_kwargs s = engine_kwargs_for s.storage_backend

unfoldable pub celery_worker_pool : Settings → Text
unfolding starts_with
celery_worker_pool s =
    if starts_with (lit "redis") s.celery_broker_url then lit "prefork" else lit "solo"

-- The set is a list that is only asked for membership.
unfoldable pub spider_extensions_set : Settings → List Text
unfolding split strip
spider_extensions_set s = map strip (split b',' s.spider_include_extensions)
