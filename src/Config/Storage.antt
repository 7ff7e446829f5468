-- ===== src/Config/Storage.antt =====
-- What the validator of core/config.py guarantees of the database URL.
use mathlib.Core.Path.{subst}
use geo_optimizer.Base.{
  Option, Option-cases, [], ap, arith, inl, inr, none, refl, some, true, ◌++◌, ◌∙◌, ◌∷◌, ◌≡◌,
}
use geo_optimizer.Text.{Text, lit, starts_with}
use geo_optimizer.Config.{
  StorageBackend, sqlite, pgsql, Settings, validate_storage_config, validate_for, validate_pgsql,
  pg_url, pg_parts, keep_pg_url, default_sqlite,
}

starts_with-append : (p s : Text) → starts_with p (p ++ s) ≡ true
unfolding starts_with
starts_with-append [] s = refl
starts_with-append (c ∷ p) s = ground (arith, starts_with-append p s)

-- The URL for a backend: for SQLite the given one, which may be any, or the file of the program if
-- none is given; for `pgsql` one of PostgreSQL.
abbrev pub IsUrlFor : StorageBackend → Option Text → Option Text → Type 0
IsUrlFor sqlite none url = url ≡ some (lit "sqlite:///./crawllmer.db")
IsUrlFor sqlite (some given) url = url ≡ some given
IsUrlFor pgsql given none = ⊥
IsUrlFor pgsql given (some url) = starts_with (lit "postgresql://") url ≡ true

default_sqlite_lem :
    (s : Settings) (given : Option Text)
    → s.db_url ≡ given
    → IsUrlFor sqlite given (default_sqlite s given).db_url
      × (default_sqlite (default_sqlite s given) (default_sqlite s given).db_url
          ≡ default_sqlite s given)
      × ((default_sqlite s given).storage_backend ≡ s.storage_backend)
unfolding default_sqlite
default_sqlite_lem s none e = (refl, refl, refl)
default_sqlite_lem s (some given) e = (e, rw e refl, refl)

validate_sqlite :
    (s t : Settings)
    → s.storage_backend ≡ sqlite
    → validate_for sqlite s ≡ some t
    → IsUrlFor sqlite s.db_url t.db_url
      × (t.storage_backend ≡ sqlite)
      × (validate_for sqlite t ≡ some t)
unfolding validate_for
validate_sqlite s t b h =
    let same : default_sqlite s s.db_url ≡ t = ground arith in
    let (url, again, backend) = default_sqlite_lem s s.db_url refl in
    subst
      (λ (t : Settings).
        IsUrlFor sqlite s.db_url t.db_url
        × (t.storage_backend ≡ sqlite)
        × (validate_for sqlite t ≡ some t))
      same (url, backend ∙ b, ap some again)

starts_with-pg_url :
    (s : Settings) (p : Text × Text × Text × Text)
    → starts_with (lit "postgresql://") (pg_url s p) ≡ true
unfolding pg_url
starts_with-pg_url s p = starts_with-append (lit "postgresql://") _

pg_parts-db_url : (s : Settings) (u : Option Text) → pg_parts (record s { db_url = u }) ≡ pg_parts s
unfolding pg_parts
pg_parts-db_url s u = refl

pg_url-db_url :
    (s : Settings) (u : Option Text) (p : Text × Text × Text × Text)
    → pg_url (record s { db_url = u }) p ≡ pg_url s p
unfolding pg_url
pg_url-db_url s u p = refl

from_parts :
    (s t : Settings) (p : Text × Text × Text × Text)
    → s.storage_backend ≡ pgsql
    → pg_parts s ≡ some p
    → t ≡ record s { db_url = some (pg_url s p) }
    → IsUrlFor pgsql s.db_url t.db_url × (t.storage_backend ≡ pgsql) × (validate_pgsql t ≡ some t)
unfolding validate_pgsql
from_parts s t p b e h =
    let u = some (pg_url s p) in
    rw h (
      starts_with-pg_url s p,
      b,
      rw (pg_parts-db_url s u, e, validate_pgsql)
          (ap (λ w. some (record s { db_url = some w })) (pg_url-db_url s u p)),
    )

keep_pg_url_lem :
    (s t : Settings)
    → keep_pg_url s s.db_url ≡ some t
    → (t ≡ s) × (IsUrlFor pgsql s.db_url s.db_url)
unfolding keep_pg_url
keep_pg_url_lem s t h = ground arith

kept :
    (s t : Settings)
    → s.storage_backend ≡ pgsql
    → pg_parts s ≡ none
    → keep_pg_url s s.db_url ≡ some t
    → IsUrlFor pgsql s.db_url t.db_url × (t.storage_backend ≡ pgsql) × (validate_pgsql t ≡ some t)
unfolding validate_pgsql
kept s t b e h =
    let (same, fits) = keep_pg_url_lem s t h in
    rw same (fits, b, rw (e, validate_pgsql) (rw same at h))

validate_pgsql_lem :
    (s t : Settings)
    → s.storage_backend ≡ pgsql
    → validate_pgsql s ≡ some t
    → IsUrlFor pgsql s.db_url t.db_url × (t.storage_backend ≡ pgsql) × (validate_pgsql t ≡ some t)
validate_pgsql_lem s t b h = elim (Option-cases (pg_parts s)) [
  | inl e ↦ kept s t b e (unfold validate_pgsql in rw (e, validate_pgsql) at h)
  | inr (p, e) ↦ from_parts s t p b e (unfold validate_pgsql in cc (rw (e, validate_pgsql) at h))
]

-- A validated configuration has a database URL: for SQLite the one that was given, unchecked, or the
-- program's own file if there was none, and for PostgreSQL one of PostgreSQL; the validator keeps
-- the backend, and changes nothing when it runs on its own result.
pub validate_storage_config_lem :
    (s t : Settings)
    → validate_storage_config s ≡ some t
    → IsUrlFor s.storage_backend s.db_url t.db_url
      × (t.storage_backend ≡ s.storage_backend)
      × (validate_storage_config t ≡ some t)
unfolding validate_storage_config
validate_storage_config_lem s t h = ground (arith, validate_sqlite s t, validate_pgsql_lem s t)
