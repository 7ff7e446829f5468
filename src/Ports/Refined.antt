-- ===== src/Ports/Refined.antt =====
-- The repository over tables does what the port promises.
use mathlib.Core.Path.{fun_ext}
use geo_optimizer.Base.{
  Eq, List, Option, Option-cases, [], ap, arith, codes_eq, if◌then◌else◌, inl, inr, is_some, nat_eq,
  none, refl, some, ℕ, ◌∙◌, ◌∷◌, ◌≡◌,
}
use geo_optimizer.Text.{Text}
use geo_optimizer.Dict.{Dict, lookup, insert, has_key, lookup-insert}
use geo_optimizer.Errors.{Result, ok, err, integrity_error}
use geo_optimizer.Models.{CrawlRun, GenerationArtifact}
use geo_optimizer.Storage.{
  Store, create_run, update_run, updated_run, create_work_item, create_event, save_artifact,
  set_validator, get_run, get_artifact, get_validator,
}
use geo_optimizer.Storage.Runs.{saved}
use geo_optimizer.Ports.{
  Repository, Call, call_create_run, call_update_run, call_create_work_item, call_create_event,
  call_save_artifact, call_set_validator, put, unless_present, promised, and_then, all_calls,
}

-- The answers of the tables.
unfoldable pub answers : Store → Repository
answers s = record {
  run = λ id. get_run id s;
  work_item = λ id. lookup id s.work_items;
  event = λ id. lookup id s.crawl_events;
  artifact = λ id. get_artifact id s;
  validator = λ url. get_validator url s;
}

-- The call of the repository over tables.
unfoldable pub perform : Call → Store → Result Store
perform (call_create_run run) s = create_run run s
perform (call_update_run run) s = update_run run s
perform (call_create_work_item item) s = create_work_item item s
perform (call_create_event event) s = create_event event s
perform (call_save_artifact artifact) s = ok (save_artifact artifact s)
perform (call_set_validator url etag last_modified) s = ok (set_validator url etag last_modified s)

unfoldable pub with_answers : Result Store → Result Repository
with_answers (ok s) = ok (answers s)
with_answers (err e) = err e

lookup-put :
    {K V : Type 0} ⦃e : Eq K⦄ (k : K) (v : V) (d : Dict K V)
    → (λ j. lookup j (insert k v d)) ≡ put k (some v) (λ j. lookup j d)
unfolding put
lookup-put k v d = fun_ext (λ j. lookup-insert k j v d)

get_validator-put :
    (url : Text) (row : Option Text × Option Text) (s : Store)
    → (λ u. get_validator u (record s { url_validators = insert url row s.url_validators }))
      ≡ put url row (λ u. get_validator u s)
unfolding put get_validator
get_validator-put url row s =
    fun_ext (λ u. ground (arith, lookup-insert url u row s.url_validators))

-- A record that is created unless there is one.
created :
    {V : Type 0} (found : Option V) (t : Store)
    → with_answers (if is_some found then err integrity_error else ok t)
      ≡ unless_present found (answers t)
unfolding with_answers unless_present
created none t = refl
created (some v) t = refl

module _ (s : Store) where
  -- The answers, with others for the runs, the artifacts or the validators.
  abbrev with_runs : (ℕ → Option CrawlRun) → Result Repository
  with_runs f = ok (record (answers s) { run = f })

  abbrev with_artifacts : (ℕ → Option GenerationArtifact) → Result Repository
  with_artifacts f = ok (record (answers s) { artifact = f })

  abbrev with_validators : (Text → Option Text × Option Text) → Result Repository
  with_validators f = ok (record (answers s) { validator = f })

  update_run-inserts :
      (run : CrawlRun)
      → update_run run s
        ≡ ok (record s { runs = insert run.id (saved (get_run run.id s) run) s.runs })
  unfolding get_run update_run create_run has_key updated_run
  update_run-inserts run = elim (Option-cases (lookup run.id s.runs)) [
    | inl n ↦ ground arith
    | inr (row, e) ↦ ground arith
  ]

  with_answers-perform : (call : Call) → with_answers (perform call s) ≡ promised call (answers s)
  unfolding perform promised answers with_answers get_run get_validator get_artifact create_run
      create_work_item create_event save_artifact set_validator has_key
  with_answers-perform (call_create_run run) =
      created (lookup run.id s.runs) (record s { runs = insert run.id run s.runs })
      ∙ ap (λ f. unless_present (lookup run.id s.runs) (record (answers s) { run = f }))
          (lookup-put run.id run s.runs)
  with_answers-perform (call_update_run run) =
      ap with_answers (update_run-inserts run)
      ∙ ap with_runs (lookup-put run.id (saved (get_run run.id s) run) s.runs)
  with_answers-perform (call_create_work_item item) =
      created (lookup item.id s.work_items)
        (record s { work_items = insert item.id item s.work_items })
      ∙ ap
          (λ f. unless_present (lookup item.id s.work_items) (record (answers s) { work_item = f }))
          (lookup-put item.id item s.work_items)
  with_answers-perform (call_create_event event) =
      created (lookup event.id s.crawl_events)
        (record s { crawl_events = insert event.id event s.crawl_events })
      ∙ ap (λ f. unless_present (lookup event.id s.crawl_events) (record (answers s) { event = f }))
          (lookup-put event.id event s.crawl_events)
  with_answers-perform (call_save_artifact artifact) =
      ap with_artifacts (lookup-put artifact.run_id artifact s.artifacts)
  with_answers-perform (call_set_validator url etag last_modified) =
      ap with_validators (get_validator-put url (etag, last_modified) s)

and_then-refined :
    (r : Result Store) (q : Result Repository) (f : Store → Result Store)
    (g : Repository → Result Repository)
    → with_answers r ≡ q
    → ((s : Store) → with_answers (f s) ≡ g (answers s))
    → with_answers (and_then r f) ≡ and_then q g
unfolding with_answers and_then
and_then-refined (ok s) q f g h k = rw⁻¹ (h) (k s)
and_then-refined (err e) q f g h k = rw⁻¹ (h) refl

-- The repository over tables refines the port: any calls that write, made one after another up to
-- the first that raises, raise the error that the port promises, or leave the answers that it
-- promises.
pub with_answers-all_calls :
    (calls : List Call) (s : Store)
    → with_answers (all_calls perform calls s) ≡ all_calls promised calls (answers s)
unfolding all_calls
with_answers-all_calls [] s = unfold with_answers in refl
with_answers-all_calls (call ∷ calls) s =
    and_then-refined (perform call s) (promised call (answers s)) (all_calls perform calls)
      (all_calls promised calls) (with_answers-perform s call) (with_answers-all_calls calls)
