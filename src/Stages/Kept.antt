-- ===== src/Stages/Kept.antt =====
-- Invariants that the first three stages keep, whether they return or raise, and however often
-- their calls are retried.
use mathlib.Core.Path.{subst}
use geo_optimizer.Base.{
  Bool-cases, List, Option, [], inl, inr, is_empty, none, refl, some, suc, sym, zero, ℕ, ◌*◌, ◌++◌,
  ◌+◌, ◌∷◌, ◌≡◌, ◌⊎◌,
}
use geo_optimizer.Text.{Text}
use geo_optimizer.Value.{Emission}
use geo_optimizer.Errors.{Error, Result, ok, err}
use geo_optimizer.Http.{Response}
use geo_optimizer.Models.{ExtractedPage}
use geo_optimizer.Dict.{Dict}
use geo_optimizer.Retry
use geo_optimizer.Retry.{RetryPolicy, Ran, finish, after_call, attempts}
use geo_optimizer.Discover.{Found, found, failed, StrategyOutput, collect_discovered}
use geo_optimizer.Extract.{Extraction}
use geo_optimizer.Storage.{add_discovered_urls, upsert_extracted_pages}
use geo_optimizer.World.{World, Env, Exec, storing, modify}
use geo_optimizer.World.Keeps.{Keeps, Keeps-gets, Keeps-raise, Keeps-pure, Keeps-modify, Keeps-bind}
use geo_optimizer.Pipeline.Framed.{IsEventFramed, now-Keeps, uuid4-Keeps, new_event-Keeps}
use geo_optimizer.Stages.{
  Outside, attempt, retried, of_found, on_spider_event, on_spider_events, scan_site, with_spider,
  discover, run_discovery, on_page_event, on_page_events, answered, extract_one, extract_all,
  extract, run_extraction, run_canonicalization, set_validators,
}

attempt-world : {A : Type 0} (r : Result A × World) → (attempt r).1 ≡ r.1
unfolding attempt
attempt-world (ok a, w) = refl
attempt-world (err e, w) = refl

module _ {A : Type 0} (P : World → Type 0) (policy : RetryPolicy) (m : Exec A)
    (m-Keeps : Keeps P m) where
  called : World → (A ⊎ Error) × World
  called v = attempt (m v)

  called-Keeps : (w : World) → P w → P (called w).1
  unfolding called
  called-Keeps w h = subst P (sym (attempt-world (m w))) (m-Keeps.at w h)

  after_call-Keeps :
      (r : (A ⊎ Error) × World) (slept : List ℕ) (handler : Error → World → Ran World Error A)
      → P r.1
      → ((e : Error) (w : World) → P w → P (handler e w).state)
      → P (after_call called policy r slept handler).state
  unfolding after_call
  after_call-Keeps (inl a, w) slept handler h k = h
  after_call-Keeps (inr e, w) slept handler h k = k e w h

  finish-Keeps :
      (last : Option Error) (w : World) (slept : List ℕ)
      → P w
      → P (finish called policy last w slept).state
  unfolding finish
  finish-Keeps none w slept h = h
  finish-Keeps (some e) w slept h = h

  attempts-Keeps :
      (left delay : ℕ) (last : Option Error) (w : World) (slept : List ℕ)
      → P w
      → P (attempts called policy left delay last w slept).state
  unfolding attempts
  attempts-Keeps zero delay last w slept h = finish-Keeps last w slept h
  attempts-Keeps (suc zero) delay last w slept h =
      after_call-Keeps (called w) slept _ (called-Keeps w h)
        (λ e v k. finish-Keeps (some e) v slept k)
  attempts-Keeps (suc (suc left)) delay last w slept h =
      after_call-Keeps (called w) slept _ (called-Keeps w h) (λ e v k.
        attempts-Keeps (suc left) (delay * policy.backoff_multiplier) (some e) v
          (slept ++ delay ∷ []) k)

  pub retried-Keeps : Keeps P (retried policy m)
  unfolding retried called Retry.run
  retried-Keeps = record {
    at = λ w h. attempts-Keeps (policy.retries + 1) policy.base_delay none w [] h;
  }

-- What an invariant must bear besides: rows of discovered URLs, of pages and of validators.
pub record IsFetchFramed (env : Env) (P : World → Type 0) : Type 0 where
  pub add_discovered_urls-Keeps :
      (run_id : ℕ) (urls : List (Text × Text))
      → Keeps P (storing (add_discovered_urls env.row_id run_id urls))
  pub upsert_extracted_pages-Keeps :
      (pages : List ExtractedPage) → Keeps P (storing (upsert_extracted_pages env.row_id pages))
  pub set_validators-Keeps :
      (new : Dict Text (Option Text × Option Text))
      → Keeps P (modify (λ w. record w { store = set_validators new w.store }))

module _ (env : Env) (outside : Outside) (P : World → Type 0) (framed : IsEventFramed env P)
    (fetching : IsFetchFramed env P) where
  open framed use {create_event-Keeps}

  of_found-Keeps : {A : Type 0} (r : Found A) → Keeps P (of_found env outside r)
  unfolding of_found
  of_found-Keeps (found a) = Keeps-pure a
  of_found-Keeps (failed e) = Keeps-raise _

  on_spider_event-Keeps : (e : Emission) → Keeps P (on_spider_event env outside e)
  unfolding on_spider_event
  on_spider_event-Keeps e = Keeps-bind _ _ (Keeps-gets _) (λ run.
      Keeps-bind _ _ (new_event-Keeps env P framed _ _ _ _) (λ event. create_event-Keeps event))

  on_spider_events-Keeps : (es : List Emission) → Keeps P (on_spider_events env outside es)
  unfolding on_spider_events
  on_spider_events-Keeps [] = Keeps-pure tt
  on_spider_events-Keeps (e ∷ es) =
      Keeps-bind _ _ (on_spider_event-Keeps e) (λ _. on_spider_events-Keeps es)

  scan_site-Keeps : (seed_url : Text) → Keeps P (scan_site env outside seed_url)
  unfolding scan_site
  scan_site-Keeps seed_url = Keeps-bind _ _ (Keeps-gets _) (λ client.
      Keeps-bind _ _ (now-Keeps env P framed) (λ started.
        Keeps-bind _ _ (on_spider_events-Keeps _) (λ _.
          Keeps-bind _ _ (now-Keeps env P framed)
            (λ ended. Keeps-bind _ _ (on_spider_event-Keeps _) (λ _. Keeps-pure _)))))

  with_spider-Keeps :
      (target_url : Text) (outputs : List StrategyOutput)
      → Keeps P (with_spider env outside target_url outputs)
  unfolding with_spider
  with_spider-Keeps target_url outputs = elim (Bool-cases (is_empty (collect_discovered outputs))) [
    | inl y ↦ rw y (
        Keeps-bind _ _ (Keeps-gets _) (λ client.
          Keeps-bind _ _ (scan_site-Keeps target_url)
            (λ ranked. Keeps-bind _ _ (of_found-Keeps _) (λ output. Keeps-pure _))))
    | inr n ↦ rw n (Keeps-pure outputs)
  ]

  discover-Keeps : (target_url : Text) → Keeps P (discover env outside target_url)
  unfolding discover
  discover-Keeps target_url = Keeps-bind _ _ (of_found-Keeps _) (λ _.
      Keeps-bind _ _ (uuid4-Keeps env P framed) (λ id. Keeps-bind _ _ (Keeps-gets _) (λ client.
        Keeps-bind _ _ (of_found-Keeps _) (λ outputs.
          Keeps-bind _ _ (with_spider-Keeps target_url outputs) (λ outputs'. Keeps-pure _)))))

  pub run_discovery-Keeps : Keeps P (run_discovery env outside)
  unfolding run_discovery
  run_discovery-Keeps = Keeps-bind _ _ (Keeps-gets _) (λ run.
      Keeps-bind _ _ (retried-Keeps P outside.policy _ (discover-Keeps run.target_url))
        (λ urls. fetching.add_discovered_urls-Keeps run.id urls))

  on_page_event-Keeps : (e : Emission) → Keeps P (on_page_event env outside e)
  unfolding on_page_event
  on_page_event-Keeps e = Keeps-bind _ _ (Keeps-gets _) (λ run.
      Keeps-bind _ _ (now-Keeps env P framed)
        (λ default. Keeps-bind _ _ (uuid4-Keeps env P framed) (λ id. create_event-Keeps _)))

  on_page_events-Keeps : (es : List Emission) → Keeps P (on_page_events env outside es)
  unfolding on_page_events
  on_page_events-Keeps [] = Keeps-pure tt
  on_page_events-Keeps (e ∷ es) =
      Keeps-bind _ _ (on_page_event-Keeps e) (λ _. on_page_events-Keeps es)

  answered-Keeps : (r : Option Response) → Keeps P (answered env outside r)
  unfolding answered
  answered-Keeps none = Keeps-raise _
  answered-Keeps (some r) = Keeps-pure r

  extract_one-Keeps :
      (url provenance : Text) (s : Extraction) → Keeps P (extract_one env outside url provenance s)
  unfolding extract_one
  extract_one-Keeps url provenance s = Keeps-bind _ _ (Keeps-gets _) (λ run.
      Keeps-bind _ _ (Keeps-gets _) (λ at. Keeps-bind _ _ (Keeps-gets _) (λ answer.
        Keeps-bind _ _ (answered-Keeps answer) (λ response.
          Keeps-bind _ _ (Keeps-modify _ (λ w h. framed.readings w _ h))
            (λ _. Keeps-bind _ _ (on_page_events-Keeps _) (λ _. Keeps-pure _))))))

  extract_all-Keeps :
      (urls : List (Text × Text)) (s : Extraction) → Keeps P (extract_all env outside urls s)
  unfolding extract_all
  extract_all-Keeps [] s = Keeps-pure s
  extract_all-Keeps ((url, provenance) ∷ urls) s =
      Keeps-bind _ _ (extract_one-Keeps url provenance s) (λ t. extract_all-Keeps urls t)

  extract-Keeps : Keeps P (extract env outside)
  unfolding extract
  extract-Keeps =
      Keeps-bind _ _ (Keeps-gets _)
        (λ urls. Keeps-bind _ _ (Keeps-gets _) (λ at. extract_all-Keeps urls _))

  pub run_extraction-Keeps : Keeps P (run_extraction env outside)
  unfolding run_extraction
  run_extraction-Keeps =
      Keeps-bind _ _ (retried-Keeps P outside.policy _ extract-Keeps) (λ extraction.
        Keeps-bind _ _ (fetching.upsert_extracted_pages-Keeps extraction.pages)
          (λ _. fetching.set_validators-Keeps extraction.new_validators))

  pub run_canonicalization-Keeps : Keeps P (run_canonicalization env outside)
  unfolding run_canonicalization
  run_canonicalization-Keeps =
      Keeps-bind _ _ (Keeps-gets _) (λ pages. fetching.upsert_extracted_pages-Keeps _)
