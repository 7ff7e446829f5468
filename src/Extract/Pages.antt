-- ===== src/Extract/Pages.antt =====
-- The pages that extraction gives, and when it gives any.
use mathlib.Core.Path.{subst}
use mathlib.Core.List.{map-append, append-nil, append_assoc}
use geo_optimizer.Base.{
  All, All-append, Bool, Bool-cases, List, Option, Option-cases, [], ap, arith, codes_beq, codes_eq,
  false, filter, if◌then◌else◌, inl, inr, is_some, length, length-append, map, nat_eq, none, refl,
  some, sym, true, ℕ, ◌&&◌, ◌++◌, ◌+◌, ◌==◌, ◌∙◌, ◌∷◌, ◌≡◌, ◌≤◌,
}
use geo_optimizer.Text.{Text, lit}
use geo_optimizer.Dict.{Dict, lookup, lookup_or}
use geo_optimizer.Http.{Response}
use geo_optimizer.Models.{ExtractedPage}
use geo_optimizer.Canonical.{total_confidence}
use geo_optimizer.Extract.{
  Head, Extraction, extract_title, extract_description, page_of, skip_page, keep_page, extract_page,
  extract_pages, extract_metadata, request_headers, nothing_extracted,
}
use geo_optimizer.Extract.Sources.{extract_title-IsGraded}

page_of-confidence :
    (run_id : ℕ) (url provenance : Text) (head : Head)
    → total_confidence
        (page_of run_id url provenance (extract_title head) (extract_description head))
      ≤ 20000
unfolding total_confidence lookup_or lookup page_of lit codes_beq
page_of-confidence run_id url provenance head =
    let (t, d) = extract_title-IsGraded head in omega (arith, t.2, d.2)

not_ok : (code : ℕ) → (code == 304) ≡ true → (code == 200) ≡ false
not_ok code h = ground arith

module _ (time : ℕ → ℕ) (parse : Text → Head) (run_id : ℕ) where
  skip_page-events :
      (url reason : Text) (code : ℕ) (s : Extraction)
      → length (skip_page time parse run_id url reason code s).events ≡ length s.events + 1
  unfolding skip_page
  skip_page-events url reason code s = length-append s.events _

  keep_page-events :
      (url provenance : Text) (response : Response) (s : Extraction)
      → length (keep_page time parse run_id url provenance response s).events ≡ length s.events + 1
  unfolding keep_page
  keep_page-events url provenance response s = length-append s.events _

  extract_page-events :
      (url provenance : Text) (response : Response) (s : Extraction)
      → length (extract_page time parse run_id url provenance response s).events
        ≡ length s.events + 1
  unfolding extract_page
  extract_page-events url provenance response s = elim (Bool-cases (response.status_code == 304)) [
    | inl y ↦ rw y (skip_page-events url (lit "not_modified") 304 s)
    | inr n ↦ elim (Bool-cases (response.status_code == 200)) [
      | inl y ↦ rw (n, y) (keep_page-events url provenance response s)
      | inr m ↦ rw (n, m) (skip_page-events url (lit "http_error") response.status_code s)
    ]
  ]

  -- The page that is kept, and the ones that were there.
  pub extract_page-pages :
      (url provenance : Text) (response : Response) (s : Extraction)
      → (extract_page time parse run_id url provenance response s).pages ≡ (
          if response.status_code == 200
          then s.pages
            ++ page_of run_id url provenance
                (extract_title (parse response.text))
                (extract_description (parse response.text))
              ∷ []
          else s.pages)
  unfolding extract_page skip_page keep_page
  extract_page-pages url provenance response s = elim (Bool-cases (response.status_code == 304)) [
    | inl y ↦ rw (y, not_ok response.status_code y) refl
    | inr n ↦ elim (Bool-cases (response.status_code == 200)) [
      | inl y ↦ rw (n, y) refl
      | inr m ↦ rw (n, m) refl
    ]
  ]

module _ (time : ℕ → ℕ) (parse : Text → Head) (run_id : ℕ)
    (get : Text → List (Text × Text) → Option Response)
    (validators : Dict Text (Option Text × Option Text)) where
  -- What the server answers for a URL, with the validators that are known.
  abbrev pub answer : Text → Option Response
  answer url = get url (request_headers (lookup url validators))

  -- The answer is a page.
  abbrev pub is_page : Text → Bool
  is_page url = elim (answer url) [ none ↦ false | some response ↦ response.status_code == 200 ]

  abbrev pub all_answered : List (Text × Text) → Bool
  all_answered [] = true
  all_answered ((url, provenance) ∷ urls) = is_some (answer url) && all_answered urls

  abbrev pub page_urls : List (Text × Text) → List Text
  page_urls urls = filter is_page (map (λ p. p.0) urls)

  abbrev IsBounded : Extraction → Type 0
  IsBounded s = All (λ p. total_confidence p ≤ 20000) s.pages

  -- The pages after the loop, from those before it, and the number of events.
  record Gone (urls : List (Text × Text)) (s t : Extraction) : Type 0 where
    pages : map (λ p. p.url) t.pages ≡ map (λ p. p.url) s.pages ++ page_urls urls
    events : length t.events ≡ length s.events + length urls
    bounds : IsBounded s → IsBounded t

  Gone-here : (s : Extraction) → Gone [] s s
  Gone-here s = record { pages = sym (append-nil _); events = omega arith; bounds = λ h. h }

  page_urls-page :
      (url provenance : Text) (urls : List (Text × Text)) (response : Response)
      → answer url ≡ some response
      → (response.status_code == 200) ≡ true
      → page_urls ((url, provenance) ∷ urls) ≡ url ∷ page_urls urls
  page_urls-page url provenance urls response e y = ground arith

  page_urls-other :
      (url provenance : Text) (urls : List (Text × Text)) (response : Response)
      → answer url ≡ some response
      → (response.status_code == 200) ≡ false
      → page_urls ((url, provenance) ∷ urls) ≡ page_urls urls
  page_urls-other url provenance urls response e n = ground arith

  Gone-page :
      (url provenance : Text) (urls : List (Text × Text)) (response : Response) (s t : Extraction)
      → answer url ≡ some response
      → (response.status_code == 200) ≡ true
      → Gone urls (extract_page time parse run_id url provenance response s) t
      → Gone ((url, provenance) ∷ urls) s t
  unfolding page_of
  Gone-page url provenance urls response s t e y g =
      let added = extract_page-pages time parse run_id url provenance response s in
      let more = extract_page-events time parse run_id url provenance response s in
      let page =
        page_of run_id url provenance (extract_title (parse response.text))
          (extract_description (parse response.text)) in
      record {
        pages =
            g.pages
            ∙ (rw (added, y)
                (ap (λ l. l ++ page_urls urls)
                    (map-append (λ (p : ExtractedPage). p.url) s.pages (page ∷ []))
                  ∙ (append_assoc (map (λ p. p.url) s.pages) (url ∷ []) (page_urls urls)
                      ∙ ap (λ l. map (λ p. p.url) s.pages ++ l)
                          (sym (page_urls-page url provenance urls response e y)))));
        events = omega (arith, more, g.events);
        bounds = λ h. g.bounds (
            rw (added, y)
              (All-append (λ p. total_confidence p ≤ 20000) s.pages _ h
                (page_of-confidence run_id url provenance (parse response.text), tt)));
      }

  Gone-other :
      (url provenance : Text) (urls : List (Text × Text)) (response : Response) (s t : Extraction)
      → answer url ≡ some response
      → (response.status_code == 200) ≡ false
      → Gone urls (extract_page time parse run_id url provenance response s) t
      → Gone ((url, provenance) ∷ urls) s t
  Gone-other url provenance urls response s t e n g =
      let same = extract_page-pages time parse run_id url provenance response s in
      let more = extract_page-events time parse run_id url provenance response s in
      record {
        pages =
            g.pages
            ∙ (rw (same, n)
                (ap (λ l. map (λ p. p.url) s.pages ++ l)
                  (sym (page_urls-other url provenance urls response e n))));
        events = omega (arith, more, g.events);
        bounds = λ h. g.bounds (rw (same, n) h);
      }

  extract_pages-Gone :
      (urls : List (Text × Text)) (s t : Extraction)
      → extract_pages time parse run_id get validators urls s ≡ some t
      → Gone urls s t
  unfolding extract_pages
  extract_pages-Gone [] s t h =
      let same : s ≡ t = ground arith in subst (Gone [] s) same (Gone-here s)
  extract_pages-Gone ((url, provenance) ∷ urls) s t h = elim (Option-cases (answer url)) [
    | inl e ↦ absurd (ground arith)
    | inr (response, e) ↦
        let s' = extract_page time parse run_id url provenance response s in
        let h' : extract_pages time parse run_id get validators urls s' ≡ some t = ground arith in
        let rest = extract_pages-Gone urls s' t h' in
        elim (Bool-cases (response.status_code == 200)) [
          | inl y ↦ Gone-page url provenance urls response s t e y rest
          | inr n ↦ Gone-other url provenance urls response s t e n rest
        ]
  ]

  -- Extraction that returns gives a page for exactly the URLs whose answer has status 200, in
  -- their order, and one event for every URL; no page has more than the greatest confidence.
  pub extract_metadata_lem :
      (urls : List (Text × Text)) (readings : ℕ) (found : Extraction)
      → extract_metadata time parse run_id get validators urls readings ≡ some found
      → (map (λ p. p.url) found.pages ≡ page_urls urls)
        × (length found.events ≡ length urls)
        × All (λ p. total_confidence p ≤ 20000) found.pages
  unfolding extract_metadata nothing_extracted
  extract_metadata_lem urls readings found h =
      let g = extract_pages-Gone urls _ found h in (g.pages, omega (arith, g.events), g.bounds tt)

  extract_pages-returns :
      (urls : List (Text × Text)) (s : Extraction)
      → is_some (extract_pages time parse run_id get validators urls s) ≡ all_answered urls
  unfolding extract_pages
  extract_pages-returns [] s = refl
  extract_pages-returns ((url, provenance) ∷ urls) s = elim (Option-cases (answer url)) [
    | inl e ↦ ground arith
    | inr (response, e) ↦ ground (
      arith,
      extract_pages-returns urls (extract_page time parse run_id url provenance response s),
    )
  ]

  -- Extraction returns exactly when every request is answered: one that fails ends it all.
  pub extract_metadata_returns :
      (urls : List (Text × Text)) (readings : ℕ)
      → is_some (extract_metadata time parse run_id get validators urls readings)
        ≡ all_answered urls
  unfolding extract_metadata
  extract_metadata_returns urls readings = extract_pages-returns urls (nothing_extracted readings)
