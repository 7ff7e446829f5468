-- ===== src/Storage/Pages.antt =====
-- What an upsert of pages does to the rows of a run.
use geo_optimizer.Base.{
  Bool, List, Option-cases, [], any, ap, arith, codes_beq_iff, codes_eq, inl, inr, nat_eq, refl,
  some, sym, true, ℕ, ◌&&◌, ◌++◌, ◌==◌, ◌||◌, ◌∙◌, ◌∷◌, ◌≡◌,
}
use geo_optimizer.Text.{Text}
use geo_optimizer.Models.{ExtractedPage}
use geo_optimizer.Errors.{ok}
use geo_optimizer.Storage.{
  Store, PageRow, same_page, write_page, upsert_page, upsert_pages, upsert_extracted_pages,
  pages_of,
}

-- A row for a run and a URL is there.
abbrev pub has_row : ℕ → Text → List PageRow → Bool
has_row run_id url rows = any (λ (r : PageRow). r.1.run_id == run_id && r.1.url == url) rows

has_row-write_page :
    (page : ExtractedPage) (run_id : ℕ) (url : Text) (rows : List PageRow)
    → has_row run_id url (write_page page rows) ≡ has_row run_id url rows
unfolding write_page same_page
has_row-write_page page run_id url [] = refl
has_row-write_page page run_id url (row ∷ rows) =
    ground (arith, has_row-write_page page run_id url rows, codes_beq_iff row.1.url page.url)

any-append :
    {A : Type 0} (p : A → Bool) (xs ys : List A) → any p (xs ++ ys) ≡ (any p xs || any p ys)
any-append p [] ys = refl
any-append p (x ∷ xs) ys = ground (arith, any-append p xs ys)

has_row-upsert_page :
    (row_id : ℕ → Text → ℕ) (page : ExtractedPage) (rows rows' : List PageRow) (run_id : ℕ)
    (url : Text)
    → upsert_page row_id page rows ≡ some rows'
    → has_row run_id url rows ≡ true
    → has_row run_id url rows' ≡ true
unfolding upsert_page
has_row-upsert_page row_id page rows rows' run_id url h k = ground (
  arith,
  has_row-write_page page run_id url rows,
  any-append (λ (r : PageRow). r.1.run_id == run_id && r.1.url == url) rows
      ((row_id page.run_id page.url, page) ∷ []),
)

has_row-upsert_pages :
    (row_id : ℕ → Text → ℕ) (pages : List ExtractedPage) (rows rows' : List PageRow) (run_id : ℕ)
    (url : Text)
    → upsert_pages row_id pages rows ≡ some rows'
    → has_row run_id url rows ≡ true
    → has_row run_id url rows' ≡ true
unfolding upsert_pages
has_row-upsert_pages row_id [] rows rows' run_id url h k = ground arith
has_row-upsert_pages row_id (page ∷ pages) rows rows' run_id url h k =
    elim (Option-cases (upsert_page row_id page rows)) [
      | inl e ↦ cc (rw (e, upsert_pages) at h)
      | inr (next, e) ↦
          has_row-upsert_pages row_id pages next rows' run_id url (rw (e, upsert_pages) at h)
            (has_row-upsert_page row_id page rows next run_id url e k)
    ]

has_row-pages_of :
    (run_id : ℕ) (url : Text) (rows : List PageRow)
    → any (λ (p : ExtractedPage). p.url == url) (pages_of run_id rows) ≡ has_row run_id url rows
unfolding pages_of
has_row-pages_of run_id url [] = refl
has_row-pages_of run_id url (row ∷ rows) = ground (arith, has_row-pages_of run_id url rows)

-- An upsert deletes nothing: a URL under which a run has a page keeps one, whatever is written.
pub upsert_keeps_urls :
    (row_id : ℕ → Text → ℕ) (pages : List ExtractedPage) (store store' : Store) (run_id : ℕ)
    (url : Text)
    → upsert_extracted_pages row_id pages store ≡ ok store'
    → any (λ (p : ExtractedPage). p.url == url) (pages_of run_id store.extracted_pages) ≡ true
    → any (λ (p : ExtractedPage). p.url == url) (pages_of run_id store'.extracted_pages) ≡ true
unfolding upsert_extracted_pages
upsert_keeps_urls row_id pages store store' run_id url h k =
    elim (Option-cases (upsert_pages row_id pages store.extracted_pages)) [
      | inl e ↦ cc (rw (e, upsert_extracted_pages) at h)
      | inr (rows, e) ↦
          let same : rows ≡ store'.extracted_pages =
            ground (arith, rw (e, upsert_extracted_pages) at h) in
          has_row-pages_of run_id url store'.extracted_pages
          ∙ has_row-upsert_pages row_id pages store.extracted_pages store'.extracted_pages run_id
              url (e ∙ ap some same) (sym (has_row-pages_of run_id url store.extracted_pages) ∙ k)
    ]
