-- ===== src/Upload/Service/Listing/Pages.antt =====
-- The pages that ListDatasets of backend/upload-service/internal/service/management.go gives, put together.
use mathlib.Core.Path.{ap₂}
use native.Mathlib.Nat.{suc-mul, zero-mul, div-mul-le_self, lt-div-mul-add}
use anti_fraud_detector.Prelude.{
  ℕ, zero, suc, ◌+◌, ◌-◌, ◌*◌, ◌%◌, ◌^◌, ◌≤◌, ◌<◌, String, false, ◌≡◌, refl, sym, ap, subst, ◌∙◌,
  ◌&&◌, not, Option, none, some, List, [], ◌∷◌, ◌++◌, ◌==◌, if◌then◌else◌, ltb, length, map, take,
  Option-cases, inl, inr, drop, take-drop-append, take-whole, arith,
}
use anti_fraud_detector.Prelude.Int.{ℤ, pos}
use anti_fraud_detector.Prelude.Text.{CaseTable, to_upper, trim_space}
use anti_fraud_detector.Upload.Domain.{Time, is_allowed_status}
use anti_fraud_detector.Upload.Db.{Db, Conn, auto_commit}
use anti_fraud_detector.Upload.Repository.Listing.{DatasetListItem, matching, list_datasets}
use anti_fraud_detector.Upload.Service.Start.{Answer, answer, refuse}
use anti_fraud_detector.Upload.Service.Listing.{
  DatasetSummary, DatasetListResponse, summary_of, page_size_of, total_pages_of, is_later_than,
  offset_of, at_least_one, listed, list_page,
}

abbrev pub items_of : Answer DatasetListResponse → List DatasetSummary
items_of (answer r) = r.items
items_of (refuse e) = []

map-append : {A B : Type 0} (f : A → B) (xs ys : List A) → map f (xs ++ ys) ≡ map f xs ++ map f ys
map-append f [] ys = refl
map-append f (x ∷ xs) ys = ap (λ zs. f x ∷ zs) (map-append f xs ys)

-- The page size is never zero.
page_size_of-pos : (n : ℤ) → 1 ≤ page_size_of n
unfolding page_size_of
page_size_of-pos n = ground arith

-- The pages hold all the rows, and the last one is not empty.
total_pages_of-bounds :
    (total size : ℕ)
    → 1 ≤ size
    → (total ≤ total_pages_of total size * size) × (total_pages_of total size * size < total + size)
unfolding total_pages_of
total_pages_of-bounds zero size h = (omega arith, omega (arith, zero-mul size, h))
total_pages_of-bounds (suc n) size h =
    let below = div-mul-le_self (suc n + size - 1) size in
    let above = lt-div-mul-add {a = suc n + size - 1} h in ground (arith, below, above)

small_offset :
    (k : ℕ) → k < 2 ^ 63 → (if ltb (k % 2 ^ 64) (2 ^ 63) then some (k % 2 ^ 64) else none) ≡ some k
small_offset k h = ground arith

pred-suc : (n : ℕ) → n ≡ suc n - 1
pred-suc n = omega arith

-- The offset of a page does not leave 64 bits.
offset_of-mul : (n size : ℕ) → n * size < 2 ^ 63 → offset_of (suc n) size ≡ some (n * size)
unfolding offset_of
offset_of-mul n size h =
    subst
      (λ m.
        (if ltb (m * size % 2 ^ 64) (2 ^ 63) then some (m * size % 2 ^ 64) else none)
        ≡ some (n * size))
      (pred-suc n) (small_offset (n * size) h)

module _ (u : CaseTable) (quote : String → String) (raw_status : String) (from to : Option Time)
    (asked_size : ℤ) (conn : Conn) (db : Db) where
  -- The first pages, one after the other.
  unfoldable pub first_pages : ℕ → List DatasetSummary
  first_pages zero = []
  first_pages (suc n) =
      first_pages n
      ++ items_of (list_page u quote raw_status from to (pos (suc n)) asked_size conn db)

  abbrev pub rows : List DatasetListItem
  rows = matching u (to_upper u (trim_space raw_status)) from to db

  module _
      (known : (not (to_upper u (trim_space raw_status) == "")
          && not (is_allowed_status (to_upper u (trim_space raw_status))))
        ≡ false)
      (ordered : is_later_than from to ≡ false) (counts : conn 0 ≡ false) (selects : conn 1 ≡ false)
      (small : length rows < 2 ^ 63) where
    page_rows :
        (n : ℕ)
        → n * page_size_of asked_size < 2 ^ 63
        → items_of (list_page u quote raw_status from to (pos (suc n)) asked_size conn db)
          ≡ map summary_of
              (take (page_size_of asked_size) (drop (n * page_size_of asked_size) rows))
    unfolding list_page listed auto_commit list_datasets
    page_rows n h =
        ground (arith, known, ordered, counts, selects, offset_of-mul n (page_size_of asked_size) h)

    first_rows :
        (n : ℕ)
        → n * page_size_of asked_size < length rows + page_size_of asked_size
        → first_pages n ≡ map summary_of (take (n * page_size_of asked_size) rows)
    unfolding first_pages
    first_rows zero h =
        sym (ap (λ k. map summary_of (take k rows)) (zero-mul (page_size_of asked_size)))
    first_rows (suc n) h =
        let size = page_size_of asked_size in
        let more = suc-mul n size in
        let some_size = page_size_of-pos asked_size in
        let earlier = first_rows n (omega (arith, more, some_size, h)) in
        let page = page_rows n (omega (arith, more, some_size, h, small)) in
        ap₂ (λ xs ys. xs ++ ys) earlier page
        ∙ sym (map-append summary_of (take (n * size) rows) (take size (drop (n * size) rows)))
        ∙ ap (map summary_of) (take-drop-append (n * size) size (suc n * size) rows more)

    counted_rows :
        first_pages (total_pages_of (length rows) (page_size_of asked_size)) ≡ map summary_of rows
    counted_rows =
        let size = page_size_of asked_size in
        let (enough, few) =
          total_pages_of-bounds (length rows) size (page_size_of-pos asked_size) in
        first_rows (total_pages_of (length rows) size) few
        ∙ ap (map summary_of) (take-whole _ rows enough)

    -- An answer counts all the rows and the pages that they take.
    answer_counts :
        (asked_page : ℤ) (r : DatasetListResponse)
        → list_page u quote raw_status from to asked_page asked_size conn db ≡ answer r
        → (r.total ≡ length rows)
          × (r.total_pages ≡ total_pages_of (length rows) (page_size_of asked_size))
    unfolding list_page listed auto_commit list_datasets
    answer_counts asked_page r h =
        elim (Option-cases (offset_of (at_least_one asked_page 1) (page_size_of asked_size))) [
          | inl none_left ↦ absurd (ground (arith, known, ordered, none_left, h))
          | inr (offset, there) ↦ ground (arith, known, ordered, counts, selects, there, h)
        ]

    -- The answer to a request for any page counts the matching datasets, and the pages from the first
    -- to the last one that it counts hold every matching dataset once and in order, for a status filter
    -- that is known or blank, bounds in order, connections that work, and fewer than 2 ^ 63 rows.
    pub pages-rows :
        (asked_page : ℤ) (r : DatasetListResponse)
        → list_page u quote raw_status from to asked_page asked_size conn db ≡ answer r
        → (r.total ≡ length rows) × (first_pages r.total_pages ≡ map summary_of rows)
    pages-rows asked_page r h =
        let (total, pages) = answer_counts asked_page r h in
        (total, ap first_pages pages ∙ counted_rows)
