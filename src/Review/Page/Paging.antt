-- ===== src/Review/Page/Paging.antt =====
-- Paging and co-loaded corrections (services/symbol_service.py).
use mathlib.Core.List.{append-nil, append_assoc}
use pid_docs.Prelude.{
  ℕ, ◌+◌, ◌-◌, String, ◌≡◌, refl, ap, map, ◌∙◌, Bool, true, false, Option, Option-cases, Bool-cases,
  inl, inr, List, [], ◌∷◌, ◌++◌, arith, ◌==◌, filter, take, drop, length, min, get_or,
  if◌then◌else◌, holds, length-take, length-drop, drop-drop, take-append-drop, length-map,
}
use pid_docs.Prelude.Exec.{ok}
use pid_docs.Auth.Permissions.{CurrentUser, may}
use pid_docs.Db.{Drawing}
use pid_docs.Review.{
  DetectedSymbol, UserCorrection, Tables, get_drawing_or_404, assert_drawing_access,
}
use pid_docs.Review.Page.{
  Query, Page, matches, order_by, page_rows, read_page, to_symbol_record, to_correction_record,
  CorrectionRecord, is_of, has_id, Grouped, append_to, group, get_symbols_page, page_of,
}
use pid_docs.Review.Page.Order.{length-order_by}

module _ {F : Type 0} (q : Query) (m n : ℕ) (rows : List (DetectedSymbol F)) where
  -- A page of `m` rows and the page of `n` rows behind it are together the page of `m + n` rows: no row
  -- is skipped or shown twice between two pages.
  pub page_rows-append :
      page_rows (record q { limit = m + n }) rows
      ≡ page_rows (record q { limit = m }) rows
        ++ page_rows (record q { limit = n; offset = q.offset + m }) rows
  unfolding page_rows
  page_rows-append =
      rw (drop-drop q.offset m (order_by rows))
        (take-append-drop m n (drop q.offset (order_by rows)))

-- The total counts all the rows that match the filters, whatever the limit and the offset, and the page
-- has as many symbols as the limit and the rows behind the offset allow.
pub read_page-total :
    {F : Type 0} (drawing_id : ℕ) (q : Query) (t : Tables F)
    → let p = read_page drawing_id q t in
      (p.total ≡ length (filter (matches drawing_id q) t.symbols))
      × (length p.symbols ≡ min q.limit (p.total - q.offset))
unfolding read_page page_rows
read_page-total drawing_id q t =
    let rows = filter (matches drawing_id q) t.symbols in
    (
      refl,
      omega (
        arith,
        length-map to_symbol_record (take q.limit (drop q.offset (order_by rows))),
        length-take q.limit (drop q.offset (order_by rows)),
        length-drop q.offset (order_by rows),
        length-order_by rows,
      ),
    )

-- what the grouped corrections hold under a key
abbrev pub under : ℕ → Grouped → List CorrectionRecord
under k [] = []
under k ((j, cs) ∷ d) = if j == k then cs else under k d

under-append_to :
    (k j : ℕ) (c : CorrectionRecord) (d : Grouped)
    → under j (append_to k c d) ≡ (if k == j then under j d ++ c ∷ [] else under j d)
unfolding append_to
under-append_to k j c [] = ground arith
under-append_to k j c ((i, cs) ∷ d) = ground (arith, under-append_to k j c d)

abbrev keyed : ℕ → UserCorrection → Bool
keyed j c = get_or c.detected_symbol_id 0 == j

under-group :
    (j : ℕ) (d : Grouped) (cs : List UserCorrection)
    → under j (group d cs) ≡ under j d ++ map to_correction_record (filter (keyed j) cs)
unfolding group
under-group j d [] = rw append-nil
under-group j d (c ∷ cs) =
    let k = get_or c.detected_symbol_id 0 in
    ground (
      arith,
      under-group j (append_to k (to_correction_record c) d) cs,
      under-append_to k j (to_correction_record c) d,
      append_assoc (under j d) (to_correction_record c ∷ [])
          (map to_correction_record (filter (keyed j) cs)),
    )

filter-filter :
    {F : Type 0} (j : ℕ) (page : List (DetectedSymbol F)) (cs : List UserCorrection)
    → has_id j page ≡ true
    → filter (keyed j) (filter (is_of page) cs)
      ≡ filter (λ (c : UserCorrection). holds c.detected_symbol_id j) cs
unfolding is_of
filter-filter j page [] h = refl
filter-filter j page (c ∷ cs) h = ground (arith, filter-filter j page cs h)

filter_none :
    {F : Type 0} (j : ℕ) (page : List (DetectedSymbol F)) (cs : List UserCorrection)
    → has_id j page ≡ false
    → filter (keyed j) (filter (is_of page) cs) ≡ []
unfolding is_of
filter_none j page [] h = refl
filter_none j page (c ∷ cs) h = elim (Option-cases c.detected_symbol_id) [
  | inl e ↦ ground (arith, filter_none j page cs h)
  | inr (k, e) ↦ elim (Bool-cases (k == j)) [
    | inl same ↦
        let named : k ≡ j = ground arith in
        let off : has_id k page ≡ false = rw named h in ground (arith, filter_none j page cs h)
    | inr other ↦ ground (arith, filter_none j page cs h)
  ]
]

-- Under the id of a symbol of the page the answer holds exactly the records of the symbol's own corrections, in the
-- order they are read; under every other id it holds none.
pub read_page-corrections :
    {F : Type 0} (drawing_id : ℕ) (q : Query) (t : Tables F) (j : ℕ)
    → under j (read_page drawing_id q t).corrections_by_symbol_id ≡ (
        if has_id j (page_rows q (filter (matches drawing_id q) t.symbols))
        then map to_correction_record
            (filter (λ (c : UserCorrection). holds c.detected_symbol_id j) t.corrections)
        else [])
unfolding read_page
read_page-corrections drawing_id q t j =
    let page = page_rows q (filter (matches drawing_id q) t.symbols) in
    under-group j [] (filter (is_of page) t.corrections) ∙ elim (Bool-cases (has_id j page)) [
      | inl h ↦ rw h (ap (map to_correction_record) (filter-filter j page t.corrections h))
      | inr h ↦ rw h (ap (map to_correction_record) (filter_none j page t.corrections h))
    ]

-- A page is answered only for a drawing that the id names and that the caller may view, and it is the
-- page of this drawing's rows.
pub get_symbols_page-ok :
    {F : Type 0} (parse_uuid : String → Option ℕ) (raw : String) (user : CurrentUser) (q : Query)
    (t : Tables F) (p : Page F)
    → get_symbols_page parse_uuid raw user q t ≡ ok p
    → (d : Drawing) × (get_drawing_or_404 parse_uuid raw t.drawings ≡ ok d)
      × (may user "drawing_view" d.owner_user_id d.owner_team_id ≡ true)
      × (p ≡ read_page d.id q t)
unfolding get_symbols_page page_of assert_drawing_access
get_symbols_page-ok parse_uuid raw user q t p e = ground arith
