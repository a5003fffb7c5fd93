-- ===== src/Plugin/Search.antt =====
-- plugin/search_strategy.cpp: `SearchStrategy::_process`. The arithmetic on `float` and the
-- sorting by the score are parameters; the reply is a value in place of the JSON that holds it.
pub mod Paging
use sunet.Base.{
  ℕ, ◌+◌, ◌-◌, ◌*◌, ◌/◌, Bool, true, false, List, [], ◌∷◌, ◌++◌, Option, none, some, Bytes, put,
  find, bytes_order, length, take, drop, leb, ltb, ◌==◌, if◌then◌else◌,
}
use sunet.Base.Int.{ℤ, pos, pos_part, ◌+ℤ◌, ◌-ℤ◌, ◌*ℤ◌, quot_ℤ, ltb_ℤ, leb_ℤ, int_order}
use sunet.Http.{Request, get_page}
use sunet.Dict.{ReverseIndex, CountDict, LengthDict, IndexDict}

-- The locals behind the scoring.
pub record Page : Type 0 where
  pub page : ℤ
  pub page_cnt : ℤ
  pub nxt_page : ℤ
  pub bef_page : ℤ
  pub begin_record_index : ℤ
  pub end_record_index : ℤ

-- Where `(page - 1) * 20` and `page * 20` are of type `int`: no page below -107374181. A later page
-- is made the last one first, so it is in the range for every number of results that an `int` holds.
unfoldable pub page_of : ℤ → ℕ → Page
page_of asked tot_cnt =
    let page_cnt = quot_ℤ (pos tot_cnt -ℤ pos 1) 20 +ℤ pos 1 in
    let page = if ltb_ℤ page_cnt asked then page_cnt else asked in
    record {
      page = page;
      page_cnt = page_cnt;
      nxt_page = if leb_ℤ page_cnt page then page_cnt else page +ℤ pos 1;
      bef_page = if ltb_ℤ (pos 1) page then page -ℤ pos 1 else pos 1;
      begin_record_index = (page -ℤ pos 1) *ℤ pos 20;
      end_record_index = if leb_ℤ page_cnt page then pos tot_cnt else page *ℤ pos 20;
    }

-- The loop from `begin() + begin_record_index` until one of its two ends; `none` is an iterator
-- that begins outside the vector.
unfoldable pub records {ℓ} : {A : Type ℓ} → ℤ → ℤ → List A → Option (List A)
records first last docs =
    if ltb_ℤ first (pos 0)
    then none
    else if ltb_ℤ (pos (length docs)) first
    then none
    else if ltb_ℤ last first
    then some (drop (pos_part first) docs)
    else some (take (pos_part last - pos_part first) (drop (pos_part first) docs))

-- What is put under `search`.
pub data Reply {ℓ} (F : Type ℓ) : Type ℓ where
  seg_error no_result : Reply F
  found : List (ℤ × F) → ℕ → Page → Reply F

module _ {ℓ} {F : Type ℓ} (zero_score : F) (add : F → F → F)
    -- `idf * rel` of the documents with the term, the count, and the length of the document
    (weight : ℤ → ℤ → ℤ → F) (rank : List (ℤ × F) → List (ℤ × F)) where
  abbrev pub or_zero_score : Option F → F
  or_zero_score none = zero_score
  or_zero_score (some s) = s

  abbrev pub or_int : Option ℤ → ℤ
  or_int none = pos 0
  or_int (some n) = n

  -- The loop over the postings of a term. A document with no length gets the length 0, as
  -- `operator[]` gives, and `_doc_length_dict` is changed in no other way.
  unfoldable pub score_postings : ℤ → LengthDict → List ReverseIndex → List (ℤ × F) → List (ℤ × F)
  score_postings term_cnt lengths [] scores = scores
  score_postings term_cnt lengths (t ∷ ts) scores = score_postings term_cnt lengths ts (
      put t.doc_id
        (add (or_zero_score (find t.doc_id scores))
          (weight term_cnt t.cnt (or_int (find t.doc_id lengths))))
        scores)

  unfoldable pub score_term :
      IndexDict → CountDict → LengthDict → Bytes → List (ℤ × F) → List (ℤ × F)
  score_term index freq lengths term scores = elim (find term index) [
    | none ↦ scores
    | some ts ↦ score_postings (or_int (find term freq)) lengths ts scores
  ]

  unfoldable pub score_terms :
      IndexDict → CountDict → LengthDict → List Bytes → List (ℤ × F) → List (ℤ × F)
  score_terms index freq lengths [] scores = scores
  score_terms index freq lengths (term ∷ terms) scores =
      score_terms index freq lengths terms (score_term index freq lengths term scores)

  unfoldable pub reply : List (ℤ × F) → Page → Option (Reply F)
  reply docs p = elim (records p.begin_record_index p.end_record_index docs) [
    | none ↦ none
    | some [] ↦ some no_result
    | some (d ∷ ds) ↦ some (found (d ∷ ds) (length docs) p)
  ]

  -- The terms are the strings of `root["seg"]`.
  unfoldable pub process :
      IndexDict → CountDict → LengthDict → List Bytes → Request → Option (Reply F)
  process index freq lengths [] req = some seg_error
  process index freq lengths (term ∷ terms) req =
      let docs = rank (score_terms index freq lengths (term ∷ terms) []) in
      reply docs (page_of (get_page req) (length docs))
