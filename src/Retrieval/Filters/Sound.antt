-- ===== src/Retrieval/Filters/Sound.antt =====
-- What evidence that passes `filter_evidence` of app/retrieval/filters.py is like.
use questock.Prelude.{
  ℕ, ◌≤◌, ◌≡◌, refl, subst, Bool, true, false, Option, none, some, List, [], ◌∷◌, ◌⊎◌, inl, inr,
  String, string_eq, eq_iff, arith, Bool-cases, All,
}
use questock.Exec.{ok}
use questock.Dict.{Dict, lookup}
use questock.Core.Models.{elem, DateRange}
use questock.Core.Evidence.{
  Evidence, EvidenceScope, company_specific, industry_common, multi_company,
}
use questock.Retrieval.Filters.{
  FinancialDocument, RetrievalRequest, has_target, structural_match, not_after, local_day, in_range,
  date_in_range, integrity_match, matches_document, is_only, scope_case, scope_match,
  effective_timestamp, linked_for, linked_ok, linked_and, documents_ok, kept, kept_all,
  filter_evidence,
}

-- The time by which an item is dated.
abbrev pub dated : Option (Dict String FinancialDocument) → Evidence → Option ℕ
dated documents e = effective_timestamp e.published_at (linked_for e documents)

-- The item or its document names the target.
abbrev pub About : String → Option FinancialDocument → Evidence → Type 0
About target linked e =
    (elem target e.subject_security_ids ≡ true)
    ⊎ (elem target e.mentioned_security_ids ≡ true)
    ⊎ ((d : FinancialDocument) × (linked ≡ some d) × (has_target d target ≡ true))

pub record IsSound (documents : Option (Dict String FinancialDocument)) (request : RetrievalRequest)
    (e : Evidence) : Type 0 where
  pub source : elem e.source_type request.source_types ≡ true
  pub timely :
      (as_of : ℕ)
      → request.as_of ≡ some (some as_of)
      → (t : ℕ) × (dated documents e ≡ some t) × (t ≤ as_of)
  pub in_days :
      (range : DateRange)
      → request.date_range ≡ some range
      → (t : ℕ) × (dated documents e ≡ some t)
        × ((day : ℕ) → range.start ≡ some day → day ≤ local_day t)
        × ((day : ℕ) → range.end ≡ some day → local_day t ≤ day)
  pub about : About request.security_id (linked_for e documents) e
  pub linked :
      (ds : Dict String FinancialDocument)
      → documents ≡ some ds
      → (d : FinancialDocument) × (lookup e.document_id ds ≡ some d)
        × (e.source_type ≡ d.source_type)
        × (e.document_id ≡ d.document_id)
        × (structural_match d request ≡ true)

not_after-timely :
    (value : Option ℕ) (limit : Option (Option ℕ)) (as_of : ℕ)
    → not_after value limit ≡ true
    → limit ≡ some (some as_of)
    → (t : ℕ) × (value ≡ some t) × (t ≤ as_of)
not_after-timely none none as_of h q = absurd (ground (arith, q))
not_after-timely (some t) none as_of h q = absurd (ground (arith, q))
not_after-timely none (some l) as_of h q = absurd (ground (arith, h))
not_after-timely (some t) (some none) as_of h q = absurd (ground (arith, h))
not_after-timely (some t) (some (some l)) as_of h q = (t, refl, ground (arith, h, q))

in_range-days :
    (value : Option ℕ) (ranged : Option DateRange) (range : DateRange)
    → in_range value ranged ≡ true
    → ranged ≡ some range
    → (t : ℕ) × (value ≡ some t)
      × ((day : ℕ) → range.start ≡ some day → day ≤ local_day t)
      × ((day : ℕ) → range.end ≡ some day → local_day t ≤ day)
in_range-days value none range h q = absurd (ground (arith, q))
in_range-days none (some r) range h q = absurd (ground (arith, h))
in_range-days (some t) (some r) range h q =
    (t, refl, λ day s. ground (arith, h, q, s), λ day s. ground (arith, h, q, s))

is_only-elem :
    (ids : List String) (target : String) → is_only ids target ≡ true → elem target ids ≡ true
is_only-elem [] target h = ground (arith, h)
is_only-elem (s ∷ []) target h = ground (arith, h)
is_only-elem (s ∷ t ∷ ids) target h = ground (arith, h)

linked_and-some :
    (linked : Option FinancialDocument) (p : FinancialDocument → Bool)
    → linked_and linked p ≡ true
    → (d : FinancialDocument) × (linked ≡ some d) × (p d ≡ true)
linked_and-some none p h = absurd (ground (arith, h))
linked_and-some (some d) p h = (d, refl, h)

scope_case-About :
    (scope : EvidenceScope) (e : Evidence) (target : String) (linked : Option FinancialDocument)
    → scope_case scope e target linked ≡ true
    → About target linked e
scope_case-About company_specific e target linked h =
    inl (is_only-elem e.subject_security_ids target (ground (arith, h)))
scope_case-About multi_company e target linked h = inl (ground (arith, h))
scope_case-About industry_common e target linked h =
    elem_or (elem target e.mentioned_security_ids) refl
  where
    elem_or : (b : Bool) → elem target e.mentioned_security_ids ≡ b → About target linked e
    elem_or true q = inr (inl q)
    elem_or false q =
        inr (inr (linked_and-some linked (λ d. has_target d target) (ground (arith, h, q))))

linked_ok-linked :
    (e : Evidence) (request : RetrievalRequest) (documents : Option (Dict String FinancialDocument))
    (ds : Dict String FinancialDocument)
    → linked_ok e request documents (linked_for e documents) ≡ true
    → documents ≡ some ds
    → (d : FinancialDocument) × (lookup e.document_id ds ≡ some d)
      × (e.source_type ≡ d.source_type)
      × (e.document_id ≡ d.document_id)
      × (structural_match d request ≡ true)
unfolding integrity_match matches_document
linked_ok-linked e request none ds h q = absurd (ground (arith, q))
linked_ok-linked e request (some es) ds h q =
    let (d, there, good) =
      linked_and-some (lookup e.document_id es) (λ d. integrity_match e d request) h in
    let same : es ≡ ds = ground (arith, q) in
    (
      d,
      subst (λ (x : Dict String FinancialDocument). lookup e.document_id x ≡ some d) same there,
      (eq_iff e.source_type d.source_type).0 (ground (arith, good)),
      (eq_iff e.document_id d.document_id).0 (ground (arith, good)),
      ground (arith, good),
    )

kept-IsSound :
    (documents : Option (Dict String FinancialDocument)) (request : RetrievalRequest) (e : Evidence)
    → kept documents request e ≡ true
    → IsSound documents request e
unfolding kept date_in_range scope_match
kept-IsSound documents request e h = record {
  source = ground (arith, h);
  timely =
      λ as_of q. not_after-timely (dated documents e) request.as_of as_of (ground (arith, h)) q;
  in_days =
      λ range q. in_range-days (dated documents e) request.date_range range (ground (arith, h)) q;
  about =
      scope_case-About e.scope e request.security_id (linked_for e documents) (ground (arith, h));
  linked = λ ds q. linked_ok-linked e request documents ds (ground (arith, h)) q;
}

pub kept_all-IsSound :
    (documents : Option (Dict String FinancialDocument)) (request : RetrievalRequest)
    (es : List Evidence)
    → All (IsSound documents request) (kept_all documents request es)
unfolding kept_all
kept_all-IsSound documents request [] = tt
kept_all-IsSound documents request (e ∷ es) = elim (Bool-cases (kept documents request e)) [
  | inl good ↦
      rw good (kept-IsSound documents request e good, kept_all-IsSound documents request es)
  | inr bad ↦ rw bad (kept_all-IsSound documents request es)
]

-- Where documents are given, each under its own id, or none are, filter_evidence returns, and each
-- item that it keeps is of a requested source, is dated no later than as_of and within the days of
-- the range if these are given, names the target itself or by its document, and, where documents
-- are given, has one of its id and source that passes the structural match.
pub filter_evidence-IsSound :
    (es : List Evidence) (request : RetrievalRequest)
    (documents : Option (Dict String FinancialDocument))
    → documents_ok documents ≡ true
    → (xs : List Evidence) × (filter_evidence es request documents ≡ ok xs)
      × All (IsSound documents request) xs
unfolding filter_evidence
filter_evidence-IsSound es request documents good =
    (kept_all documents request es, rw good refl, kept_all-IsSound documents request es)
