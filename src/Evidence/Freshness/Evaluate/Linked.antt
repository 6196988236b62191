-- ===== src/Evidence/Freshness/Evaluate/Linked.antt =====
-- The candidates that evaluate_freshness of app/evidence/freshness.py keeps, and their times.
use questock.Prelude.{
  ℕ, ◌-◌, ◌≤◌, ◌≡◌, refl, sym, ap, ◌∙◌, subst, Bool, true, false, not, ◌&&◌, Option, none, some,
  List, [], ◌∷◌, String, str_eq, string_eq, if_false, arith, Bool-cases, inl, inr, All, All-imp,
}
use questock.Prelude.Order.{IsIn}
use questock.Exec.{ok, and_then-ok}
use questock.Dict.{Dict, lookup}
use questock.Core.Models.{elem}
use questock.Core.Evidence.{Evidence, evidence_ok}
use questock.Evidence.Freshness.Candidates.{
  Candidate, linked_document, link, link_all, candidate_of, effective_at_of, is_eligible, age_of,
  dated_sources,
}
use questock.Evidence.Freshness.Corrections.{Edges, is_withdrawn, targets}
use questock.Evidence.Freshness.Disclosures.{Metadata}
use questock.Evidence.Freshness.Windows.{in_window, apply_windows}
use questock.Evidence.Freshness.Evaluate.{visible, evidence_of}
use questock.Retrieval.Filters.{FinancialDocument, RetrievalRequest, matches_document, local_day}

-- The time of an item: its own, or that of its document.
abbrev pub DatedAt : Dict String FinancialDocument → Evidence → Option ℕ → Type 0
DatedAt documents e time =
    (d : FinancialDocument) × (lookup e.document_id documents ≡ some d)
    × (effective_at_of e.published_at d.published_at ≡ time)

-- A candidate stands for an item of the input.
abbrev pub IsLinked :
    RetrievalRequest → Dict String FinancialDocument → ℕ → List Evidence → Candidate → Type 0
IsLinked request documents basis evidence c =
    IsIn c.evidence evidence
    × (elem c.evidence.source_type request.source_types ≡ true)
    × (lookup c.evidence.document_id documents ≡ some c.document)
    × (c ≡ candidate_of basis c.evidence c.document)

linked_document-ok :
    (o : Option FinancialDocument) (d : FinancialDocument) → linked_document o ≡ ok d → o ≡ some d
linked_document-ok none d h = absurd (ground (arith, h))
linked_document-ok (some x) d h = ground (arith, h)

link-IsLinked :
    (request : RetrievalRequest) (documents : Dict String FinancialDocument) (basis : ℕ)
    (e : Evidence) (c : Candidate)
    → link request documents basis e ≡ ok c
    → IsLinked request documents basis (e ∷ []) c
unfolding link
link-IsLinked request documents basis e c h = elim (Bool-cases (not (evidence_ok e))) [
  | inl bad ↦ absurd (ground (arith, bad, h))
  | inr good ↦
      let a = sym (if_false (not (evidence_ok e)) _ _ good) ∙ h in
      let (d, found, b) = and_then-ok (linked_document (lookup e.document_id documents)) _ c a in
      let there = linked_document-ok (lookup e.document_id documents) d found in
      elim (Bool-cases (not (str_eq e.source_type d.source_type && matches_document e d))) [
        | inl off ↦ absurd (ground (arith, off, b))
        | inr fits ↦ elim (Bool-cases (elem e.source_type request.source_types)) [
          | inr other ↦ absurd (ground (arith, fits, other, b))
          | inl asked ↦
              let made : ok (candidate_of basis e d) ≡ ok c =
                sym (
                  if_false (not (str_eq e.source_type d.source_type && matches_document e d)) _ _
                    fits
                  ∙ if_false (not (elem e.source_type request.source_types)) _ _ (ap not asked))
                ∙ b in
              let q : candidate_of basis e d ≡ c = cc in
              subst (IsLinked request documents basis (e ∷ [])) q (inl refl, asked, there, refl)
        ]
      ]
]

pub link_all-IsLinked :
    (request : RetrievalRequest) (documents : Dict String FinancialDocument) (basis : ℕ)
    (es : List Evidence) (cs : List Candidate)
    → link_all request documents basis es ≡ ok cs
    → All (IsLinked request documents basis es) cs
unfolding link_all
link_all-IsLinked request documents basis [] cs h =
    let q : [] ≡ cs = cc in subst (All (IsLinked request documents basis [])) q tt
link_all-IsLinked request documents basis (e ∷ es) cs h =
    let (c, one, a) = and_then-ok (link request documents basis e) _ cs h in
    let (rest, more, b) = and_then-ok (link_all request documents basis es) _ cs a in
    let q : c ∷ rest ≡ cs = cc in
    let (here, asked, found, built) = link-IsLinked request documents basis e c one in
    let others = link_all-IsLinked request documents basis es rest more in
    subst (All (IsLinked request documents basis (e ∷ es))) q (
      (single c here, asked, found, built),
      All-imp (IsLinked request documents basis es) (IsLinked request documents basis (e ∷ es))
          (λ x (there, a, b, d). (inr there, a, b, d)) rest others,
    )
  where
    single : (c : Candidate) → IsIn c.evidence (e ∷ []) → IsIn c.evidence (e ∷ es)
    single c (inl q) = inl q
    single c (inr k) = absurd k

-- An item that may count: dated in time, and neither withdrawn nor corrected.
pub record IsVisible (metadata : Metadata) (edges : Edges) (c : Candidate) : Type 0 where
  pub eligible : c.date_eligible ≡ true
  pub not_withdrawn : is_withdrawn metadata c ≡ false
  pub not_replaced : elem c.evidence.document_id (targets edges) ≡ false

pub visible-in :
    (metadata : Metadata) (edges : Edges) (cs : List Candidate)
    → All (λ (c : Candidate). IsIn c cs × IsVisible metadata edges c) (visible metadata edges cs)
unfolding visible
visible-in metadata edges [] = tt
visible-in metadata edges (c ∷ cs) =
    let rest =
      All-imp (λ (x : Candidate). IsIn x cs × IsVisible metadata edges x)
        (λ (x : Candidate). IsIn x (c ∷ cs) × IsVisible metadata edges x)
        (λ x (there, seen). (inr there, seen)) (visible metadata edges cs)
        (visible-in metadata edges cs) in
    elim (Bool-cases (
      c.date_eligible
      && not (is_withdrawn metadata c)
      && not (elem c.evidence.document_id (targets edges)))) [
        | inl seen ↦
            let here : IsVisible metadata edges c = record {
              eligible = ground (arith, seen);
              not_withdrawn = ground (arith, seen);
              not_replaced = ground (arith, seen);
            } in
            rw seen ((inl refl, here), rest)
        | inr hidden ↦ rw hidden rest
      ]

pub apply_windows-in :
    (by_user extended : Bool) (cs : List Candidate)
    → All
        (λ (c : Candidate). IsIn c cs × (in_window by_user extended c ≡ true))
        (apply_windows by_user extended cs)
unfolding apply_windows
apply_windows-in by_user extended [] = tt
apply_windows-in by_user extended (c ∷ cs) =
    let rest =
      All-imp (λ (x : Candidate). IsIn x cs × (in_window by_user extended x ≡ true))
        (λ (x : Candidate). IsIn x (c ∷ cs) × (in_window by_user extended x ≡ true))
        (λ x (there, seen). (inr there, seen)) (apply_windows by_user extended cs)
        (apply_windows-in by_user extended cs) in
    elim (Bool-cases (in_window by_user extended c)) [
      | inl seen ↦ rw seen ((inl refl, seen), rest)
      | inr hidden ↦ rw hidden rest
    ]

pub evidence_of-All :
    (P : Evidence → Type 0) (cs : List Candidate)
    → All (λ (c : Candidate). P c.evidence) cs
    → All P (evidence_of cs)
evidence_of-All P [] h = tt
evidence_of-All P (c ∷ cs) h = (h.0, evidence_of-All P cs h.1)

-- An item that may count is dated no later than the basis.
module _ (documents : Dict String FinancialDocument) (basis : ℕ) (c : Candidate)
    (there : lookup c.evidence.document_id documents ≡ some c.document)
    (built : c ≡ candidate_of basis c.evidence c.document) (eligible : c.date_eligible ≡ true)
    (dated : elem c.evidence.source_type dated_sources ≡ true) where
  eligible-time :
      (b : Bool) (time : Option ℕ)
      → b ≡ true
      → is_eligible b time basis ≡ true
      → (t : ℕ) × (time ≡ some t)
        × (t ≤ basis)
        × (age_of b time basis ≡ some (local_day basis - local_day t))
  eligible-time true none e h = absurd (ground (arith, h))
  eligible-time true (some t) e h = (t, refl, ground (arith, h), ground (arith, h))
  eligible-time false time e h = absurd (ground (arith, e))

  pub dated-time :
      (t : ℕ) × (effective_at_of c.evidence.published_at c.document.published_at ≡ some t)
      × (t ≤ basis)
      × (c.age_days ≡ some (local_day basis - local_day t))
  dated-time =
      let time = effective_at_of c.evidence.published_at c.document.published_at in
      let b = elem c.evidence.source_type dated_sources in
      let counts : is_eligible b time basis ≡ true =
        sym (ap (λ (x : Candidate). x.date_eligible) built) ∙ eligible in
      let (t, found, early, age) = eligible-time b time dated counts in
      (t, found, early, ap (λ (x : Candidate). x.age_days) built ∙ age)
