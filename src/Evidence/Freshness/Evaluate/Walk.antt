-- ===== src/Evidence/Freshness/Evaluate/Walk.antt =====
-- The loops over corrections in app/evidence/freshness.py come to an end.
use questock.Evidence.Freshness.Evaluate.Follow.{follow_all-Ends, has_unresolved-Ends}
use questock.Evidence.Freshness.Evaluate.Ends.{
  is_endless, Ends, Ends-and_then, Result-cases, Ends-if,
}
use questock.Prelude.{
  ℕ, ◌≡◌, refl, subst, Bool, false, not, ◌&&◌, Option, none, some, List, [], ◌∷◌, String, str_eq,
  string_eq, arith, inl, inr, ◌≢◌,
}
use questock.Prelude.Text.{codes}
use questock.Exec.{Result, ok, raise}
use questock.Dict.{Dict, lookup}
use questock.Core.Models.{elem}
use questock.Core.Evidence.{Evidence, evidence_ok, Json, text, flag, null, object, array, atom}
use questock.Core.Unicode.{Unicode}
use questock.Evidence.Freshness.{FreshnessResult}
use questock.Evidence.Freshness.Candidates.{
  FreshnessError, endless, Candidate, request_ok, document_ok, linked_document, link, link_all,
  is_disclosure,
}
use questock.Evidence.Freshness.Corrections.{
  Edges, edges_of, follow_all, active_graph, has_unresolved,
}
use questock.Evidence.Freshness.Disclosures.{
  Metadata, is_receipt, flag_of, receipt_of, check_target, check_correction, target_id, target_ok,
  read_metadata, is_disclosure_id, known, add_metadata, metadata_of,
}
use questock.Evidence.Freshness.Evaluate.{
  unique_from, retained_of, evaluate_candidates, with_basis, evaluate_freshness,
}
use questock.Retrieval.Filters.{FinancialDocument, RetrievalRequest, keys_match, matches_document}

active_graph-follow_all :
    (metadata : Metadata) (cs : List Candidate) (edges : Edges)
    → active_graph metadata cs ≡ ok edges
    → follow_all edges edges ≡ ok tt
unfolding active_graph
active_graph-follow_all metadata cs edges h =
    let all = edges_of metadata cs [] in
    elim (Result-cases (follow_all all all)) [
      | inl (u, passed) ↦
          let q : all ≡ edges = ground (arith, passed, h) in
          subst (λ (x : Edges). follow_all x x ≡ ok tt) q passed
      | inr (e, failed) ↦ absurd (ground (arith, failed, h))
    ]

active_graph-Ends : (metadata : Metadata) (cs : List Candidate) → Ends (active_graph metadata cs)
unfolding active_graph
active_graph-Ends metadata cs =
    let all = edges_of metadata cs [] in
    Ends-and_then (follow_all all all) _ (follow_all-Ends all all) (λ _ _. tt)

flag_of-Ends : (o : Option Json) → Ends (flag_of o)
flag_of-Ends none = tt
flag_of-Ends (some (flag b)) = tt
flag_of-Ends (some (text s)) = refl
flag_of-Ends (some (object m)) = refl
flag_of-Ends (some (array i)) = refl
flag_of-Ends (some null) = refl
flag_of-Ends (some atom) = refl

receipt_of-Ends : (u : Unicode) (o : Option Json) → Ends (receipt_of u o)
receipt_of-Ends u none = tt
receipt_of-Ends u (some null) = tt
receipt_of-Ends u (some (text s)) = Ends-if (is_receipt u (codes s)) _ _ tt refl
receipt_of-Ends u (some (flag b)) = refl
receipt_of-Ends u (some (object m)) = refl
receipt_of-Ends u (some (array i)) = refl
receipt_of-Ends u (some atom) = refl

check_target-Ends :
    (u : Unicode) (d : FinancialDocument) (o : Option FinancialDocument) → Ends (check_target u d o)
check_target-Ends u d none = tt
check_target-Ends u d (some t) =
    Ends-if (not (document_ok t)) _ _ refl (Ends-if (target_ok u d t) _ _ tt refl)

check_correction-Ends :
    (u : Unicode) (documents : Dict String FinancialDocument) (d : FinancialDocument) (b : Bool)
    (o : Option String)
    → Ends (check_correction u documents d b o)
check_correction-Ends u documents d b none = tt
check_correction-Ends u documents d b (some receipt) = Ends-if (not b) _ _ refl (
    Ends-if (str_eq (target_id receipt) d.document_id) _ _ refl
      (check_target-Ends u d (lookup (target_id receipt) documents)))

metadata_of-Ends :
    (u : Unicode) (documents : Dict String FinancialDocument) (cs : List Candidate)
    (found : Metadata)
    → Ends (metadata_of u documents cs found)
unfolding metadata_of add_metadata read_metadata
metadata_of-Ends u documents [] found = tt
metadata_of-Ends u documents (c ∷ cs) found =
    let d = c.document in
    let id = d.document_id in
    let read : Ends (read_metadata u documents d) =
      Ends-and_then (flag_of (lookup "is_correction" d.metadata)) _ (flag_of-Ends _) (λ a _.
        Ends-and_then (flag_of (lookup "has_subsequent_correction" d.metadata)) _ (flag_of-Ends _)
          (λ b _.
            Ends-and_then (flag_of (lookup "is_withdrawn" d.metadata)) _ (flag_of-Ends _) (λ w _.
              Ends-and_then (receipt_of u (lookup "correction_of" d.metadata)) _
                (receipt_of-Ends u _)
                (λ o _.
                  Ends-and_then (check_correction u documents d a o) _
                    (check_correction-Ends u documents d a o) (λ _ _. tt))))) in
    Ends-and_then (add_metadata u documents c found) _
      (Ends-if (not (is_disclosure c)) _ _ tt (
        Ends-if (not (is_disclosure_id u id)) _ _ refl (
          Ends-if (known (lookup id found)) _ _ tt
            (Ends-and_then (read_metadata u documents d) _ read (λ _ _. tt)))))
      (λ m _. metadata_of-Ends u documents cs m)

linked_document-Ends : (o : Option FinancialDocument) → Ends (linked_document o)
linked_document-Ends none = refl
linked_document-Ends (some d) = Ends-if (document_ok d) _ _ tt refl

link_all-Ends :
    (request : RetrievalRequest) (documents : Dict String FinancialDocument) (basis : ℕ)
    (es : List Evidence)
    → Ends (link_all request documents basis es)
unfolding link_all link
link_all-Ends request documents basis [] = tt
link_all-Ends request documents basis (e ∷ es) =
    Ends-and_then (link request documents basis e) _
      (Ends-if (not (evidence_ok e)) _ _ refl (
        Ends-and_then (linked_document (lookup e.document_id documents)) _ (linked_document-Ends _)
          (λ d _.
            Ends-if (not (str_eq e.source_type d.source_type && matches_document e d)) _ _ refl
              (Ends-if (not (elem e.source_type request.source_types)) _ _ refl tt))))
      (λ c _.
        Ends-and_then (link_all request documents basis es) _
          (link_all-Ends request documents basis es) (λ _ _. tt))

evaluate_candidates-Ends :
    (u : Unicode) (request : RetrievalRequest) (documents : Dict String FinancialDocument)
    (basis : ℕ) (cs : List Candidate)
    → Ends (evaluate_candidates u request documents basis cs)
unfolding evaluate_candidates
evaluate_candidates-Ends u request documents basis cs =
    Ends-and_then (metadata_of u documents cs []) _ (metadata_of-Ends u documents cs [])
      (λ metadata _.
        Ends-and_then (active_graph metadata cs) _ (active_graph-Ends metadata cs) (λ edges made.
          Ends-and_then
            (has_unresolved
              (retained_of request (unique_from [] request.source_types) metadata edges cs) metadata
              edges)
            _
            (has_unresolved-Ends _ metadata edges (active_graph-follow_all metadata cs edges made))
            (λ _ _. tt)))

with_basis-Ends :
    (o : Option ℕ) (f : ℕ → Result FreshnessError FreshnessResult)
    → ((basis : ℕ) → Ends (f basis))
    → Ends (with_basis o f)
with_basis-Ends none f h = refl
with_basis-Ends (some basis) f h = h basis

Ends-not_endless : {A : Type 0} (m : Result FreshnessError A) → Ends m → m ≢ raise endless
Ends-not_endless (ok a) h q = ground (arith, q)
Ends-not_endless (raise e) h q =
    let p : e ≡ endless = cc in
    ground (arith, subst (λ (x : FreshnessError). is_endless x ≡ false) p h)

-- Whatever the inputs, evaluate_freshness comes to an end: one round more than there are edges is
-- enough for each walk along corrections that looks for a cycle, and, since none is there then, for
-- each walk to the root of a correction.
pub evaluate_freshness-ends :
    (u : Unicode) (evidence : List Evidence) (request : RetrievalRequest)
    (documents : Dict String FinancialDocument) (basis_at : Option ℕ)
    → evaluate_freshness u evidence request documents basis_at ≢ raise endless
unfolding evaluate_freshness
evaluate_freshness-ends u evidence request documents basis_at = Ends-not_endless _ (
    Ends-if (not (request_ok request)) _ _ refl (
      with_basis-Ends basis_at _ (λ basis. Ends-if (not (keys_match documents)) _ _ refl (
        Ends-and_then (link_all request documents basis evidence) _
          (link_all-Ends request documents basis evidence)
          (λ cs _. evaluate_candidates-Ends u request documents basis cs)))))
