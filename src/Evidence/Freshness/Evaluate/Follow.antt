-- ===== src/Evidence/Freshness/Evaluate/Follow.antt =====
-- The walks along corrections of app/evidence/freshness.py.
use questock.Evidence.Freshness.Evaluate.Ends.{Ends, Ends-and_then, Result-cases, Ends-if}
use questock.Prelude.{
  ℕ, zero, suc, ◌≤◌, ◌<◌, ◌≡◌, refl, sym, subst, true, false, not, ◌||◌, Option, none, some, List,
  [], ◌∷◌, String, str_eq, string_eq, eq_iff, if◌then◌else◌, arith, Bool-cases, Option-cases, inl,
  inr,
}
use questock.Exec.{Result, ok}
use questock.Dict.{lookup, size, weight, Each}
use questock.Core.Models.{elem}
use questock.Evidence.Freshness.Candidates.{FreshnessError, Candidate}
use questock.Evidence.Freshness.Corrections.{
  Edges, follow, rounds, follow_all, root, targets, disclosure_ids, some_lacks, and_root,
  terminal_roots, has_unresolved,
}
use questock.Evidence.Freshness.Disclosures.{Metadata}

-- How many edges start at what is not seen.
abbrev unseen : List String → Edges → ℕ
unseen seen edges = weight (λ k _. if elem k seen then 0 else 1) edges

unseen-le :
    (seen : List String) (current : String) (edges : Edges)
    → unseen (current ∷ seen) edges ≤ unseen seen edges
unseen-le seen current [] = omega arith
unseen-le seen current ((k, t) ∷ edges) = ground (arith, unseen-le seen current edges)

unseen-lt :
    (seen : List String) (current next : String) (edges : Edges)
    → lookup current edges ≡ some next
    → elem current seen ≡ false
    → unseen (current ∷ seen) edges < unseen seen edges
unfolding lookup
unseen-lt seen current next [] h k = absurd (ground (arith, h))
unseen-lt seen current next ((j, t) ∷ edges) h k = elim (Bool-cases (str_eq j current)) [
  | inl same ↦
      let q : current ≡ j = sym ((eq_iff j current).0 same) in
      let fresh : elem j seen ≡ false = subst (λ (x : String). elem x seen ≡ false) q k in
      let loop : str_eq current j ≡ true = (eq_iff current j).1 q in
      ground (arith, fresh, loop, unseen-le seen current edges)
  | inr other ↦
      ground (arith, other, unseen-lt seen current next edges (ground (arith, other, h)) k)
]

unseen-le-size : (edges : Edges) → unseen [] edges ≤ size edges
unseen-le-size [] = omega arith
unseen-le-size ((k, t) ∷ edges) = omega (arith, unseen-le-size edges)

follow-Ends :
    (fuel : ℕ) (edges : Edges) (seen : List String) (current : String)
    → unseen seen edges < fuel
    → Ends (follow fuel edges seen current)
unfolding follow
follow-Ends zero edges seen current h = absurd (omega arith)
follow-Ends (suc fuel) edges seen current h = elim (Option-cases (lookup current edges)) [
  | inl last ↦ rw last tt
  | inr (next, there) ↦ elim (Bool-cases (elem current seen)) [
    | inl again ↦ rw there (rw again refl)
    | inr new ↦
        let fewer = unseen-lt seen current next edges there new in
        rw there (rw new (follow-Ends fuel edges (current ∷ seen) next (omega (arith, fewer))))
  ]
]

pub follow_all-Ends : (edges rest : Edges) → Ends (follow_all edges rest)
unfolding follow_all
follow_all-Ends edges [] = tt
follow_all-Ends edges ((start, t) ∷ rest) =
    Ends-and_then (follow (rounds edges) edges [] start) _
      (follow-Ends (rounds edges) edges [] start (omega (arith, unseen-le-size edges)))
      (λ _ _. follow_all-Ends edges rest)

-- Where the walk that looks for a cycle passes, the walk to the root arrives.
follow-root :
    (fuel : ℕ) (edges : Edges) (seen : List String) (current : String)
    → follow fuel edges seen current ≡ ok tt
    → (r : String) × (root fuel edges current ≡ some r)
unfolding follow root
follow-root zero edges seen current h = absurd (ground (arith, h))
follow-root (suc fuel) edges seen current h = elim (Option-cases (lookup current edges)) [
  | inl last ↦ (current, rw last refl)
  | inr (next, there) ↦ elim (Bool-cases (elem current seen)) [
    | inl again ↦ absurd (ground (arith, there, again, h))
    | inr new ↦
        let rest : follow fuel edges (current ∷ seen) next ≡ ok tt =
          ground (arith, there, new, h) in
        let (r, found) = follow-root fuel edges (current ∷ seen) next rest in (r, rw there found)
  ]
]

-- Each start of an edge has a root.
abbrev HasRoot : Edges → String → String → Type 0
HasRoot edges start target = (r : String) × (root (rounds edges) edges start ≡ some r)

follow_all-roots : (edges rest : Edges) → follow_all edges rest ≡ ok tt → Each (HasRoot edges) rest
unfolding follow_all
follow_all-roots edges [] h = tt
follow_all-roots edges ((start, t) ∷ rest) h =
    let first = follow (rounds edges) edges [] start in
    elim (Result-cases first) [
      | inl (u, passed) ↦ (
        follow-root (rounds edges) edges [] start passed,
        follow_all-roots edges rest (ground (arith, passed, h)),
      )
      | inr (e, failed) ↦ absurd (ground (arith, failed, h))
    ]

and_root-Ends :
    (o : Option String) (r : String) (rest : Result FreshnessError (List String))
    → o ≡ some r
    → Ends rest
    → Ends (and_root o rest)
and_root-Ends none r rest e h = absurd (ground (arith, e))
and_root-Ends (some q) r rest e h = Ends-and_then rest _ h (λ _ _. tt)

terminal_roots-Ends :
    (edges : Edges) (retained : List String) (rest : Edges)
    → Each (HasRoot edges) rest
    → Ends (terminal_roots edges retained rest)
unfolding terminal_roots
terminal_roots-Ends edges retained [] h = tt
terminal_roots-Ends edges retained ((id, t) ∷ rest) ((r, found), others) =
    let later = terminal_roots-Ends edges retained rest others in
    Ends-if (elem id (targets edges) || not (elem id retained)) _ _ later
      (and_root-Ends (root (rounds edges) edges id) r _ found later)

pub has_unresolved-Ends :
    (retained : List Candidate) (metadata : Metadata) (edges : Edges)
    → follow_all edges edges ≡ ok tt
    → Ends (has_unresolved retained metadata edges)
unfolding has_unresolved
has_unresolved-Ends retained metadata edges h =
    Ends-if (some_lacks metadata edges (disclosure_ids retained)) _ _ tt (
      Ends-and_then (terminal_roots edges (disclosure_ids retained) edges) _
        (terminal_roots-Ends edges (disclosure_ids retained) edges (follow_all-roots edges edges h))
        (λ _ _. tt))
