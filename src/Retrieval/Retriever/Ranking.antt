-- ===== src/Retrieval/Retriever/Ranking.antt =====
-- The order of the candidates in app/retrieval/retriever.py.
use questock.Prelude.{
  ℕ, ◌+◌, ◌≤◌, ◌<◌, ◌≡◌, sym, true, false, ◌⊎◌, inl, inr, List, [], ◌∷◌, ◌↔◌, leb, arith, All,
  subst, Bool-cases,
}
use questock.Prelude.Order.{
  SameMembers, Ordered, Ordered-unique, sort_by-SameMembers, sort_by-Ordered,
}
use questock.Core.Evidence.{Evidence}
use questock.Retrieval.Retriever.{Entry, low_relevance_threshold, eligible_from, key_lt, rank}

-- A higher score, or the same score and an earlier place.
abbrev pub Outranks : Entry → Entry → Type 0
Outranks a b = (b.score < a.score) ⊎ ((a.score ≡ b.score) × (a.index < b.index))

-- What a ranking of the entries is, by whatever means it is found.
abbrev pub IsRanking : List Entry → List Entry → Type 0
IsRanking r entries = Ordered Outranks r × SameMembers r entries

abbrev Earlier : Entry → Entry → Type 0
Earlier a b = a.index < b.index

Outranks-trans : (a b c : Entry) → Outranks a b → Outranks b c → Outranks a c
Outranks-trans a b c (inl p) (inl q) = inl (omega arith)
Outranks-trans a b c (inl p) (inr (q, r)) = inl (omega arith)
Outranks-trans a b c (inr (p, o)) (inl q) = inl (omega arith)
Outranks-trans a b c (inr (p, o)) (inr (q, r)) = inr (omega arith, omega arith)

Outranks-asym : (a b : Entry) → Outranks a b → Outranks b a → ⊥
Outranks-asym a b (inl p) (inl q) = omega arith
Outranks-asym a b (inl p) (inr (q, r)) = omega arith
Outranks-asym a b (inr (p, o)) (inl q) = omega arith
Outranks-asym a b (inr (p, o)) (inr (q, r)) = omega arith

key_lt-Outranks : (a b : Entry) → key_lt a b ≡ true → Outranks a b
key_lt-Outranks a b h = elim (Bool-cases (leb a.score b.score)) [
  | inr more ↦ inl (ground arith)
  | inl less ↦ inr (ground arith, ground arith)
]

Earlier-Outranks : (a b : Entry) → Earlier a b → key_lt b a ≡ false → Outranks a b
Earlier-Outranks a b e h = elim (Bool-cases (leb a.score b.score)) [
  | inr more ↦ inl (ground arith)
  | inl less ↦ inr (ground arith, e)
]

pub rank-SameMembers : (entries : List Entry) → SameMembers (rank entries) entries
unfolding rank
rank-SameMembers entries = sort_by-SameMembers key_lt entries

eligible_from-after :
    (at k : ℕ) (es : List Evidence) (scores : List ℕ)
    → k ≤ at
    → All (λ (x : Entry). k ≤ x.index) (eligible_from at es scores)
unfolding eligible_from
eligible_from-after at k [] scores h = tt
eligible_from-after at k (e ∷ es) [] h = tt
eligible_from-after at k (e ∷ es) (s ∷ ss) h =
    let rest = eligible_from-after (at + 1) k es ss (omega arith) in
    elim (Bool-cases (leb low_relevance_threshold s)) [
      | inl high ↦ rw high (h, rest)
      | inr low ↦ rw low rest
    ]

eligible_from-Ordered :
    (at : ℕ) (es : List Evidence) (scores : List ℕ) → Ordered Earlier (eligible_from at es scores)
unfolding eligible_from
eligible_from-Ordered at [] scores = tt
eligible_from-Ordered at (e ∷ es) [] = tt
eligible_from-Ordered at (e ∷ es) (s ∷ ss) =
    let rest = eligible_from-Ordered (at + 1) es ss in
    elim (Bool-cases (leb low_relevance_threshold s)) [
      | inl high ↦
          rw high (All-weaken _ (eligible_from-after (at + 1) (at + 1) es ss (omega arith)), rest)
      | inr low ↦ rw low rest
    ]
  where
    All-weaken :
        (xs : List Entry)
        → All (λ (x : Entry). at + 1 ≤ x.index) xs
        → All (λ (x : Entry). at < x.index) xs
    All-weaken [] h = tt
    All-weaken (x ∷ xs) h = (omega arith, All-weaken xs h.1)

rank-IsRanking :
    (at : ℕ) (es : List Evidence) (scores : List ℕ)
    → IsRanking (rank (eligible_from at es scores)) (eligible_from at es scores)
unfolding rank
rank-IsRanking at es scores = (
  sort_by-Ordered key_lt Outranks Earlier Outranks-trans key_lt-Outranks Earlier-Outranks
      (eligible_from at es scores) (eligible_from-Ordered at es scores),
  rank-SameMembers (eligible_from at es scores),
)

-- The sorted candidates are a ranking of them, and the only one.
pub IsRanking-unique :
    (at : ℕ) (es : List Evidence) (scores : List ℕ) (r : List Entry)
    → IsRanking r (eligible_from at es scores) ↔ (r ≡ rank (eligible_from at es scores))
IsRanking-unique at es scores r =
    let (order, members) = rank-IsRanking at es scores in
    (
      λ (o, m).
          Ordered-unique Outranks Outranks-asym r (rank (eligible_from at es scores)) o order
            (λ x. (λ h. (members x).1 ((m x).0 h), λ h. (m x).1 ((members x).0 h))),
      λ e.
          subst (λ (l : List Entry). IsRanking l (eligible_from at es scores)) (sym e)
            (order, members),
    )
