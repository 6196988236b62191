-- ===== src/Evidence/Freshness/Corrections.antt =====
-- The corrections of disclosures in app/evidence/freshness.py.
use questock.Evidence.Freshness.Disclosures.{DisclosureMetadata, target_id, Metadata}
use questock.Prelude.{
  ℕ, zero, suc, Bool, true, false, not, ◌&&◌, ◌||◌, Option, none, some, List, [], ◌∷◌, String,
  string_eq, if◌then◌else◌,
}
use questock.Exec.{Result, ok, raise, and_then}
use questock.Dict.{Dict, lookup, assign, size}
use questock.Core.Models.{elem, has_duplicates}
use questock.Evidence.Freshness.Candidates.{
  FreshnessError, bad_relation, endless, Candidate, is_disclosure,
}

abbrev pub withdrawn : Option DisclosureMetadata → Bool
withdrawn none = false
withdrawn (some m) = m.is_withdrawn

-- `_is_withdrawn`
abbrev pub is_withdrawn : Metadata → Candidate → Bool
is_withdrawn metadata c = is_disclosure c && withdrawn (lookup c.evidence.document_id metadata)

abbrev pub Edges : Type 0
Edges = Dict String String

abbrev pub edge_of : Bool → Option String → String → Edges → Edges
edge_of true (some receipt) id edges = assign id (target_id receipt) edges
edge_of _ _ id edges = edges

abbrev pub add_edge : Option DisclosureMetadata → String → Edges → Edges
add_edge none id edges = edges
add_edge (some m) id edges = edge_of m.is_correction m.correction_of id edges

-- `edges`, from the active ids, those of eligible disclosures that are not withdrawn.
unfoldable pub edges_of : Metadata → List Candidate → Edges → Edges
edges_of metadata [] edges = edges
edges_of metadata (c ∷ cs) edges =
    let id = c.evidence.document_id in
    let more = add_edge (lookup id metadata) id edges in
    edges_of metadata cs
      (if is_disclosure c && c.date_eligible && not (is_withdrawn metadata c) then more else edges)

-- A round of the inner loop of `_validate_acyclic_graph`.
abbrev pub follow_next :
    Option String
    → Bool
    → (String → Result FreshnessError (Unit {0}))
    → Result FreshnessError (Unit {0})
follow_next none seen go = ok tt
follow_next (some next) true go = raise bad_relation
follow_next (some next) false go = go next

-- The inner loop, on fuel. Every key of `edges` is active.
unfoldable pub follow : ℕ → Edges → List String → String → Result FreshnessError (Unit {0})
follow zero edges seen current = raise endless
follow (suc fuel) edges seen current =
    follow_next (lookup current edges) (elem current seen) (follow fuel edges (current ∷ seen))

-- One round more than there are edges.
abbrev pub rounds : Edges → ℕ
rounds edges = suc (size edges)

-- The loop over the edges.
unfoldable pub follow_all : Edges → Edges → Result FreshnessError (Unit {0})
follow_all edges [] = ok tt
follow_all edges ((start, target) ∷ rest) =
    and_then (follow (rounds edges) edges [] start) (λ _. follow_all edges rest)

-- `_build_active_correction_graph`
unfoldable pub active_graph : Metadata → List Candidate → Result FreshnessError Edges
active_graph metadata cs =
    let edges = edges_of metadata cs [] in and_then (follow_all edges edges) (λ _. ok edges)

abbrev pub root_next : Option String → String → (String → Option String) → Option String
root_next none current go = some current
root_next (some next) current go = go next

-- `_correction_root`, on fuel.
unfoldable pub root : ℕ → Edges → String → Option String
root zero edges current = none
root (suc fuel) edges current = root_next (lookup current edges) current (root fuel edges)

abbrev pub targets : Edges → List String
targets [] = []
targets ((start, target) ∷ rest) = target ∷ targets rest

-- `retained_ids`
abbrev pub disclosure_ids : List Candidate → List String
disclosure_ids [] = []
disclosure_ids (c ∷ cs) =
    let rest = disclosure_ids cs in if is_disclosure c then c.evidence.document_id ∷ rest else rest

abbrev pub no_receipt : Option String → Bool
no_receipt none = true
no_receipt (some _) = false

-- The tests of the first loop of `_has_unresolved_disclosure`.
abbrev pub lacks_correction : Option DisclosureMetadata → String → Edges → Bool
lacks_correction none id edges = false
lacks_correction (some m) id edges =
    m.has_subsequent_correction && not (elem id (targets edges))
    || m.is_correction && no_receipt m.correction_of

abbrev pub some_lacks : Metadata → Edges → List String → Bool
some_lacks metadata edges [] = false
some_lacks metadata edges (id ∷ ids) =
    lacks_correction (lookup id metadata) id edges || some_lacks metadata edges ids

abbrev pub and_root :
    Option String → Result FreshnessError (List String) → Result FreshnessError (List String)
and_root none rest = raise endless
and_root (some r) rest = and_then rest (λ roots. ok (r ∷ roots))

-- The roots of the last corrections that are retained; an edge has its key once.
unfoldable pub terminal_roots : Edges → List String → Edges → Result FreshnessError (List String)
terminal_roots edges retained [] = ok []
terminal_roots edges retained ((id, target) ∷ rest) =
    let others = terminal_roots edges retained rest in
    if elem id (targets edges) || not (elem id retained)
    then others
    else and_root (root (rounds edges) edges id) others

-- `_has_unresolved_disclosure`: two last corrections under one root are too many.
unfoldable pub has_unresolved : List Candidate → Metadata → Edges → Result FreshnessError Bool
has_unresolved retained metadata edges =
    let ids = disclosure_ids retained in
    let roots = and_then (terminal_roots edges ids edges) (λ roots. ok (has_duplicates roots)) in
    if some_lacks metadata edges ids then ok true else roots
