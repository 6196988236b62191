-- ===== src/ResponseCache/Key.antt =====
-- `_CacheKey`, its order as a tuple, and `_cache_key` of app/services/response_cache.py.
use questock.Prelude.{
  ℕ, ◌≡◌, ◌↔◌, Bool, true, false, not, ◌&&◌, ◌||◌, List, [], ◌∷◌, String, EqType, arith, ltb, leb,
  ◌==◌, str_eq, eq_iff, if◌then◌else◌, length,
}
use questock.Prelude.Text.{
  codes, str_lt, any_code, all_codes, is_alnum, is_space, is_stripped, strip,
}
use questock.Exec.{Result, ok, raise}

-- `ResponseCacheError`, and the `KeyError` of a subscript.
pub data CacheError : Type 0 where
  unavailable key_error : CacheError

pub record CacheKey : Type 0 where
  pub session_id : String
  pub snapshot_id : String
  pub question_digest : String
  pub revision : ℕ
  pub model_fingerprint : String
  pub checkpoint_id : String

-- `==` of the frozen dataclass.
abbrev pub key_beq : CacheKey → CacheKey → Bool
key_beq a b =
    str_eq a.session_id b.session_id
    && str_eq a.snapshot_id b.snapshot_id
    && str_eq a.question_digest b.question_digest
    && a.revision == b.revision
    && str_eq a.model_fingerprint b.model_fingerprint
    && str_eq a.checkpoint_id b.checkpoint_id

pub key_beq_iff : (a b : CacheKey) → (key_beq a b ≡ true) ↔ (a ≡ b)
key_beq_iff a b = (
  λ h. ground (
    arith,
    eq_iff a.session_id b.session_id,
    eq_iff a.snapshot_id b.snapshot_id,
    eq_iff a.question_digest b.question_digest,
    eq_iff a.model_fingerprint b.model_fingerprint,
    eq_iff a.checkpoint_id b.checkpoint_id,
  ),
  λ h. ground (
    arith,
    eq_iff a.session_id b.session_id,
    eq_iff a.snapshot_id b.snapshot_id,
    eq_iff a.question_digest b.question_digest,
    eq_iff a.model_fingerprint b.model_fingerprint,
    eq_iff a.checkpoint_id b.checkpoint_id,
  ),
)

instance abbrev pub key_eq : EqType CacheKey
key_eq = record { beq = key_beq; beq_iff = key_beq_iff }

-- One place of a comparison of tuples.
abbrev then_by : Bool → Bool → Bool → Bool
then_by less same rest = less || same && rest

-- The tuples that `_evict_oldest` compares: the last access, then the fields of the key.
unfoldable pub rank_lt : ℕ × CacheKey → ℕ × CacheKey → Bool
rank_lt (t, a) (u, b) = then_by (ltb t u) (t == u) (
    then_by (str_lt a.session_id b.session_id) (str_eq a.session_id b.session_id) (
      then_by (str_lt a.snapshot_id b.snapshot_id) (str_eq a.snapshot_id b.snapshot_id) (
        then_by (str_lt a.question_digest b.question_digest)
          (str_eq a.question_digest b.question_digest)
          (then_by (ltb a.revision b.revision) (a.revision == b.revision) (
            then_by (str_lt a.model_fingerprint b.model_fingerprint)
              (str_eq a.model_fingerprint b.model_fingerprint)
              (str_lt a.checkpoint_id b.checkpoint_id))))))

-- Unicode normalisation, case folding and SHA-256 are tables and code outside the repository.
pub record TextTools : Type 0 where
  pub nfkc : List ℕ → List ℕ
  pub casefold : List ℕ → List ℕ
  pub sha256_hex : List ℕ → String

-- The arguments of `_cache_key`; a revision that is negative or no `int` is not of its type here.
pub record KeyParts : Type 0 where
  pub session_id : String
  pub snapshot_id : String
  pub question : String
  pub revision : ℕ
  pub model_fingerprint : String
  pub checkpoint_id : String

-- `_CONTROL_CHARACTER`
pub is_control : ℕ → Bool
is_control c = leb c 31 || c == 127

-- `_SAFE_TOKEN.fullmatch`
pub safe_token : String → Bool
unfolding is_alnum
safe_token s =
    all_codes (λ c. is_alnum c || c == b'.' || c == b'_' || c == b':' || c == b'-') (codes s)
    && leb 1 (length (codes s))
    && leb (length (codes s)) 128

-- `_WHITESPACE.sub(" ", s)`; `within` says that the last character was a space.
pub collapse_spaces : Bool → List ℕ → List ℕ
unfolding is_space
collapse_spaces within [] = []
collapse_spaces within (c ∷ cs) =
    let rest = collapse_spaces (is_space c) cs in
    if is_space c then (if within then rest else b' ' ∷ rest) else c ∷ rest

module _ (tools : TextTools) where
  pub normalized_question : String → List ℕ
  unfolding collapse_spaces strip
  normalized_question question =
      tools.casefold (strip (collapse_spaces false (tools.nfkc (codes question))))

  -- The first test of `_cache_key`.
  pub malformed : KeyParts → Bool
  unfolding is_control safe_token is_stripped
  malformed parts =
      length (codes parts.session_id) == 0
      || not (is_stripped (codes parts.session_id))
      || ltb 128 (length (codes parts.session_id))
      || any_code is_control (codes parts.session_id)
      || not (safe_token parts.snapshot_id)
      || not (safe_token parts.model_fingerprint)
      || not (safe_token parts.checkpoint_id)

  unfoldable pub cache_key : KeyParts → Result CacheError CacheKey
  unfolding malformed normalized_question
  cache_key parts =
      let question = normalized_question parts.question in
      if malformed parts
      then raise unavailable
      else if length question == 0 || ltb 2000 (length question)
      then raise unavailable
      else ok (record {
        session_id = parts.session_id;
        snapshot_id = parts.snapshot_id;
        question_digest = tools.sha256_hex question;
        revision = parts.revision;
        model_fingerprint = parts.model_fingerprint;
        checkpoint_id = parts.checkpoint_id;
      })
