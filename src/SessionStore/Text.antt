-- ===== src/SessionStore/Text.antt =====
-- The regular expressions and text tests of app/services/session_store.py, over code points.
use questock.Prelude.{
  ℕ, ◌+◌, Bool, true, false, not, ◌&&◌, ◌||◌, List, [], ◌∷◌, String, leb, ltb, ◌==◌, if◌then◌else◌,
  length,
}
use questock.Prelude.Text.{
  codes, any_code, all_codes, between, is_space, is_letter, is_alnum, has_text, is_stripped,
}

-- `_CONTROL_CHARACTER`
pub is_control : ℕ → Bool
is_control c = leb c 31 || c == 127

-- `_TEXT_CONTROL_CHARACTER`
pub is_text_control : ℕ → Bool
is_text_control c = leb c 8 || between 11 12 c || between 14 31 c || c == 127

is_slash : ℕ → Bool
is_slash c = c == b'\\' || c == b'/'

drive_tail : List ℕ → Bool
unfolding is_slash
drive_tail (a ∷ b ∷ _) = a == b':' && is_slash b
drive_tail _ = false

-- `_WINDOWS_PATH.search`; `word` says that a word character stands before.
pub windows_path : Bool → List ℕ → Bool
unfolding drive_tail is_letter is_alnum
windows_path word [] = false
windows_path word (c ∷ cs) =
    not word && is_letter c && drive_tail cs || windows_path (is_alnum c || c == b'_') cs

in_name : ℕ → Bool
unfolding is_slash is_space
in_name c = not (is_slash c) && not (is_space c)

starts_name : List ℕ → Bool
unfolding in_name
starts_name [] = false
starts_name (c ∷ _) = in_name c

unc_share : List ℕ → Bool
unfolding starts_name is_slash
unc_share [] = false
unc_share (c ∷ cs) = if in_name c then unc_share cs else is_slash c && starts_name cs

unc_at : List ℕ → Bool
unfolding starts_name unc_share
unc_at (a ∷ b ∷ cs) =
    (a == b'\\' && b == b'\\' || a == b'/' && b == b'/') && starts_name cs && unc_share cs
unc_at _ = false

-- `_UNC_PATH.search`
pub unc_path : List ℕ → Bool
unfolding unc_at
unc_path [] = false
unc_path (c ∷ cs) = unc_at (c ∷ cs) || unc_path cs

-- `(?:/|$)`: the end, or a line break that is the end.
dir_end : List ℕ → Bool
dir_end [] = true
dir_end (c ∷ []) = c == b'/' || c == 10
dir_end (c ∷ _ ∷ _) = c == b'/'

dir_named : List ℕ → List ℕ → Bool
unfolding dir_end
dir_named [] cs = dir_end cs
dir_named (n ∷ ns) [] = false
dir_named (n ∷ ns) (c ∷ cs) = n == c && dir_named ns cs

private_dirs : List String
private_dirs =
    "root" ∷ "opt" ∷ "workspace" ∷ "home" ∷ "Users" ∷ "etc" ∷ "var" ∷ "tmp" ∷ "mnt" ∷ "srv" ∷ "usr"
    ∷ "app" ∷ "media" ∷ "custom" ∷ []

any_dir : List String → List ℕ → Bool
unfolding dir_named
any_dir [] cs = false
any_dir (d ∷ ds) cs = dir_named (codes d) cs || any_dir ds cs

is_boundary : ℕ → Bool
unfolding is_space
is_boundary c =
    is_space c
    || c == b'"'
    || c == b'\''
    || c == b'('
    || c == b')'
    || c == b'='
    || c == b'['
    || c == b']'
    || c == b'{'
    || c == b'}'
    || c == b','
    || c == b';'

-- `_POSIX_PRIVATE_PATH.search`; `edge` says that the start or a boundary stands before.
pub posix_private_path : Bool → List ℕ → Bool
unfolding any_dir private_dirs is_boundary
posix_private_path edge [] = false
posix_private_path edge (c ∷ cs) =
    edge && c == b'/' && any_dir private_dirs cs || posix_private_path (is_boundary c) cs

-- The letter that `(?i)` compares by: the ASCII lower case, and the four characters that fold to it.
fold_case : ℕ → ℕ
fold_case c =
    if between b'A' b'Z' c
    then c + 32
    else if between 304 305 c
    then b'i'
    else if c == 383
    then b's'
    else if c == 8490
    then b'k'
    else c

-- After the word: `\s*[:=]\s*\S+`.
assigned : List ℕ → Bool
unfolding is_space has_text
assigned [] = false
assigned (c ∷ cs) = if is_space c then assigned cs else (c == b':' || c == b'=') && has_text cs

-- A word of the pattern, then what is left of the pattern.
after_word : List ℕ → (List ℕ → Bool) → List ℕ → Bool
unfolding fold_case
after_word [] rest cs = rest cs
after_word (n ∷ ns) rest [] = false
after_word (n ∷ ns) rest (c ∷ cs) = n == fold_case c && after_word ns rest cs

-- `[-_]?`
after_joiner : (List ℕ → Bool) → List ℕ → Bool
after_joiner rest [] = rest []
after_joiner rest (c ∷ cs) = (c == b'-' || c == b'_') && rest cs || rest (c ∷ cs)

joined : String → String → List ℕ → Bool
unfolding after_word after_joiner assigned
joined first second = after_word (codes first) (after_joiner (after_word (codes second) assigned))

credential_at : List ℕ → Bool
unfolding joined
credential_at cs =
    joined "api" "key" cs
    || joined "client" "secret" cs
    || joined "access" "token" cs
    || after_word (codes "authorization") assigned cs
    || after_word (codes "credential") assigned cs

-- `_CREDENTIAL_VALUE.search`
pub credential_value : List ℕ → Bool
unfolding credential_at
credential_value [] = false
credential_value (c ∷ cs) = credential_at (c ∷ cs) || credential_value cs

-- `_SAFE_IDENTIFIER.fullmatch`
unfoldable pub safe_identifier : String → Bool
unfolding is_alnum
safe_identifier s =
    all_codes (λ c. is_alnum c || c == b'.' || c == b'_' || c == b':' || c == b'/' || c == b'-')
      (codes s)
    && leb 1 (length (codes s))
    && leb (length (codes s)) 256

-- `_memory_text`
unfoldable pub memory_text : ℕ → String → Bool
unfolding has_text is_text_control windows_path unc_path posix_private_path credential_value
memory_text max_chars value =
    has_text (codes value)
    && leb (length (codes value)) max_chars
    && not (any_code is_text_control (codes value))
    && not (windows_path false (codes value))
    && not (unc_path (codes value))
    && not (posix_private_path true (codes value))
    && not (credential_value (codes value))

-- The test of `_session_id`.
unfoldable pub session_id_ok : String → Bool
unfolding is_control is_stripped
session_id_ok value =
    ltb 0 (length (codes value))
    && is_stripped (codes value)
    && leb (length (codes value)) 128
    && not (any_code is_control (codes value))
