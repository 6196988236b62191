-- ===== src/SessionStore/Append.antt =====
-- The exchanges that `append_exchange` of app/services/session_store.py keeps, and their characters.
use questock.Prelude.{
  some, ◌*◌, ℕ, zero, suc, ◌+◌, ◌-◌, ◌≤◌, ◌≡◌, true, List, [], ◌∷◌, ◌++◌, arith, String, length,
  All, All-append, All-drop, length-append, take_last, drop, length-take_last-le, leb→le,
}
use questock.Prelude.Text.{codes}
use questock.Exec.{ok}
use questock.SessionStore.Text.{memory_text}
use questock.SessionStore.Exchange.{SessionExchange, canonical_exchange, texts_ok}
use questock.SessionStore.{
  SessionEntry, conversation_chars, max_recent_exchanges, max_session_conversation_chars,
}
use questock.SessionStore.Valid.{Consecutive, EntryOk}

Consecutive-append :
    (r : ℕ) (xs : List SessionExchange) (x : SessionExchange)
    → Consecutive r xs
    → x.revision ≡ r + 1
    → Consecutive (r + 1) (xs ++ x ∷ [])
Consecutive-append r [] x h q = (omega arith, tt)
Consecutive-append r (y ∷ ys) x h q =
    (omega (arith, h.0, length-append ys (x ∷ [])), Consecutive-append r ys x h.1 q)

Consecutive-drop :
    (r n : ℕ) (xs : List SessionExchange) → Consecutive r xs → Consecutive r (drop n xs)
Consecutive-drop r zero xs h = h
Consecutive-drop r (suc n) [] h = h
Consecutive-drop r (suc n) (x ∷ xs) h = Consecutive-drop r n xs h.1

memory_text-le : (n : ℕ) (s : String) → memory_text n s ≡ true → length (codes s) ≤ n
unfolding memory_text
memory_text-le n s h = leb→le (length (codes s)) n (ground arith)

-- The texts of a canonical exchange have 4000 characters at most.
pub canonical_chars :
    (x : SessionExchange)
    → canonical_exchange x ≡ ok x
    → length (codes x.user_question) + length (codes x.assistant_public_text) ≤ 4000
unfolding canonical_exchange texts_ok
canonical_chars x h = omega (
  arith,
  memory_text-le 2000 x.user_question (ground arith),
  memory_text-le 2000 x.assistant_public_text (ground arith),
)

conversation_chars-le :
    (xs : List SessionExchange)
    → All (λ x. canonical_exchange x ≡ ok x) xs
    → conversation_chars xs ≤ 4000 * length xs
conversation_chars-le [] h = omega arith
conversation_chars-le (x ∷ xs) h =
    omega (arith, canonical_chars x h.0, conversation_chars-le xs h.1)

-- The exchanges that a session keeps after one more.
abbrev pub kept : List SessionExchange → SessionExchange → List SessionExchange
kept xs x = take_last max_recent_exchanges (xs ++ x ∷ [])

module _ (xs : List SessionExchange) (x : SessionExchange)
    (canon : All (λ y. canonical_exchange y ≡ ok y) xs) (canon' : canonical_exchange x ≡ ok x) where
  kept-canonical : All (λ y. canonical_exchange y ≡ ok y) (kept xs x)
  kept-canonical =
      All-drop _ (length (xs ++ x ∷ []) - max_recent_exchanges) (xs ++ x ∷ [])
        (All-append _ xs (x ∷ []) canon (canon', tt))

  -- So the total that `append_exchange` tests never passes its limit.
  pub kept-chars-le : conversation_chars (kept xs x) ≤ max_session_conversation_chars
  kept-chars-le = omega (
    arith,
    conversation_chars-le (kept xs x) kept-canonical,
    length-take_last-le max_recent_exchanges (xs ++ x ∷ []),
  )

pub appended-EntryOk :
    {time : ℕ} (e : SessionEntry) (x : SessionExchange)
    → EntryOk (some time) e
    → canonical_exchange x ≡ ok x
    → x.revision ≡ e.revision + 1
    → EntryOk (some time) (record e {
      recent_exchanges = kept e.recent_exchanges x;
      revision = e.revision + 1;
      last_access = time;
    })
appended-EntryOk e x h canon q = record {
  recent_bound = length-take_last-le max_recent_exchanges (e.recent_exchanges ++ x ∷ []);
  consecutive =
      Consecutive-drop (e.revision + 1) _ (e.recent_exchanges ++ x ∷ [])
        (Consecutive-append e.revision e.recent_exchanges x h.consecutive q);
  canonical = kept-canonical e.recent_exchanges x h.canonical canon;
  context = h.context;
  accessed = omega arith;
}
