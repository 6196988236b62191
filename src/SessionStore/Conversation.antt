-- ===== src/SessionStore/Conversation.antt =====
-- `conversation_context` of app/services/session_store.py: the text of the last exchanges that goes
-- to the model. A text is the list of its code points.
use mathlib.Core.List.{reverse}
use questock.Prelude.{
  ℕ, ◌-◌, Bool, true, false, ◌&&◌, Option, none, some, List, [], ◌∷◌, ◌++◌, String, ltb, leb,
  if◌then◌else◌, length, take,
}
use questock.Prelude.Text.{codes}
use questock.Exec.{Exec, ◌>>=◌, ◌>>◌, pure, raise_if}
use questock.SessionStore.Exchange.{StoreError, unavailable, SessionExchange}
use questock.SessionStore.{Store, SessionState, state}

abbrev pub max_llm_context_exchanges : ℕ
max_llm_context_exchanges = 2

abbrev pub max_llm_context_chars : ℕ
max_llm_context_chars = 4000

-- `block`
unfoldable pub block : SessionExchange → List ℕ
block x =
    codes "User: "
    ++ codes x.user_question
    ++ (10 ∷ codes "Assistant: ")
    ++ codes x.assistant_public_text

-- `not selected`
abbrev pub none_yet : List (List ℕ) → Bool
none_yet [] = true
none_yet (_ ∷ _) = false

-- The blocks of the loop over the exchanges, from the last one back, in the order of the appends.
unfoldable pub select : ℕ → List (List ℕ) → ℕ → List (List ℕ) → List (List ℕ)
select max_exchanges selected remaining [] = selected
select max_exchanges selected remaining (b ∷ bs) =
    let more = selected ++ b ∷ [] in
    let rest = select max_exchanges more (remaining - length b) bs in
    if ltb remaining (length b)
    then (if none_yet selected && ltb 0 remaining then take remaining b ∷ [] else selected)
    else if leb max_exchanges (length more)
    then more
    else rest

abbrev pub blocks : List SessionExchange → List (List ℕ)
blocks [] = []
blocks (x ∷ xs) = block x ∷ blocks xs

-- `"\n\n".join(texts)`
abbrev pub join_lines : List (List ℕ) → List ℕ
join_lines [] = []
join_lines (t ∷ []) = t
join_lines (t ∷ u ∷ ts) = t ++ 10 ∷ 10 ∷ join_lines (u ∷ ts)

unfoldable pub context_text : ℕ → ℕ → List SessionExchange → List ℕ
unfolding select
context_text max_exchanges max_chars exchanges =
    join_lines (reverse (select max_exchanges [] max_chars (blocks (reverse exchanges))))

abbrev pub text_of : ℕ → ℕ → Option SessionState → List ℕ
text_of max_exchanges max_chars none = []
text_of max_exchanges max_chars (some state) =
    context_text max_exchanges max_chars state.recent_exchanges

unfoldable pub limits_ok : ℕ → ℕ → Bool
limits_ok max_exchanges max_chars =
    leb 1 max_exchanges
    && leb max_exchanges max_llm_context_exchanges
    && leb 1 max_chars
    && leb max_chars max_llm_context_chars

-- `conversation_context`
unfoldable pub conversation_context : Option ℕ → String → ℕ → ℕ → Exec StoreError Store (List ℕ)
conversation_context reading id max_exchanges max_chars = do
  raise_if (if limits_ok max_exchanges max_chars then false else true) unavailable
  found ← state reading id
  pure (text_of max_exchanges max_chars found)
