-- ===== src/SessionStore/ContextSize.antt =====
-- How long the text of `conversation_context` in app/services/session_store.py can be.
use mathlib.Core.List.{reverse, reverse-cons}
use questock.Prelude.{
  ℕ, ◌+◌, ◌-◌, ◌*◌, ◌≤◌, ◌≡◌, refl, false, Option, none, some, List, [], ◌∷◌, ◌++◌, arith, String,
  Bool-cases, inl, inr, length, take, ◌&&◌, length-take-le, if◌then◌else◌, length-append, ltb, leb,
}
use questock.SessionStore.{StoreError, Store, SessionState, state}
use questock.Exec.{Result, raise, lift, pure, ◌>>=◌, ok}
use questock.SessionStore.Exchange.{unavailable, StoreError, SessionExchange}
use questock.SessionStore.Conversation.{
  none_yet, select, blocks, join_lines, context_text, conversation_context, text_of, limits_ok,
  block,
}

-- The characters of the blocks, without what stands between them.
abbrev pub total : List (List ℕ) → ℕ
total [] = 0
total (t ∷ ts) = length t + total ts

total-append : (xs ys : List (List ℕ)) → total (xs ++ ys) ≡ total xs + total ys
total-append [] ys = omega arith
total-append (x ∷ xs) ys = omega (arith, total-append xs ys)

total-reverse : (xs : List (List ℕ)) → total (reverse xs) ≡ total xs
total-reverse [] = refl
total-reverse (x ∷ xs) =
    rw (reverse-cons x xs) (omega (arith, total-append (reverse xs) (x ∷ []), total-reverse xs))

length-reverse : (xs : List (List ℕ)) → length (reverse xs) ≡ length xs
length-reverse [] = refl
length-reverse (x ∷ xs) =
    rw (reverse-cons x xs) (omega (arith, length-append (reverse xs) (x ∷ []), length-reverse xs))

-- A join has two characters more for each block after the first.
length-join_lines :
    (t : List ℕ) (ts : List (List ℕ))
    → length (join_lines (t ∷ ts)) ≡ total (t ∷ ts) + 2 * length ts
length-join_lines t [] = omega arith
length-join_lines t (u ∷ ts) =
    omega (arith, length-append t (10 ∷ 10 ∷ join_lines (u ∷ ts)), length-join_lines u ts)

-- The blocks have no more characters than were allowed, and there are no more of them.
select-le :
    (m : ℕ) (selected : List (List ℕ)) (remaining : ℕ) (bs : List (List ℕ))
    → length selected + 1 ≤ m
    → (total (select m selected remaining bs) ≤ total selected + remaining)
      × (length (select m selected remaining bs) ≤ m)
unfolding select
select-le m selected remaining [] h = (omega arith, omega (arith, h))
select-le m selected remaining (b ∷ bs) h =
    let more = selected ++ b ∷ [] in
    let longer = length-append selected (b ∷ []) in
    let larger = total-append selected (b ∷ []) in
    elim (Bool-cases (ltb remaining (length b))) [
      | inl long ↦ rw long (cut selected (length-take-le remaining b) h)
      | inr short ↦ rw short (elim (Bool-cases (leb m (length more))) [
        | inl full ↦ rw full (ground (arith, larger, short), omega (arith, longer, h))
        | inr open' ↦ rw open' (
            let rest = select-le m more (remaining - length b) bs (ground (arith, open')) in
            (ground (arith, rest, larger, short), rest.1))
      ])
    ]
  where
    cut :
        (selected : List (List ℕ))
        → length (take remaining b) ≤ remaining
        → length selected + 1 ≤ m
        → (total (if none_yet selected && ltb 0 remaining then take remaining b ∷ [] else selected)
            ≤ total selected + remaining)
          × (length
                (if none_yet selected && ltb 0 remaining then take remaining b ∷ [] else selected)
              ≤ m)
    cut [] t h = ground (arith, t, h)
    cut (x ∷ xs) t h = (omega arith, omega (arith, h))

-- The blocks in the order of a join, last first.
length-joined :
    (m c : ℕ) (ts us : List (List ℕ))
    → total us ≡ total ts
    → length us ≡ length ts
    → total ts ≤ c
    → length ts ≤ m
    → length (join_lines us) ≤ c + 2 * (m - 1)
length-joined m c ts [] p q h k = omega arith
length-joined m c ts (u ∷ us) p q h k = omega (arith, p, q, h, k, length-join_lines u us)

context_text-le :
    (m c : ℕ) (xs : List SessionExchange) → 1 ≤ m → length (context_text m c xs) ≤ c + 2 * (m - 1)
unfolding context_text
context_text-le m c xs h =
    let ts = select m [] c (blocks (reverse xs)) in
    let (few, short) = select-le m [] c (blocks (reverse xs)) h in
    length-joined m c ts (reverse ts) (total-reverse ts) (length-reverse ts) (omega (arith, few))
      short

text_of-le :
    (m c : ℕ) (found : Option SessionState) → 1 ≤ m → length (text_of m c found) ≤ c + 2 * (m - 1)
text_of-le m c none h = omega arith
text_of-le m c (some state) h = context_text-le m c state.recent_exchanges h

returned :
    (m c : ℕ) (r : Result StoreError (Option SessionState)) (s : Store) (text : List ℕ)
    → 1 ≤ m
    → ((lift r >>= λ found. pure (text_of m c found)) s).0 ≡ ok text
    → length text ≤ c + 2 * (m - 1)
returned m c (raise e) s text one h = ground arith
returned m c (ok found) s text one h = ground (arith, h, text_of-le m c found one)

-- Whatever the store and the clock, a text that conversation_context returns has at most max_chars
-- characters and two more for each exchange after the first that was asked for, so at most 4002.
pub conversation_context-le :
    (reading : Option ℕ) (id : String) (m c : ℕ) (s : Store) (text : List ℕ)
    → (conversation_context reading id m c s).0 ≡ ok text
    → (length text ≤ c + 2 * (m - 1)) × (length text ≤ 4002)
unfolding conversation_context limits_ok
conversation_context-le reading id m c s text h = elim (Bool-cases (limits_ok m c)) [
  | inr bad ↦ let none_returned : (raise unavailable) ≡ (ok text) = rw bad at h in ground arith
  | inl good ↦
      let short : length text ≤ c + 2 * (m - 1) =
        returned m c (state reading id s).0 (state reading id s).1 text (ground (arith, good))
          (rw good at h) in
      (short, ground (arith, short, good))
]

select-two :
    (c : ℕ) (b a : List ℕ) → length b + length a ≤ c → select 2 [] c (b ∷ a ∷ []) ≡ b ∷ a ∷ []
unfolding select
select-two c b a h =
    let first : ltb c (length b) ≡ false = ground (arith, h) in
    let second : ltb (c - length b) (length a) ≡ false = ground (arith, h) in
    rw first (rw second refl)

-- Where both of two exchanges fit in max_chars and two were asked for, the text is longer than
-- their blocks by the two line ends between them, which the loop does not count.
pub context_text-two :
    (c : ℕ) (x y : SessionExchange)
    → length (block x) + length (block y) ≤ c
    → length (context_text 2 c (x ∷ y ∷ [])) ≡ length (block x) + length (block y) + 2
unfolding context_text
context_text-two c x y h =
    rw (select-two c (block y) (block x) (omega (arith, h)))
      (omega (arith, length-append (block x) (10 ∷ 10 ∷ block y)))
