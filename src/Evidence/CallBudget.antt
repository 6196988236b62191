-- ===== src/Evidence/CallBudget.antt =====
-- `LLMCallBudget` of app/evidence/budget.py: how often one request may call the model.
use questock.Prelude.{
  if_true, if_false, ℕ, zero, suc, ◌+◌, ◌-◌, ◌≤◌, ◌≡◌, ◌||◌, List, [], ◌∷◌, ltb, leb, if◌then◌else◌,
  arith, Bool-cases, inl, inr,
}
use questock.Exec.{Result, ok, raise, Exec}

pub data BudgetError : Type 0 where
  invalid exceeded : BudgetError

abbrev pub max_llm_calls : ℕ
max_llm_calls = 2

pub record LlmCallBudget : Type 0 where
  pub max_calls : ℕ
  pub calls_used : ℕ

-- `__init__`
unfoldable pub init : ℕ → Result BudgetError LlmCallBudget
init max_calls =
    if ltb max_calls 1 || ltb max_llm_calls max_calls
    then raise invalid
    else ok (record { max_calls = max_calls; calls_used = 0 })

-- `reserve_call`
unfoldable pub reserve_call : Exec BudgetError LlmCallBudget ℕ
reserve_call b =
    if leb b.max_calls b.calls_used
    then (raise exceeded, b)
    else (ok (b.calls_used + 1), record b { calls_used = b.calls_used + 1 })

pub record LlmCallBudgetSnapshot : Type 0 where
  pub calls_used : ℕ
  pub calls_remaining : ℕ
  pub max_calls : ℕ

-- `snapshot`; the subtraction is that of the integers as long as no more calls are used than allowed.
unfoldable pub snapshot : LlmCallBudget → LlmCallBudgetSnapshot
snapshot b = record {
  calls_used = b.calls_used;
  calls_remaining = b.max_calls - b.calls_used;
  max_calls = b.max_calls;
}

-- The results of `n` calls of `reserve_call`, one after the other.
unfoldable pub reserve_all : ℕ → LlmCallBudget → List (Result BudgetError ℕ)
reserve_all zero b = []
reserve_all (suc n) b = (reserve_call b).0 ∷ reserve_all n (reserve_call b).1

abbrev pub granted : List (Result BudgetError ℕ) → ℕ
granted [] = 0
granted (ok _ ∷ rs) = suc (granted rs)
granted (raise _ ∷ rs) = granted rs

reserve_all_lem :
    (n : ℕ) (b : LlmCallBudget)
    → b.calls_used ≤ b.max_calls
    → granted (reserve_all n b)
      ≡ (if leb n (b.max_calls - b.calls_used) then n else b.max_calls - b.calls_used)
unfolding reserve_all reserve_call
reserve_all_lem zero b h = ground arith
reserve_all_lem (suc n) b h = elim (Bool-cases (leb b.max_calls b.calls_used)) [
  | inl full ↦
      let refused : reserve_call b ≡ (raise exceeded, b) = if_true _ _ _ full in
      rw refused (ground (arith, reserve_all_lem n b h, full))
  | inr room ↦
      let more : LlmCallBudget = record b { calls_used = b.calls_used + 1 } in
      let made : reserve_call b ≡ (ok (b.calls_used + 1), more) = if_false _ _ _ room in
      rw made (ground (arith, reserve_all_lem n more, room))
]

-- However often a request asks a new budget for a call, it is granted exactly the first max_calls
-- of them, so two at most.
granted-reserve_all :
    (max_calls n : ℕ) (b : LlmCallBudget)
    → init max_calls ≡ ok b
    → (granted (reserve_all n b) ≡ (if leb n max_calls then n else max_calls))
      × (granted (reserve_all n b) ≤ 2)
unfolding init
granted-reserve_all max_calls n b made =
    let all = reserve_all_lem n b (ground (arith, made)) in
    (ground (arith, all, made), ground (arith, all, made))
