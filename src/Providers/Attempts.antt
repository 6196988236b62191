-- ===== src/Providers/Attempts.antt =====
-- What `fetch_with_policy` of app/providers/base.py comes to, whatever the provider does.
use questock.Prelude.{
  ℕ, zero, suc, ◌+◌, ◌≤◌, ◌<◌, ◌≡◌, ◌≢◌, refl, sym, ap, ◌∙◌, subst, true, false, ◌⊎◌, Option, none,
  String, string_eq, if◌then◌else◌, leb, ◌==◌, arith, Bool-cases, inl, inr,
}
use questock.Exec.{Result, ok, raise}
use questock.Core.Models.{DateRange}
use questock.Core.Unicode.{Unicode}
use questock.Core.Plan.{
  SecurityIdentifier, ProviderResult, ProviderStatus, provider_ok, no_data, invalid_query,
  unauthorized, rate_limited, timeout, provider_unavailable, parse_error,
}
use questock.Evidence.Policy.Inputs.{provider_result_ok}
use questock.Providers.{ContractError, CacheKey, make_cache_key, Cache, is_ok}
use questock.Providers.Fetch.{
  Outcome, timed_out, failed, answered, Attempt, ProviderConfig, total_deadline_result, call_once,
  is_retryable, set_in, attempt_result, after_call, Fetched, attempts, get_in, unless_cached,
  fetch_with_policy,
}
use questock.Providers.Canonical.{create_provider_result-fits}

-- The statuses that another attempt may mend.
abbrev pub IsTransient : ProviderStatus → Type 0
IsTransient status = (status ≡ timeout) ⊎ (status ≡ provider_unavailable)

retryable-IsTransient : (status : ProviderStatus) → is_retryable status ≡ true → IsTransient status
retryable-IsTransient timeout h = inl refl
retryable-IsTransient provider_unavailable h = inr refl
retryable-IsTransient provider_ok h = absurd (ground (arith, h))
retryable-IsTransient no_data h = absurd (ground (arith, h))
retryable-IsTransient invalid_query h = absurd (ground (arith, h))
retryable-IsTransient unauthorized h = absurd (ground (arith, h))
retryable-IsTransient rate_limited h = absurd (ground (arith, h))
retryable-IsTransient parse_error h = absurd (ground (arith, h))

final-settled :
    (status : ProviderStatus)
    → is_retryable status ≡ false
    → (status ≢ timeout) × (status ≢ provider_unavailable)
final-settled status h = (
  λ q. absurd (ground (arith, sym h ∙ ap is_retryable q)),
  λ q. absurd (ground (arith, sym h ∙ ap is_retryable q)),
)

-- A result that ends the attempts by itself, an exception included.
abbrev pub Settles : Result ContractError ProviderResult → Type 0
Settles (ok r) = (r.status ≢ timeout) × (r.status ≢ provider_unavailable)
Settles (raise e) = Unit

-- The last attempt gives its result.
after_call-last :
    (key : CacheKey) (stored_at : ℕ) (m : Result ContractError ProviderResult)
    (cache : Option Cache) (rest : Option Cache → Fetched)
    → (after_call true key stored_at m cache rest).0 ≡ m
after_call-last key stored_at (raise e) cache rest = refl
after_call-last key stored_at (ok r) cache rest = elim (Bool-cases (is_retryable r.status)) [
  | inl again ↦ rw again refl
  | inr final ↦ rw final refl
]

-- An attempt that is not the last one gives its result, or the attempts go on.
after_call-cases :
    (key : CacheKey) (stored_at : ℕ) (m : Result ContractError ProviderResult)
    (cache : Option Cache) (rest : Option Cache → Fetched)
    → (((after_call false key stored_at m cache rest).0 ≡ m) × Settles m)
      ⊎ ((r : ProviderResult) × (cache' : Option Cache) × (m ≡ ok r)
          × IsTransient r.status
          × ((after_call false key stored_at m cache rest).0 ≡ (rest cache').0))
after_call-cases key stored_at (raise e) cache rest = inl (refl, tt)
after_call-cases key stored_at (ok r) cache rest = elim (Bool-cases (is_retryable r.status)) [
  | inr final ↦ inl (rw final refl, final-settled r.status final)
  | inl again ↦ inr (
    r,
    if is_ok r.status then set_in cache stored_at key r else cache,
    refl,
    retryable-IsTransient r.status again,
    rw again refl,
  )
]

module _ (config : ProviderConfig) (deadline : ℕ) (world : ℕ → Attempt) where
  -- The attempt was made in time and gave a result that is worth another attempt.
  abbrev pub IsRetried : ℕ → Type 0
  IsRetried j =
      ((world j).at < deadline)
      × (r : ProviderResult) × (attempt_result config deadline (world j) ≡ ok r)
      × IsTransient r.status

  -- How the attempts end with the attempt `i`: too late to make it, or with what it gave.
  abbrev pub EndsWith : (last i : ℕ) → Result ContractError ProviderResult → Type 0
  EndsWith last i x =
      ((deadline ≤ (world i).at) × (x ≡ ok (total_deadline_result (world i).utc)))
      ⊎ (((world i).at < deadline)
          × (x ≡ attempt_result config deadline (world i))
          × ((i ≡ last) ⊎ Settles x))

  -- The attempts up to the last one, from `from` on.
  abbrev pub Course : (last from : ℕ) → Result ContractError ProviderResult → Type 0
  Course last from x =
      (i : ℕ) × (from ≤ i)
      × (i ≤ last)
      × EndsWith last i x
      × ((j : ℕ) → from ≤ j → j < i → IsRetried j)

  attempts-Course :
      (key : CacheKey) (more index : ℕ) (cache : Option Cache)
      → Course (index + more) index (attempts config deadline key world more index cache).0
  unfolding attempts
  attempts-Course key zero index cache = elim (Bool-cases (leb deadline (world index).at)) [
    | inl late ↦ rw late (
      index,
      omega arith,
      omega arith,
      inl (ground (arith, late), refl),
      λ j low high. absurd (omega arith),
    )
    | inr early ↦
        let m = attempt_result config deadline (world index) in
        rw early (
          index,
          omega arith,
          omega arith,
          inr (
            ground (arith, early),
            after_call-last key (world index).stored_at m cache _,
            inl (omega arith),
          ),
          λ j low high. absurd (omega arith),
        )
  ]
  attempts-Course key (suc more) index cache = elim (Bool-cases (leb deadline (world index).at)) [
    | inl late ↦ rw late (
      index,
      omega arith,
      omega arith,
      inl (ground (arith, late), refl),
      λ j low high. absurd (omega arith),
    )
    | inr early ↦
        let a = world index in
        let m = attempt_result config deadline a in
        let rest = attempts config deadline key world more (index + 1) in
        elim (after_call-cases key a.stored_at m cache rest) [
          | inl (same, settled) ↦ rw early (
            index,
            omega arith,
            omega arith,
            inr (ground (arith, early), same, inr (subst Settles (sym same) settled)),
            λ j low high. absurd (omega arith),
          )
          | inr (r, cache', made, again, goes_on) ↦
              let (i, low, high, end, before) = attempts-Course key more (index + 1) cache' in
              let last : index + 1 + more ≡ index + suc more = omega arith in
              rw early (
                i,
                omega (arith, low),
                omega (arith, high),
                subst (EndsWith (index + suc more) i) (sym goes_on)
                    (subst (λ (n : ℕ). EndsWith n i (rest cache').0) last end),
                λ j above below. elim (Bool-cases (j == index)) [
                  | inl here ↦
                      subst IsRetried (sym (ground (arith, here)))
                        (ground (arith, early), r, made, again)
                  | inr later ↦ before j (ground (arith, above, later)) below
                ],
              )
        ]
  ]

call_once-fits :
    (outcome : Outcome) (timeout_code : String) (utc : ℕ) (r : ProviderResult)
    → call_once outcome timeout_code utc ≡ ok r
    → provider_result_ok r ≡ true
unfolding call_once
call_once-fits timed_out code utc r h = create_provider_result-fits _ _ _ _ _ _ r h
call_once-fits failed code utc r h = create_provider_result-fits _ _ _ _ _ _ r h
call_once-fits (answered x) code utc r h = create_provider_result-fits _ _ _ _ _ _ r h

EndsWith-fits :
    (config : ProviderConfig) (deadline : ℕ) (world : ℕ → Attempt) (last i : ℕ)
    (x : Result ContractError ProviderResult)
    → EndsWith config deadline world last i x
    → (r : ProviderResult) → x ≡ ok r
    → provider_result_ok r ≡ true
unfolding provider_result_ok
EndsWith-fits config deadline world last i x (inl (late, same)) r h =
    let q : total_deadline_result (world i).utc ≡ r = ground (arith, same, h) in
    subst (λ (y : ProviderResult). provider_result_ok y ≡ true) q refl
EndsWith-fits config deadline world last i x (inr (early, same, settled)) r h =
    call_once-fits (world i).outcome _ (world i).utc r (sym same ∙ h)

-- If the cache has nothing, then whatever the provider does and the clocks read, fetch_with_policy
-- ends with an attempt i of the at most retry_count + 1: all before it were made before the
-- deadline, however short the time that was left, and gave TIMEOUT or PROVIDER_UNAVAILABLE; attempt
-- i comes at the deadline or later, and the result is the timeout of the total, or it gives the
-- result, which is the last allowed one, an exception, or of a status that is neither of the two. A
-- result that is returned passes the check of the policy.
pub fetch_with_policy-Course :
    (u : Unicode) (provider_key : String) (security : SecurityIdentifier) (config : ProviderConfig)
    (query : Option String) (date_range : Option DateRange) (now began : ℕ) (world : ℕ → Attempt)
    (cache : Option Cache)
    → (get_in now (make_cache_key u provider_key security query date_range) cache).0 ≡ none
    → Course config
        (began + config.total_deadline_seconds)
        world
        config.retry_count
        0
        (fetch_with_policy u provider_key security config query date_range now began world cache).0
      × ((r : ProviderResult)
          → (fetch_with_policy u provider_key security config query date_range now began world
              cache).0
            ≡ ok r
          → provider_result_ok r ≡ true)
unfolding fetch_with_policy
fetch_with_policy-Course u provider_key security config query date_range now began world cache
      empty =
    let key = make_cache_key u provider_key security query date_range in
    let deadline = began + config.total_deadline_seconds in
    let cache' = (get_in now key cache).1 in
    let run = attempts config deadline key world config.retry_count 0 in
    let same : unless_cached ((get_in now key cache).0) cache' run ≡ run cache' =
      ap (λ (o : Option ProviderResult). unless_cached o cache' run) empty in
    let count : 0 + config.retry_count ≡ config.retry_count = omega arith in
    let course : Course config deadline world config.retry_count 0 (run cache').0 =
      subst (λ (n : ℕ). Course config deadline world n 0 (run cache').0) count
        (attempts-Course config deadline world key config.retry_count 0 cache') in
    let (i, low, high, end, before) = course in
    (
      subst (λ (f : Fetched). Course config deadline world config.retry_count 0 f.0) (sym same)
          course,
      λ r h.
          EndsWith-fits config deadline world config.retry_count i (run cache').0 end r
            (ap (λ (f : Fetched). f.0) (sym same) ∙ h),
    )
