-- ===== src/Auth/RateLimit/Window.antt =====
-- The sliding window counts exactly the requests that lie in it.
use shaperail.Prelude.{
  ◌+◌, ℕ, suc, ◌-◌, ◌*◌, ◌≤◌, List, [], ◌∷◌, length, keep, ltb, All, if◌then◌else◌, ◌≡◌, refl,
  arith,
}
use shaperail.Core.Error.{ok, err, rate_limited}
use shaperail.Auth.RateLimit.{RateLimitConfig, in_window, slide, check}

-- The times of the key after requests at the given times, the latest first.
pub history : RateLimitConfig → List ℕ → List ℕ
history config [] = []
history config (t ∷ past) = (check config t (history config past)).1

-- How many of the times a window that ends now still holds.
abbrev pub in_window_count : (now window : ℕ) → List ℕ → ℕ
in_window_count now window times = length (keep (λ t. ltb now (t + window)) times)

keep-keep :
    (t now window : ℕ) (xs : List ℕ)
    → t ≤ now
    → keep (in_window now window) (keep (in_window t window) xs) ≡ keep (in_window now window) xs
keep-keep t now window [] h = refl
keep-keep t now window (x ∷ xs) h = ground (arith, keep-keep t now window xs h)

keep-history :
    (config : RateLimitConfig) (now : ℕ) (past : List ℕ)
    → All (λ t. t ≤ now) past
    → keep (in_window now (config.window_secs * 1000)) (history config past)
      ≡ keep (in_window now (config.window_secs * 1000)) past
unfolding history check slide
keep-history config now [] h = refl
keep-history config now (t ∷ past) (h, hs) =
    let inner = keep-keep t now (config.window_secs * 1000) (history config past) h in
    let rest = keep-history config now past hs in rw (inner, rest) refl

-- After any requests, none of them later than now, the limiter refuses a request exactly when more
-- requests than the limit lie in the window, this one and the refused ones included; otherwise it
-- answers how many are left.
pub check-in_window_count :
    (config : RateLimitConfig) (now : ℕ) (past : List ℕ)
    → All (λ t. t ≤ now) past
    → (check config now (history config past)).0 ≡ (
        let n = suc (in_window_count now (config.window_secs * 1000) past) in
        if ltb config.max_requests n then err rate_limited else ok (config.max_requests - n))
unfolding check slide
check-in_window_count config now past h = rw (keep-history config now past h) refl
