-- ===== src/Auth/RateLimit/Examples.antt =====
-- rate_limit.rs at concrete requests.
use shaperail.Prelude.{[], ◌∷◌, ◌≡◌, arith}
use shaperail.Core.Error.{err, rate_limited}
use shaperail.Auth.RateLimit.{RateLimitConfig, check}
use shaperail.Auth.RateLimit.Window.{history, check-in_window_count}

abbrev two_a_second : RateLimitConfig
two_a_second = record { max_requests = 2; window_secs = 1 }

-- A third request within a second is refused: the first of the four has left the window.
check-in_window_count_example :
    (check two_a_second 2000 (history two_a_second (1500 ∷ 1100 ∷ 300 ∷ []))).0 ≡ err rate_limited
check-in_window_count_example =
    check-in_window_count two_a_second 2000 (1500 ∷ 1100 ∷ 300 ∷ [])
      (omega arith, (omega arith, (omega arith, tt)))
