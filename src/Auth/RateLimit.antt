-- ===== src/Auth/RateLimit.antt =====
-- shaperail-runtime/src/auth/rate_limit.rs: the sliding-window limiter, whose sorted set per key is
-- the list of the times in it, and the keys. Times and windows are whole milliseconds.
pub mod Window
mod Examples
use shaperail.Prelude.{
  ℕ, ◌+◌, ◌-◌, ◌*◌, String, List, [], ◌∷◌, Option, none, some, Bool, length, keep, format, ltb,
  if◌then◌else◌,
}
use shaperail.Core.Error.{Result, ok, err, rate_limited}

pub record RateLimitConfig : Type 0 where
  pub max_requests : ℕ
  pub window_secs : ℕ

-- `ZREMRANGEBYSCORE -inf now - window`: what stays is later than the start of the window.
abbrev pub in_window : (now window : ℕ) → ℕ → Bool
in_window now window t = ltb now (t + window)

-- The script: drop what is too old, add the time of the request under a fresh member.
unfoldable pub slide : (now window : ℕ) → List ℕ → List ℕ
slide now window times = now ∷ keep (in_window now window) times

-- `check` with the request's time, on the times of its key.
unfoldable pub check : RateLimitConfig → (now : ℕ) → List ℕ → Result ℕ × List ℕ
unfolding slide
check config now times =
    let kept = slide now (config.window_secs * 1000) times in
    (
      if ltb config.max_requests (length kept)
          then err rate_limited
          else ok (config.max_requests - length kept),
      kept,
    )

unfoldable pub key_for : (ip : String) → (user_id : Option String) → String
key_for ip (some uid) = format ("user:" ∷ uid ∷ [])
key_for ip none = format ("ip:" ∷ ip ∷ [])

unfoldable pub key_for_tenant : (ip : String) → (user_id tenant_id : Option String) → String
key_for_tenant ip user_id (some tid) = format ("t:" ∷ tid ∷ ":" ∷ key_for ip user_id ∷ [])
key_for_tenant ip user_id none = key_for ip user_id
