-- ===== src/RateLimiter.antt =====
-- The rate limiter of core/application/gateway/ratelimiter.go. `now` is what `time.Now()` reads, in
-- nanoseconds, 0 is the zero time, and `draw` what `rand.Int63n` returns, which is below the jitter.
-- Limits are integers, since the manifest may give negative ones; windows are not negative.
pub mod Windows
use vyx.Base.{
  ℕ, zero, suc, ◌+◌, ◌-◌, ◌*◌, ◌/◌, Bool, true, false, List, [], ◌∷◌, Option, none, some,
  if◌then◌else◌, leb, ltb, ◌==◌, Text, str_eq, Dict, lookup, insert, ℤ, pos, negsuc,
}

pub record Bucket : Type 0 where
  pub count : ℕ
  pub window_end : ℕ

abbrev pub empty_bucket : Bucket
empty_bucket = record { count = 0; window_end = 0 }

-- The window that holds at `now`.
abbrev pub renewed : ℕ → ℕ → ℕ → ℕ → Bucket → Bucket
renewed window jitter draw now b =
    if ltb b.window_end now
    then record {
      count = 0;
      window_end = if ltb 0 jitter then now + window + draw else now + window;
    }
    else b

-- `b.count >= limit`.
abbrev pub reached : ℤ → ℕ → Bool
reached (pos limit) count = leb limit count
reached (negsuc n) count = true

-- The answer, and how long to wait if it is no. `windowEnd.Sub(now)` is never negative there.
abbrev pub admit : ℤ → ℕ → Bucket → Bucket × Bool × ℕ
admit limit now b =
    if reached limit b.count
    then (b, false, b.window_end - now)
    else (record b { count = b.count + 1 }, true, 0)

unfoldable pub allow : ℤ → ℕ → ℕ → ℕ → ℕ → Bucket → Bucket × Bool × ℕ
allow limit window jitter draw now b = admit limit now (renewed window jitter draw now b)

pub record RateLimiter : Type 0 where
  pub per_ip : ℤ
  pub per_token : ℤ
  pub window : ℕ
  pub jitter : ℕ
  pub ip_buckets : Dict Bucket
  pub tok_buckets : Dict Bucket

unfoldable pub new_with_jitter : ℤ → ℤ → ℕ → ℕ → RateLimiter
new_with_jitter per_ip per_token window max_jitter = record {
  per_ip = per_ip;
  per_token = per_token;
  window = window;
  jitter = if ltb (window / 2) max_jitter then window / 2 else max_jitter;
  ip_buckets = [];
  tok_buckets = [];
}

unfoldable pub new : ℤ → ℤ → ℕ → RateLimiter
new per_ip per_token window = new_with_jitter per_ip per_token window 0

abbrev pub or_empty : Option Bucket → Bucket
or_empty none = empty_bucket
or_empty (some b) = b

-- `getBucket` and the call on what it returns, which writes the map's entry.
unfoldable pub allow_key : ℤ → ℕ → ℕ → ℕ → ℕ → Text → Dict Bucket → Dict Bucket × Bool × ℕ
allow_key limit window jitter draw now key m =
    let (b, ok, retry) = allow limit window jitter draw now (or_empty (lookup key m)) in
    (insert key b m, ok, retry)

abbrev pub host_or_all : Option Text → Text → Text
host_or_all none addr = addr
host_or_all (some host) addr = host

-- `split_host_port` is `net.SplitHostPort`, with `none` for its error.
unfoldable pub allow_ip : (Text → Option Text) → ℕ → ℕ → Text → RateLimiter → RateLimiter × Bool × ℕ
allow_ip split_host_port draw now addr r =
    let ip = host_or_all (split_host_port addr) addr in
    let (m, ok, retry) = allow_key r.per_ip r.window r.jitter draw now ip r.ip_buckets in
    (record r { ip_buckets = m }, ok, retry)

unfoldable pub allow_token : ℕ → ℕ → Text → RateLimiter → RateLimiter × Bool × ℕ
allow_token draw now token r =
    if str_eq token []
    then (r, true, 0)
    else (let (m, ok, retry) =
          allow_key r.per_token r.window r.jitter draw now token r.tok_buckets in
        (record r { tok_buckets = m }, ok, retry))
