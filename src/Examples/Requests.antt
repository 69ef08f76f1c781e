-- ===== src/Examples/Requests.antt =====
-- A rate limit, a manifest and a chain of proxies.
use Prim.Native.Nat.{min}
use vyx.Base.{
  ℕ, ◌+◌, ◌<◌, ◌≡◌, ◌↔◌, refl, arith, Bool, true, false, Option, none, some, List, [], ◌∷◌, Text,
  lit, str_eq, length, ◌==◌, pos, if◌then◌else◌,
}
use vyx.RateLimiter.{Bucket, allow}
use vyx.RateLimiter.Windows.{admitted, room, admitted_in_window, refused_then_admitted}
use vyx.Config.{Config, defaults, validate}
use vyx.Config.Validity.{IsValidConfig, validate_iff}
use vyx.ClientIp.{Request}

abbrev bucket : Bucket
bucket = record { count = 1; window_end = 100 }

abbrev burst : List (ℕ × ℕ)
burst = (50, 0) ∷ (60, 1) ∷ (70, 0) ∷ (100, 0) ∷ []

admitted_in_window_example :
    admitted (pos 3) 60 5 bucket burst ≡ min (length burst) (room (pos 3) 1)
admitted_in_window_example =
    admitted_in_window (pos 3) 60 5 bucket burst
      (omega arith, (omega arith, (omega arith, (omega arith, tt))))

refused : (allow (pos 1) 60 5 2 50 bucket).1 ≡ false
unfolding allow
refused = refl

expires : 50 + (allow (pos 1) 60 5 2 50 bucket).2 < 101
unfolding allow
expires = omega arith

refused_then_admitted_example :
    (allow (pos 1) 60 5 0 101 (allow (pos 1) 60 5 2 50 bucket).0).1 ≡ true
refused_then_admitted_example =
    refused_then_admitted 1 60 5 2 50 0 101 bucket (omega arith) refused expires

abbrev manifest : Config
manifest = record defaults { project = record { name = lit "shop"; version = lit "1" } }

validate_iff_example : (validate manifest ≡ []) ↔ IsValidConfig manifest
validate_iff_example = validate_iff manifest

abbrev request : Request
request = record {
  remote_addr = lit "10.0.0.1:99";
  forwarded_for = lit "evil, 7.7.7.7, 10.0.0.2";
  real_ip = [];
}

-- Stand-ins for the package `net`: a port is never split off, every text but one parses as its
-- length, and a network holds the addresses of one length.
abbrev no_port : Text → Option Text
no_port t = none

abbrev short_ip : Text → Option ℕ
short_ip t = if str_eq t (lit "evil") then none else some (length t)

abbrev same_length : ℕ → ℕ → Bool
same_length n m = n == m
