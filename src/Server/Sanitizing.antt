-- ===== src/Server/Sanitizing.antt =====
-- What values of headers may leave the gateway of core/infrastructure/gateway/server.go.
use vyx.Base.{
  ℕ, ◌≤◌, ◌≡◌, ◌⊎◌, refl, subst, ltb→lt, Bool-cases, inl, inr, arith, false, [], ◌∷◌, ltb, Text,
  lit, Dict, insert, take, length, take_exact, All,
}
use vyx.Dispatcher.{GatewayResponse, correlation}
use vyx.Server.{max_header_value_len, keep_bytes, sanitize_header_value, Env, json_type}
use vyx.Server.Replies.{security_headers, set_all, set_if_given, write_response}

abbrev pub IsKept : ℕ → Type 0
IsKept b = (b ≡ 9) ⊎ (32 ≤ b)

-- No byte below 32 but the tab, and at most 4096 bytes.
pub record Clean (s : Text) : Type 0 where
  pub kept : All IsKept s
  pub short : length s ≤ 4096

keep_bytes-IsKept : (s : Text) → All IsKept (keep_bytes s)
unfolding keep_bytes
keep_bytes-IsKept [] = tt
keep_bytes-IsKept (b ∷ s) = ground (arith, keep_bytes-IsKept s)

length-keep_bytes : (s : Text) → length (keep_bytes s) ≤ length s
unfolding keep_bytes
length-keep_bytes [] = omega arith
length-keep_bytes (b ∷ s) = ground (arith, length-keep_bytes s)

keep_bytes_only_kept : (s : Text) → All IsKept s → keep_bytes s ≡ s
unfolding keep_bytes
keep_bytes_only_kept [] h = refl
keep_bytes_only_kept (b ∷ s) h = ground (arith, keep_bytes_only_kept s h.1)

short_enough :
    (v : Text)
    → ltb max_header_value_len (length v) ≡ false
    → length (keep_bytes v) ≤ max_header_value_len
short_enough v e =
    let h : length v ≤ max_header_value_len = ground arith in omega (arith, length-keep_bytes v)

pub sanitize_header_value-Clean : (v : Text) → Clean (sanitize_header_value v)
unfolding sanitize_header_value
sanitize_header_value-Clean v = record {
  kept = keep_bytes-IsKept _;
  short = elim (Bool-cases (ltb max_header_value_len (length v))) [
    | inl e ↦
        let cut : length (take max_header_value_len v) ≡ max_header_value_len =
          take_exact max_header_value_len v (omega (arith, ltb→lt _ _ e)) in
        rw e (omega (arith, cut, length-keep_bytes (take max_header_value_len v)))
    | inr e ↦ rw e (short_enough v e)
  ];
}

not_long : (n : ℕ) → n ≤ max_header_value_len → ltb max_header_value_len n ≡ false
not_long n h = ground arith

-- A clean value is not changed.
pub sanitize_header_value_identity : (v : Text) → Clean v → sanitize_header_value v ≡ v
unfolding sanitize_header_value
sanitize_header_value_identity v c =
    let e : ltb max_header_value_len (length v) ≡ false = not_long (length v) c.short in
    rw e (keep_bytes_only_kept v c.kept)

abbrev pub CleanEntry : Text × Text → Type 0
CleanEntry e = Clean e.1

insert-Clean :
    (k v : Text) (m : Dict Text) → Clean v → All CleanEntry m → All CleanEntry (insert k v m)
unfolding insert
insert-Clean k v [] c h = (c, tt)
insert-Clean k v ((j, w) ∷ m) c h = ground (arith, insert-Clean k v m c h.1)

set_all-Clean :
    (canonical f : Text → Text) (hs m : Dict Text)
    → ((v : Text) → Clean (f v))
    → All CleanEntry m
    → All CleanEntry (set_all canonical f hs m)
unfolding set_all
set_all-Clean canonical f [] m h c = c
set_all-Clean canonical f ((k, v) ∷ hs) m h c =
    set_all-Clean canonical f hs (insert (canonical k) (f v) m) h
      (insert-Clean (canonical k) (f v) m (h v) c)

set_all_kept :
    (canonical : Text → Text) (hs m : Dict Text)
    → All CleanEntry hs
    → All CleanEntry m
    → All CleanEntry (set_all canonical (λ v. v) hs m)
unfolding set_all
set_all_kept canonical [] m h c = c
set_all_kept canonical ((k, v) ∷ hs) m h c =
    set_all_kept canonical hs (insert (canonical k) v m) h.1 (insert-Clean (canonical k) v m h.0 c)

-- A value that the function leaves as it is is clean.
fixed-Clean : (v : Text) → sanitize_header_value v ≡ v → Clean v
fixed-Clean v e = subst Clean e (sanitize_header_value-Clean v)

security_headers-Clean : All CleanEntry security_headers
unfolding security_headers sanitize_header_value keep_bytes
security_headers-Clean = (
  fixed-Clean _ refl,
  (
    fixed-Clean _ refl,
    (
      fixed-Clean _ refl,
      (fixed-Clean _ refl, (fixed-Clean _ refl, (fixed-Clean _ refl, (fixed-Clean _ refl, tt)))),
    ),
  ),
)

set_if_given-Clean :
    (c : Text) (m : Dict Text) → Clean c → All CleanEntry m → All CleanEntry (set_if_given c m)
set_if_given-Clean [] m c h = h
set_if_given-Clean (b ∷ s) m c h = insert-Clean correlation (b ∷ s) m c h

-- Whatever headers a worker gives, every value in the header of a response has no byte below 32 but
-- the tab, so no line break, and at most 4096 bytes, where the correlation ID, which is not sanitised, is so.
pub write_response-Clean :
    (env : Env) (resp : GatewayResponse)
    → Clean resp.correlation_id
    → All CleanEntry (write_response env resp).headers
unfolding write_response sanitize_header_value keep_bytes
write_response-Clean env resp c = set_if_given-Clean resp.correlation_id _ c (
    insert-Clean (lit "Content-Type") json_type _ (fixed-Clean _ refl) (
      set_all-Clean env.canonical sanitize_header_value resp.headers _ sanitize_header_value-Clean
        (set_all_kept env.canonical security_headers [] security_headers-Clean tt)))
