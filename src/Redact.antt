-- ===== src/Redact.antt =====
-- The masking of log lines of core/infrastructure/log/redact.go. `strings.ToLower` is modelled on
-- ASCII; other bytes stay. The loop for a field runs on fuel.
pub mod Masks
pub mod Masking
use vyx.Base.{
  ℕ, zero, suc, ◌+◌, ◌-◌, Bool, true, false, ◌&&◌, ◌||◌, List, [], ◌∷◌, ◌++◌, map, Option, none,
  some, if◌then◌else◌, leb, ltb, ◌==◌, Text, lit, str_eq, length, take, drop, replicate, get_elem?,
}

unfoldable pub default_sensitive_fields : List Text
default_sensitive_fields =
    lit "password"
    ∷ lit "passwd"
    ∷ lit "secret"
    ∷ lit "token"
    ∷ lit "api_key"
    ∷ lit "apikey"
    ∷ lit "access_token"
    ∷ lit "refresh_token"
    ∷ lit "credit_card"
    ∷ lit "cc_number"
    ∷ lit "card_number"
    ∷ lit "ssn"
    ∷ lit "cpf"
    ∷ lit "authorization"
    ∷ lit "jwt"
    ∷ lit "private_key"
    ∷ []

abbrev pub lower_byte : ℕ → ℕ
lower_byte c = if leb b'A' c && leb c b'Z' then c + 32 else c

unfoldable pub to_lower : Text → Text
to_lower s = map lower_byte s

unfoldable pub is_prefix : Text → Text → Bool
is_prefix [] s = true
is_prefix (a ∷ p) [] = false
is_prefix (a ∷ p) (b ∷ s) = a == b && is_prefix p s

abbrev pub one_more : Option ℕ → Option ℕ
one_more none = none
one_more (some n) = some (suc n)

-- `strings.Index` of a word that is not empty.
unfoldable pub index : Text → Text → Option ℕ
index p [] = none
index p (c ∷ s) = let rest = index p s in if is_prefix p (c ∷ s) then some 0 else one_more rest

-- `strings.IndexByte`, and `strings.IndexAny` for the bytes that pass a test.
unfoldable pub index_where : (ℕ → Bool) → Text → Option ℕ
index_where p [] = none
index_where p (c ∷ s) = let rest = index_where p s in if p c then some 0 else one_more rest

-- One of " ,}\n\t&".
abbrev pub is_stop : ℕ → Bool
is_stop c = c == 32 || c == 44 || c == 125 || c == 10 || c == 9 || c == 38

abbrev pub is_quote : ℕ → Bool
is_quote c = c == 34

-- The bytes from `at` on, as many as `n`, become asterisks.
unfoldable pub mask : ℕ → ℕ → Text → Text
mask at n s = take at s ++ replicate n 42 ++ drop (at + n) s

-- What a turn of the loop does: it ends the loop, or goes on with this text from this index.
pub data Turn : Type 0 where
  breaks : Turn
  continues : Text → ℕ → Turn

abbrev pub or_end : Option ℕ → Text → ℕ
or_end none s = length s
or_end (some n) s = n

-- A value without quotes, up to its end in `rest`, which starts behind the separator or, where a
-- quote is never closed, behind that quote.
abbrev pub mask_plain : Text → ℕ → ℕ → Text → Turn
mask_plain result at next rest =
    continues (mask at (or_end (index_where is_stop rest) rest) result) next

abbrev pub mask_quoted : Text → ℕ → ℕ → Text → Option ℕ → Turn
mask_quoted result at next rest none = mask_plain result at next rest
mask_quoted result at next rest (some n) = continues (mask (at + 1) n result) (at + 1 + n)

-- The value at `at`, behind the separator.
abbrev pub mask_value : Text → ℕ → ℕ → Text → Turn
mask_value result at next [] = mask_plain result at next []
mask_value result at next (c ∷ rest) =
    if is_quote c
    then mask_quoted result at next rest (index_where is_quote rest)
    else mask_plain result at next (c ∷ rest)

abbrev pub at_separator : Text → ℕ → ℕ → Option ℕ → Turn
at_separator result at next none = breaks
at_separator result at next (some sep) =
    if sep == 61 || sep == 58
    then mask_value result (at + 1) next (drop (at + 1) result)
    else continues result next

-- Behind the name of the field, where a quote is skipped.
abbrev pub behind_field : Text → ℕ → Option ℕ → Turn
behind_field result next none = breaks
behind_field result next (some c) =
    if is_quote c
    then at_separator result (next + 1) next (get_elem? result (next + 1))
    else at_separator result next next (some c)

abbrev pub turn_at : Text → Text → ℕ → Option ℕ → Turn
turn_at field result i none = breaks
turn_at field result i (some pos) =
    behind_field result (pos + i + length field) (get_elem? result (pos + i + length field))

unfoldable pub turn : Text → Text → ℕ → Turn
turn field result i = turn_at field result i (index field (to_lower (drop i result)))

abbrev pub after_turn : Turn → Text → (Text → ℕ → Option Text) → Option Text
after_turn breaks result next = some result
after_turn (continues r i) result next = next r i

-- `none` where the fuel is out.
unfoldable pub redact_field : ℕ → Text → Text → ℕ → Option Text
redact_field zero field result i = none
redact_field (suc fuel) field result i =
    after_turn (turn field result i) result (redact_field fuel field)

abbrev pub then_fields : Option Text → (Text → Option Text) → Option Text
then_fields none next = none
then_fields (some r) next = next r

unfoldable pub redact_fields : List Text → Text → Option Text
redact_fields [] result = some result
redact_fields (f ∷ fs) result =
    then_fields (redact_field (suc (length result)) f result 0) (redact_fields fs)

unfoldable pub redact : Text → Option Text
redact input = redact_fields default_sensitive_fields input

-- `IsSensitiveField`.
abbrev pub found : Option ℕ → Bool
found none = false
found (some n) = true

unfoldable pub any_in : Text → List Text → Bool
any_in lower [] = false
any_in lower (f ∷ fs) =
    let rest = any_in lower fs in if str_eq lower f || found (index f lower) then true else rest

unfoldable pub is_sensitive_field : Text → Bool
is_sensitive_field name = any_in (to_lower name) default_sensitive_fields
