-- ===== src/Overrides.antt =====
-- src/overrides.ts: kinds of override, the `--until` argument, and the keys of the strategies'
-- state. `Date.parse` is `date_parse`: the formats that it takes are the engine's.
use qlb.Base.{
  ℕ, ◌+◌, ◌*◌, Bool, Option, none, some, [], ◌∷◌, ◌++◌, Text, codes, text_eq, to_lower_case,
  if◌then◌else◌, leb, ◌==◌, ◌&&◌, ◌||◌,
}
use qlb.Base.Decimal.{parse_nat}

pub data OverrideKind : Type 0 where
  pin reserve drain_first : OverrideKind

abbrev pub default_override_ttl_ms : ℕ
default_override_ttl_ms = 24 * 60 * 60 * 1000

unfoldable pub kind_text : OverrideKind → Text
kind_text pin = codes "pin"
kind_text reserve = codes "reserve"
kind_text drain_first = codes "drain-first"

-- `isOverrideKind(value)`, with the kind that it narrows to.
unfoldable pub override_kind : Text → Option OverrideKind
override_kind v =
    if text_eq v (codes "pin")
    then some pin
    else if text_eq v (codes "reserve")
    then some reserve
    else if text_eq v (codes "drain-first")
    then some drain_first
    else none

is_space : ℕ → Bool
is_space c =
    (leb 9 c && leb c 13)
    || c == 32
    || c == 0xa0
    || c == 0x1680
    || (leb 0x2000 c && leb c 0x200a)
    || c == 0x2028
    || c == 0x2029
    || c == 0x202f
    || c == 0x205f
    || c == 0x3000
    || c == 0xfeff

trim_start : Text → Text
unfolding is_space
trim_start [] = []
trim_start (c ∷ s) = if is_space c then trim_start s else c ∷ s

keep_unless_blank : ℕ → Text → Text
unfolding is_space
keep_unless_blank c [] = if is_space c then [] else c ∷ []
keep_unless_blank c (d ∷ s) = c ∷ d ∷ s

trim_end : Text → Text
unfolding keep_unless_blank
trim_end [] = []
trim_end (c ∷ s) = keep_unless_blank c (trim_end s)

-- The longest run of digits at the front, and the rest.
unfoldable pub span_digits : Text → Text × Text
span_digits [] = ([], [])
span_digits (c ∷ s) =
    let (ds, rest) = span_digits s in if leb 48 c && leb c 57 then (c ∷ ds, rest) else ([], c ∷ s)

-- The milliseconds of a unit, in any case.
unfoldable pub unit_ms : Text → Option ℕ
unfolding to_lower_case
unit_ms u =
    let l = to_lower_case u in
    if text_eq l (codes "ms")
    then some 1
    else if text_eq l (codes "s")
    then some 1000
    else if text_eq l (codes "m")
    then some 60000
    else if text_eq l (codes "h")
    then some 3600000
    else if text_eq l (codes "d")
    then some 86400000
    else none

times_unit : Option ℕ → Option ℕ → Option ℕ
times_unit (some n) (some ms) = some (n * ms)
times_unit _ _ = none

-- `s.trim()`.
unfoldable pub trim : Text → Text
unfolding trim_start trim_end
trim s = trim_end (trim_start s)

-- `/^(\d+)(ms|s|m|h|d)$/i` on a trimmed text, in milliseconds.
unfoldable pub duration_ms : Text → Option ℕ
unfolding span_digits unit_ms times_unit
duration_ms s = let (ds, rest) = span_digits s in times_unit (parse_nat ds) (unit_ms rest)

until_of : Option ℕ → Option ℕ → ℕ → Option ℕ
until_of (some ms) parsed now = some (now + ms)
until_of none parsed now = parsed

-- `parseUntil`: epoch milliseconds; `none` is the exception for a text that is neither a duration
-- nor a date.
unfoldable pub parse_until : (Text → Option ℕ) → Option Text → ℕ → Option ℕ
unfolding until_of duration_ms trim_start trim_end
parse_until date_parse none now = some (now + default_override_ttl_ms)
parse_until date_parse (some []) now = some (now + default_override_ttl_ms)
parse_until date_parse (some (c ∷ s)) now =
    until_of (duration_ms (trim_end (trim_start (c ∷ s)))) (date_parse (c ∷ s)) now

unfoldable pub round_robin_config_key : Text → Text
round_robin_config_key provider = codes "round-robin:" ++ provider

unfoldable pub failover_config_key : Text → Text
failover_config_key provider = codes "failover:" ++ provider
