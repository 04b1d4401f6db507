-- ===== src/Base/Texts.antt =====
-- Python's `str` methods on ASCII texts, over the native strings.
use Prim.Native.Char.{Char, code}
use Prim.Native.String.{String, char_at, ◌++◌ as ◌<>◌}
use Prim.Native.Nat.{ℕ, zero, suc, ◌-◌, ◌+◌, ◌≤◌}
use Prim.Native.String.append
use mathlib.Core.Path.{◌≡◌, ap}
use native.Mathlib.Omega.{arith}
use text.Mathlib.Text
use mathlib.Core.Bool.{Bool, true, false, ◌&&◌, ◌||◌}
use mathlib.Core.Option.{Option, none, some}
use verification_engine.Base.Equality.{if◌then◌else◌, leb, nat_eq, option_eq, string_eq, ◌==◌}

abbrev is_empty : String → Bool
is_empty String.[] = true
is_empty (String.◌∷◌ c s) = false

-- `bool(s)`
abbrev pub truthy : String → Bool
truthy String.[] = false
truthy (String.◌∷◌ c s) = true

upper_char : Char → Char
upper_char c =
    if leb b'a' (code c) && leb (code c) b'z'
    then char_at "ABCDEFGHIJKLMNOPQRSTUVWXYZ" (code c - b'a')
    else c

-- `s.upper()`
unfoldable pub upper : String → String
unfolding upper_char
upper String.[] = String.[]
upper (String.◌∷◌ c s) = String.◌∷◌ (upper_char c) (upper s)

-- the ASCII characters that `str.strip` drops
is_space : Char → Bool
is_space c = leb 9 (code c) && leb (code c) 13 || leb 28 (code c) && leb (code c) 32

strip_left : String → String
strip_left String.[] = String.[]
strip_left (String.◌∷◌ c s) = let rest = strip_left s in if is_space c then rest else String.◌∷◌ c s

strip_right : String → String
strip_right String.[] = String.[]
strip_right (String.◌∷◌ c s) =
    let rest = strip_right s in if is_space c && is_empty rest then String.[] else String.◌∷◌ c rest

-- `s.strip()`
unfoldable pub strip : String → String
unfolding strip_left strip_right is_space
strip s = strip_right (strip_left s)

-- `x or ""`
abbrev pub or_empty : Option String → String
or_empty none = ""
or_empty (some s) = s

-- `bool(x)` for a text that may be missing
abbrev pub present : Option String → Bool
present none = false
present (some s) = truthy s

-- `x or y`
abbrev pub or_else : Option String → Option String → Option String
or_else none y = y
or_else (some s) y = if truthy s then some s else y

lower_char : Char → Char
lower_char c =
    if leb b'A' (code c) && leb (code c) b'Z'
    then char_at "abcdefghijklmnopqrstuvwxyz" (code c - b'A')
    else c

-- `s.lower()`
unfoldable pub lower : String → String
unfolding lower_char
lower String.[] = String.[]
lower (String.◌∷◌ c s) = String.◌∷◌ (lower_char c) (lower s)

unfoldable pub is_letter : Char → Bool
is_letter c = leb b'a' (code c) && leb (code c) b'z' || leb b'A' (code c) && leb (code c) b'Z'

unfoldable pub is_digit : Char → Bool
is_digit c = leb b'0' (code c) && leb (code c) b'9'

title_from : Bool → String → String
title_from inside String.[] = String.[]
title_from inside (String.◌∷◌ c s) =
    String.◌∷◌ (if inside then lower_char c else upper_char c) (title_from (is_letter c) s)

-- `s.title()`
unfoldable pub title : String → String
unfolding title_from is_letter upper_char lower_char
title s = title_from false s

drop_left : (Char → Bool) → String → String
drop_left p String.[] = String.[]
drop_left p (String.◌∷◌ c s) = let rest = drop_left p s in if p c then rest else String.◌∷◌ c s

drop_right : (Char → Bool) → String → String
drop_right p String.[] = String.[]
drop_right p (String.◌∷◌ c s) =
    let rest = drop_right p s in if p c && is_empty rest then String.[] else String.◌∷◌ c rest

-- `s.strip(chars)`, for the characters of code `k`
unfoldable pub strip_of : ℕ → String → String
unfolding drop_left drop_right
strip_of k s = drop_right (λ c. code c == k) (drop_left (λ c. code c == k) s)

-- `re.sub("[^…]+", by, s)`: each run of characters outside the class becomes one text.
unfoldable pub replace_runs : (Char → Bool) → String → Bool → String → String
replace_runs keep by run String.[] = String.[]
replace_runs keep by run (String.◌∷◌ c s) =
    let kept = replace_runs keep by false s in
    let dropped = replace_runs keep by true s in
    if keep c then String.◌∷◌ c kept else if run then dropped else by <> dropped

-- `s.replace(a, b)` for two characters
unfoldable pub replace_char : ℕ → String → String → String
replace_char k by String.[] = String.[]
replace_char k by (String.◌∷◌ c s) =
    (if code c == k then by else String.◌∷◌ c String.[]) <> replace_char k by s

-- `needle in s`
unfoldable pub occurs_in : String → String → Bool
occurs_in needle s = elim (Text.find? s needle) [ none ↦ false | some _ ↦ true ]

-- `len(s)` and `s[:n]`
unfoldable pub text_length : String → ℕ
text_length String.[] = 0
text_length (String.◌∷◌ c s) = suc (text_length s)

unfoldable pub text_take : ℕ → String → String
text_take zero s = String.[]
text_take (suc n) String.[] = String.[]
text_take (suc n) (String.◌∷◌ c s) = String.◌∷◌ c (text_take n s)

pub text_length-take : (n : ℕ) (s : String) → text_length (text_take n s) ≤ n
unfolding text_length text_take
text_length-take zero s = omega arith
text_length-take (suc n) String.[] = omega arith
text_length-take (suc n) (String.◌∷◌ c s) = ground (arith, text_length-take n s)

pub text_length-append : (s t : String) → text_length (s <> t) ≡ text_length s + text_length t
unfolding text_length
text_length-append String.[] t = omega (arith, ap text_length (λ i. append.nil t i))
text_length-append (String.◌∷◌ c s) t =
    omega (arith, ap text_length (λ i. append.cons c s t i), text_length-append s t)
