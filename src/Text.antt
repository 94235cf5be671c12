-- ===== src/Text.antt =====
-- `str.strip` and `str.lower`, on the code points of a text. `lower` is that of ASCII: the source
-- compares its result with ASCII words only; the one other letter that lowers to a letter of these is
-- the Kelvin sign.
pub mod Split
use Prim.Native.Char.{Char, code}
use Prim.Native.String.{len, slice, ◌++◌ as join}
use mathlib.Core.List.{reverse}
use hermes_managed_network.Prelude.{
  ℕ, zero, suc, ◌+◌, ◌-◌, not, ◌++◌, String, Bool, true, false, List, [], ◌∷◌, ◌&&◌, ◌||◌, map, leb,
  starts_with, if◌then◌else◌,
}

pub codes : String → List ℕ
codes String.[] = []
codes (String.◌∷◌ c s) = code c ∷ codes s

unfoldable pub between : ℕ → ℕ → ℕ → Bool
between lo hi c = leb lo c && leb c hi

-- str.isspace of one character
unfoldable pub is_space : ℕ → Bool
unfolding between
is_space c =
    between 9 13 c
    || between 28 32 c
    || between 133 133 c
    || between 160 160 c
    || between 5760 5760 c
    || between 8192 8202 c
    || between 8232 8233 c
    || between 8239 8239 c
    || between 8287 8287 c
    || between 12288 12288 c

drop_spaces : List ℕ → List ℕ
drop_spaces [] = []
drop_spaces (c ∷ cs) = if is_space c then drop_spaces cs else c ∷ cs

strip : List ℕ → List ℕ
strip cs = reverse (drop_spaces (reverse (drop_spaces cs)))

lower : List ℕ → List ℕ
lower = map (λ c. if between 65 90 c then c + 32 else if between 8490 8490 c then 107 else c)

same : List ℕ → List ℕ → Bool
same [] [] = true
same (c ∷ cs) (d ∷ ds) = leb c d && leb d c && same cs ds
same _ _ = false

-- s.strip().lower() == word
unfoldable pub normal_is : String → String → Bool
unfolding codes is_space drop_spaces strip lower same between
normal_is s word = same (lower (strip (codes s))) (codes word)

-- s.removeprefix(prefix)
unfoldable pub remove_prefix : String → String → String
remove_prefix s prefix = if starts_with s prefix then slice s (len prefix) (len s) else s

same_prefix : List ℕ → List ℕ → Bool
same_prefix [] cs = true
same_prefix (d ∷ ds) [] = false
same_prefix (d ∷ ds) (c ∷ cs) = leb c d && leb d c && same_prefix ds cs

within : List ℕ → List ℕ → Bool
within ds [] = same_prefix ds []
within ds (c ∷ cs) = same_prefix ds (c ∷ cs) || within ds cs

-- word in s.lower()
unfoldable pub has_word : String → String → Bool
unfolding codes lower between same_prefix within
has_word word s = within (codes word) (lower (codes s))

-- len(s)
unfoldable pub count_chars : String → ℕ
count_chars String.[] = 0
count_chars (String.◌∷◌ c s) = suc (count_chars s)

-- s[:n]
pub take_chars : ℕ → String → String
take_chars zero s = String.[]
take_chars (suc n) String.[] = String.[]
take_chars (suc n) (String.◌∷◌ c s) = String.◌∷◌ c (take_chars n s)

unfoldable pub lstrip_text : String → String
unfolding is_space between
lstrip_text String.[] = String.[]
lstrip_text (String.◌∷◌ c s) =
    let rest = lstrip_text s in if is_space (code c) then rest else String.◌∷◌ c s

unfoldable pub is_empty : String → Bool
is_empty String.[] = true
is_empty (String.◌∷◌ c s) = false

-- s.rstrip()
unfoldable pub rstrip_text : String → String
unfolding is_space between is_empty
rstrip_text String.[] = String.[]
rstrip_text (String.◌∷◌ c s) =
    let rest = rstrip_text s in
    if is_space (code c) && is_empty rest then String.[] else String.◌∷◌ c rest

-- s.strip()
unfoldable pub strip_text : String → String
unfolding lstrip_text
strip_text s = rstrip_text (lstrip_text s)

-- the character that a separator is
unfoldable pub is_char : String → Char → Bool
is_char String.[] c = false
is_char (String.◌∷◌ d s) c = leb (code c) (code d) && leb (code d) (code c)

unfoldable pub before_first : Char → List String → List String
before_first c [] = String.◌∷◌ c String.[] ∷ []
before_first c (p ∷ ps) = String.◌∷◌ c p ∷ ps

-- s.split(sep), for a separator of one character
unfoldable pub split : String → String → List String
unfolding is_char before_first
split sep String.[] = String.[] ∷ []
split sep (String.◌∷◌ c s) =
    let rest = split sep s in if is_char sep c then String.[] ∷ rest else before_first c rest

-- sep.join(parts)
unfoldable pub join_with : String → List String → String
join_with sep [] = ""
join_with sep (p ∷ []) = p
join_with sep (p ∷ q ∷ ps) = join p (join sep (join_with sep (q ∷ ps)))

-- str.upper of a character, as far as letters of ASCII come of it
upper_of : ℕ → List ℕ
unfolding between
upper_of c =
    if between 97 122 c
    then (c - 32) ∷ []
    else if between 305 305 c
    then 73 ∷ []
    else if between 383 383 c
    then 83 ∷ []
    else if between 223 223 c
    then 83 ∷ 83 ∷ []
    else if between 64261 64262 c
    then 83 ∷ 84 ∷ []
    else c ∷ []

upper : List ℕ → List ℕ
upper [] = []
upper (c ∷ cs) = upper_of c ++ upper cs

-- word in s.upper(), for a word of ASCII
unfoldable pub has_upper : String → String → Bool
unfolding codes upper upper_of between same_prefix within
has_upper word s = within (codes word) (upper (codes s))

starts_word : String → Bool
starts_word String.[] = false
starts_word (String.◌∷◌ c s) = not (is_space (code c))

-- s.split()
pub words : String → List String
unfolding is_space between starts_word before_first
words String.[] = []
words (String.◌∷◌ c s) =
    let rest = words s in
    if is_space (code c)
    then rest
    else if starts_word s
    then before_first c rest
    else String.◌∷◌ c String.[] ∷ rest
