-- ===== src/Go/Text.antt =====
-- What the program uses of Go's package strings, and text as a list of characters.
use deploy_os.Base.{
  ◌==◌, ℕ, Char, code, String, ◌≡◌, refl, Bool, ◌&&◌, ◌||◌, Option, none, some, List, [], ◌∷◌, leb,
  nat_eq, if◌then◌else◌,
}
use Prim.Native.String

-- The code points of a text.
abbrev pub codes : String → List ℕ
codes (String.◌∷◌ first rest) = code first ∷ codes rest
codes String.[] = []

-- unicode.IsSpace, the characters with the property White_Space.
abbrev pub is_space : Char → Bool
is_space c = space_code (code c)
  where
    space_code : ℕ → Bool
    space_code n =
        (leb 9 n && leb n 13)
        || nat_eq n 32
        || nat_eq n 0x85
        || nat_eq n 0xa0
        || nat_eq n 0x1680
        || (leb 0x2000 n && leb n 0x200a)
        || nat_eq n 0x2028
        || nat_eq n 0x2029
        || nat_eq n 0x202f
        || nat_eq n 0x205f
        || nat_eq n 0x3000

-- strings.TrimLeftFunc(s, unicode.IsSpace)
pub trim_left : String → String
trim_left String.[] = String.[]
trim_left (String.◌∷◌ c s) = let rest = trim_left s in if is_space c then rest else String.◌∷◌ c s

-- `c` in front of `s`, unless that leaves only white space.
abbrev cons_trimmed : Char → String → String
cons_trimmed c String.[] = if is_space c then String.[] else String.◌∷◌ c String.[]
cons_trimmed c (String.◌∷◌ d s) = String.◌∷◌ c (String.◌∷◌ d s)

-- strings.TrimRightFunc(s, unicode.IsSpace)
pub trim_right : String → String
trim_right String.[] = String.[]
trim_right (String.◌∷◌ c s) = cons_trimmed c (trim_right s)

-- strings.TrimSpace
unfoldable pub trim_space : String → String
unfolding trim_left trim_right
trim_space s = trim_right (trim_left s)

-- `some rest` when `s` is `prefix` followed by `rest`: strings.HasPrefix with strings.TrimPrefix.
unfoldable pub after_prefix : String → String → Option String
after_prefix s String.[] = some s
after_prefix String.[] (String.◌∷◌ p prefix) = none
after_prefix (String.◌∷◌ c s) (String.◌∷◌ p prefix) =
    let rest = after_prefix s prefix in if nat_eq (code c) (code p) then rest else none

-- The two characters of a text that strconv.Quote sets for one, or the character.
quote_char : Char → String → String
quote_char c rest =
    if nat_eq (code c) b'"'
    then String.◌++◌ "\\\"" rest
    else if nat_eq (code c) b'\\'
    then String.◌++◌ "\\\\" rest
    else if nat_eq (code c) 10
    then String.◌++◌ "\\n" rest
    else if nat_eq (code c) 9
    then String.◌++◌ "\\t" rest
    else if nat_eq (code c) 13
    then String.◌++◌ "\\r" rest
    else String.◌∷◌ c rest

quote_rest : String → String
unfolding quote_char
quote_rest String.[] = "\""
quote_rest (String.◌∷◌ c s) = quote_char c (quote_rest s)

-- The verb %q. Characters that Go does not print, other than a tab and the line ends, are left as they are.
unfoldable pub quote : String → String
unfolding quote_rest
quote s = String.◌∷◌ "\"" (quote_rest s)

quoted : quote "a \"b\" \\" ≡ "\"a \\\"b\\\" \\\\\""
unfolding quote
quoted = refl

-- strings.TrimSuffix(s, "/")
unfoldable pub trim_suffix_slash : String → String
trim_suffix_slash String.[] = String.[]
trim_suffix_slash (String.◌∷◌ c s) =
    let rest = trim_suffix_slash s in
    if s == "" && nat_eq (code c) b'/' then "" else String.◌∷◌ c rest
