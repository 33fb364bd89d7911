-- ===== src/Program/Lines.antt =====
-- The functions of Rust's standard library on text that the prompt of src/main.rs uses: `trim`,
-- `split_whitespace` and `eq_ignore_ascii_case`.
use Prim.Native.Char.{code}
use rusty_bundle.Prelude.{
  ℕ, ◌+◌, String, List, [], ◌∷◌, Bool, true, false, ◌&&◌, ◌||◌, leb, ◌==◌, if◌then◌else◌,
}

-- `char::is_whitespace`: the code points of White_Space.
unfoldable pub is_whitespace : ℕ → Bool
is_whitespace c =
    (leb 9 c && leb c 13)
    || c == 32
    || c == 0x85
    || c == 0xa0
    || c == 0x1680
    || (leb 0x2000 c && leb c 0x200a)
    || c == 0x2028
    || c == 0x2029
    || c == 0x202f
    || c == 0x205f
    || c == 0x3000

abbrev pub is_empty : String → Bool
is_empty String.[] = true
is_empty (String.◌∷◌ c s) = false

unfoldable pub trim_start : String → String
unfolding is_whitespace
trim_start String.[] = String.[]
trim_start (String.◌∷◌ c s) =
    let rest = trim_start s in if is_whitespace (code c) then rest else String.◌∷◌ c s

unfoldable pub trim_end : String → String
unfolding is_whitespace
trim_end String.[] = String.[]
trim_end (String.◌∷◌ c s) =
    let rest = trim_end s in
    if is_empty rest && is_whitespace (code c) then String.[] else String.◌∷◌ c rest

unfoldable pub trim : String → String
unfolding trim_start trim_end
trim s = trim_end (trim_start s)

-- A word, unless it is empty, before others.
abbrev pub push_word : String → List String → List String
push_word w ws = if is_empty w then ws else w ∷ ws

-- The first word of the text, which may be empty, and the words after it.
unfoldable pub first_word : String → String × List String
unfolding is_whitespace
first_word String.[] = (String.[], [])
first_word (String.◌∷◌ c s) =
    let (w, ws) = first_word s in
    if is_whitespace (code c) then (String.[], push_word w ws) else (String.◌∷◌ c w, ws)

unfoldable pub split_whitespace : String → List String
unfolding first_word
split_whitespace s = let (w, ws) = first_word s in push_word w ws

-- `char::to_ascii_lowercase`
abbrev pub to_ascii_lowercase : ℕ → ℕ
to_ascii_lowercase c = if leb b'A' c && leb c b'Z' then c + 32 else c

unfoldable pub eq_ignore_ascii_case : String → String → Bool
eq_ignore_ascii_case String.[] String.[] = true
eq_ignore_ascii_case String.[] (String.◌∷◌ d t) = false
eq_ignore_ascii_case (String.◌∷◌ c s) String.[] = false
eq_ignore_ascii_case (String.◌∷◌ c s) (String.◌∷◌ d t) =
    to_ascii_lowercase (code c) == to_ascii_lowercase (code d) && eq_ignore_ascii_case s t
