-- ===== src/Broker/OffsetManager/Text.antt =====
-- broker/src/offset_manager.rs: the text of a line in a group's file, and the reading of it.
pub mod Numbers
pub mod RoundTrip
use Prim.Native.Char.{Char, char, code}
use gaffa.Prelude.{
  ℕ, ◌+◌, ◌-◌, ◌*◌, ◌^◌, ◌<>◌, String, Bool, false, ◌&&◌, Option, none, some, List, [], ◌∷◌, ltb,
  leb, ◌==◌, if◌then◌else◌,
}
use gaffa.Prelude.Decimal.{show}

abbrev pub colon : Char
colon = char 58 tt

abbrev pub equals : Char
equals = char 61 tt

abbrev pub newline : Char
newline = char 10 tt

-- `split_once`: what stands before the first such character and what stands behind it.
unfoldable pub split_once : Char → String → Option (String × String)
split_once c String.[] = none
split_once c (String.◌∷◌ x s) = elim (split_once c s) [
  | none ↦ if code x == code c then some ("", s) else none
  | some (before, after) ↦
      if code x == code c then some ("", s) else some (String.◌∷◌ x before, after)
]

-- `parse::<u32>` and `parse::<u64>` for the number of values: decimal digits, behind a '+' or not.
unfoldable pub parse_digits : ℕ → ℕ → String → Option ℕ
parse_digits bound n String.[] = some n
parse_digits bound n (String.◌∷◌ x s) =
    let next = n * 10 + (code x - 48) in
    let rest = parse_digits bound next s in
    if leb 48 (code x) && (leb (code x) 57 && ltb next bound) then rest else none

unfoldable pub parse : ℕ → String → Option ℕ
unfolding parse_digits
parse bound String.[] = none
parse bound (String.◌∷◌ x String.[]) = parse_digits bound 0 (String.◌∷◌ x String.[])
parse bound (String.◌∷◌ x (String.◌∷◌ y s)) =
    if code x == 43
    then parse_digits bound 0 (String.◌∷◌ y s)
    else parse_digits bound 0 (String.◌∷◌ x (String.◌∷◌ y s))

-- Whether a text begins with the end of a line.
abbrev pub at_newline : String → Bool
at_newline String.[] = false
at_newline (String.◌∷◌ x s) = code x == 10

abbrev pub push_front : Char → List String → List String
push_front c [] = String.◌∷◌ c "" ∷ []
push_front c (l ∷ ls) = String.◌∷◌ c l ∷ ls

-- `lines()`: a line ends with "\n" or "\r\n", the last one perhaps with the text.
unfoldable pub lines : String → List String
lines String.[] = []
lines (String.◌∷◌ c s) =
    let rest = lines s in
    if code c == 10
    then "" ∷ rest
    else (if code c == 13 && at_newline s then rest else push_front c rest)

-- What a line of a group's file says: topic, partition and offset.
unfoldable pub parse_line : String → Option (String × ℕ × ℕ)
unfolding split_once parse
parse_line line = elim (split_once equals line) [
  | none ↦ none
  | some (key, value) ↦ elim (split_once colon key) [
    | none ↦ none
    | some (topic, partition_str) ↦ elim (parse (2 ^ 32) partition_str) [
      | none ↦ none
      | some partition ↦ elim (parse (2 ^ 64) value) [
        | none ↦ none
        | some offset ↦ some (topic, partition, offset)
      ]
    ]
  ]
]

-- `format!("{}:{}={}\n", topic, partition, offset)`
unfoldable pub line_of : String → ℕ → ℕ → String
line_of topic partition offset =
    topic <> (":" <> (show partition <> ("=" <> (show offset <> "\n"))))
