-- ===== src/Text.antt =====
-- Text as the bytes of its UTF-8 encoding, and the standard library's operations on `str` that the
-- program uses. A byte of a multi-byte character is at least 0x80, so it fails every ASCII test: a
-- filter, a search or a split by ASCII characters acts on the bytes as it does on the characters.
use Prim.Native.Char.{code}
pub mod Laws
pub mod Utf8
pub mod Number
use privacy_proxy.Base.{
  ℕ, zero, suc, ◌+◌, ◌-◌, String, Bool, true, false, ◌&&◌, ◌||◌, Option, none, some, List, [], ◌∷◌,
  ◌++◌, reverse, ltb, leb, ◌==◌, if◌then◌else◌, length, take, drop, ◌≡◌, refl,
}

abbrev pub Bytes : Type 0
Bytes = List ℕ

-- The bytes of a literal; every literal of the model is ASCII.
abbrev pub codes : String → Bytes
codes String.[] = []
codes (String.◌∷◌ c s) = code c ∷ codes s

unfoldable pub is_ascii_digit : ℕ → Bool
is_ascii_digit c = leb b'0' c && leb c b'9'

unfoldable pub is_ascii_uppercase : ℕ → Bool
is_ascii_uppercase c = leb b'A' c && leb c b'Z'

unfoldable pub is_ascii_lowercase : ℕ → Bool
is_ascii_lowercase c = leb b'a' c && leb c b'z'

unfoldable pub is_ascii_alphanumeric : ℕ → Bool
unfolding is_ascii_digit is_ascii_uppercase is_ascii_lowercase
is_ascii_alphanumeric c = is_ascii_digit c || is_ascii_uppercase c || is_ascii_lowercase c

-- Space, tab, line feed, form feed and carriage return.
unfoldable pub is_ascii_whitespace : ℕ → Bool
is_ascii_whitespace c = c == 32 || c == 9 || c == 10 || c == 12 || c == 13

unfoldable pub to_ascii_lowercase : ℕ → ℕ
unfolding is_ascii_uppercase
to_ascii_lowercase c = if is_ascii_uppercase c then c + 32 else c

unfoldable pub to_ascii_uppercase : ℕ → ℕ
unfolding is_ascii_lowercase
to_ascii_uppercase c = if is_ascii_lowercase c then c - 32 else c

unfoldable pub equal : Bytes → Bytes → Bool
equal [] [] = true
equal (x ∷ xs) (y ∷ ys) = x == y && equal xs ys
equal _ _ = false

unfoldable pub is_empty : Bytes → Bool
is_empty [] = true
is_empty (_ ∷ _) = false

-- `text.starts_with(prefix)`
unfoldable pub starts_with : Bytes → Bytes → Bool
starts_with text [] = true
starts_with [] (p ∷ ps) = false
starts_with (c ∷ cs) (p ∷ ps) = c == p && starts_with cs ps

unfoldable pub ends_with : Bytes → Bytes → Bool
unfolding starts_with
ends_with text suffix = starts_with (reverse text) (reverse suffix)

-- `text.contains(piece)`
unfoldable pub contains : Bytes → Bytes → Bool
unfolding starts_with
contains [] piece = starts_with [] piece
contains (c ∷ cs) piece = starts_with (c ∷ cs) piece || contains cs piece

-- `text.find(ch)`, for an ASCII character
unfoldable pub find : ℕ → Bytes → Option ℕ
find ch [] = none
find ch (c ∷ cs) =
    if c == ch then some 0 else elim (find ch cs) [ none ↦ none | some i ↦ some (suc i) ]

-- `text.split(ch)`: the first piece and the others
unfoldable pub split_first : ℕ → Bytes → Bytes × List Bytes
split_first ch [] = ([], [])
split_first ch (c ∷ cs) =
    let (piece, others) = split_first ch cs in
    if c == ch then ([], piece ∷ others) else (c ∷ piece, others)

unfoldable pub split : ℕ → Bytes → List Bytes
unfolding split_first
split ch text = let (piece, others) = split_first ch text in piece ∷ others

-- `&text[from..to]`
abbrev pub slice : Bytes → ℕ → ℕ → Bytes
slice text from to = take (to - from) (drop from text)

-- The characters with the Unicode property White_Space, by the length of their encoding.
abbrev white_one : ℕ → Bool
white_one a = (leb 9 a && leb a 13) || a == 32

abbrev white_two : ℕ → ℕ → Bool
white_two a b = a == 0xC2 && (b == 0x85 || b == 0xA0)

abbrev white_three : ℕ → ℕ → ℕ → Bool
white_three a b c =
    (a == 0xE1 && b == 0x9A && c == 0x80)
    || (a == 0xE2
        && b == 0x80
        && ((leb 0x80 c && leb c 0x8A) || c == 0xA8 || c == 0xA9 || c == 0xAF))
    || (a == 0xE2 && b == 0x81 && c == 0x9F)
    || (a == 0xE3 && b == 0x80 && c == 0x80)

-- The text behind a leading white space character. The flag says that the bytes are reversed.
leading_three : Bool → ℕ → ℕ → Bytes → Option Bytes
leading_three back a b [] = none
leading_three back a b (c ∷ cs) =
    if (if back then white_three c b a else white_three a b c) then some cs else none

leading_two : Bool → ℕ → Bytes → Option Bytes
unfolding leading_three
leading_two back a [] = none
leading_two back a (b ∷ cs) =
    if (if back then white_two b a else white_two a b) then some cs else leading_three back a b cs

pub leading_white : Bool → Bytes → Option Bytes
unfolding leading_two
leading_white back [] = none
leading_white back (a ∷ cs) = if white_one a then some cs else leading_two back a cs

-- At most one round for each byte.
skip_white : ℕ → Bool → Bytes → Bytes
skip_white zero back text = text
skip_white (suc fuel) back text = elim (leading_white back text) [
  | none ↦ text
  | some rest ↦ skip_white fuel back rest
]

unfoldable pub trim : Bytes → Bytes
unfolding leading_white skip_white
trim text =
    let front = skip_white (length text) false text in
    reverse (skip_white (length front) true (reverse front))

trim_runs : trim (codes " \t a b \r\n") ≡ codes "a b"
unfolding trim
trim_runs = refl

split_runs : split b';' (codes "a;;b") ≡ codes "a" ∷ codes "" ∷ codes "b" ∷ []
unfolding split
split_runs = refl
