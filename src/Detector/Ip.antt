-- ===== src/Detector/Ip.antt =====
-- The standard library's `Ipv4Addr::from_str` and `Ipv6Addr::from_str`, as far as they accept a text.
-- A reader takes a value from the front of a text and gives what is left.
use privacy_proxy.Base.{
  ℕ, zero, suc, ◌+◌, ◌-◌, ◌*◌, Bool, true, false, ◌&&◌, ◌||◌, Option, none, some, [], ◌∷◌, ltb, leb,
  ◌==◌, if◌then◌else◌, length, ◌≡◌, refl,
}
use privacy_proxy.Text.{Bytes, codes, is_ascii_digit, is_empty, starts_with}

abbrev pub Reader : Type 0
Reader = Bytes → Option Bytes

-- The value of a digit in base 10 or 16.
unfoldable pub to_digit : ℕ → ℕ → Option ℕ
unfolding is_ascii_digit
to_digit radix ch =
    if is_ascii_digit ch
    then some (ch - b'0')
    else if leb 16 radix && leb b'a' ch && leb ch b'f'
    then some (ch - b'a' + 10)
    else if leb 16 radix && leb b'A' ch && leb ch b'F'
    then some (ch - b'A' + 10)
    else none

-- The digits at the front: how many, their number, and what is left.
unfoldable pub read_digits : ℕ → ℕ → ℕ → Bytes → ℕ × ℕ × Bytes
unfolding to_digit
read_digits radix count value [] = (count, value, [])
read_digits radix count value (ch ∷ rest) = elim (to_digit radix ch) [
  | none ↦ (count, value, ch ∷ rest)
  | some digit ↦ read_digits radix (count + 1) (value * radix + digit) rest
]

-- A decimal number below 256 of at most three digits, with no zero in front of another digit.
unfoldable pub read_octet : Reader
unfolding read_digits
read_octet text =
    let (count, value, rest) = read_digits 10 0 0 text in
    let padded = starts_with text (codes "0") && ltb 1 count in
    if count == 0 || ltb 3 count || ltb 255 value || padded then none else some rest

-- A hexadecimal number of one to four digits.
unfoldable pub read_group : Reader
unfolding read_digits
read_group text =
    let (count, value, rest) = read_digits 16 0 0 text in
    if count == 0 || ltb 4 count then none else some rest

unfoldable pub read_char : ℕ → Reader
read_char ch [] = none
read_char ch (c ∷ rest) = if c == ch then some rest else none

abbrev pub then_read : Option Bytes → Reader → Option Bytes
then_read none reader = none
then_read (some rest) reader = reader rest

unfoldable pub read_ipv4 : Reader
unfolding read_octet read_char
read_ipv4 text =
    let dotted = λ (rest : Option Bytes). then_read (then_read rest (read_char b'.')) read_octet in
    dotted (dotted (dotted (read_octet text)))

-- A text of more than 15 bytes is refused at once.
unfoldable pub is_ipv4 : Bytes → Bool
unfolding read_ipv4
is_ipv4 text =
    if ltb 15 (length text)
    then false
    else elim (read_ipv4 text) [ none ↦ false | some rest ↦ is_empty rest ]

-- With a `:` in front, but for the first group.
abbrev pub separated : Bool → Reader → Reader
separated first reader text = if first then reader text else then_read (read_char b':' text) reader

-- What `read_groups` gives: how many groups were read, whether the last two were an IPv4 address,
-- and the text that is left.
pub record Groups : Type 0 where
  pub count : ℕ
  pub ipv4 : Bool
  pub rest : Bytes

-- The loop over `room` groups that are left, of which `count` were read.
unfoldable pub read_groups : ℕ → ℕ → Bytes → Groups
unfolding read_ipv4 read_group
read_groups zero count text = record { count = count; ipv4 = false; rest = text }
read_groups (suc room) count text =
    let first = count == 0 in
    elim (if leb 1 room then separated first read_ipv4 text else none) [
      | some rest ↦ record { count = count + 2; ipv4 = true; rest = rest }
      | none ↦ elim (separated first read_group text) [
        | none ↦ record { count = count; ipv4 = false; rest = text }
        | some rest ↦ read_groups room (count + 1) rest
      ]
    ]

-- Behind the front groups: `::` and at most as many groups as leave room for one.
unfoldable pub read_tail : ℕ → Reader
unfolding read_groups
read_tail head_size text =
    then_read (then_read (read_char b':' text) (read_char b':'))
      (λ rest. some (read_groups (7 - head_size) 0 rest).rest)

unfoldable pub read_ipv6 : Reader
unfolding read_tail
read_ipv6 text =
    let head = read_groups 8 0 text in
    if head.count == 8
    then some head.rest
    else if head.ipv4
    then none
    else read_tail head.count head.rest

unfoldable pub is_ipv6 : Bytes → Bool
unfolding read_ipv6
is_ipv6 text = elim (read_ipv6 text) [ none ↦ false | some rest ↦ is_empty rest ]

ipv4_runs :
    (is_ipv4 (codes "203.0.113.10") ≡ true)
    × (is_ipv4 (codes "256.0.0.1") ≡ false)
    × (is_ipv4 (codes "1.2.3.04") ≡ false)
unfolding is_ipv4 is_empty starts_with
ipv4_runs = (refl, refl, refl)

ipv6_runs :
    (is_ipv6 (codes "2001:db8::1") ≡ true)
    × (is_ipv6 (codes "::ffff:1.2.3.4") ≡ true)
    × (is_ipv6 (codes "1:2:3:4:5:6:7:8") ≡ true)
    × (is_ipv6 (codes "1:2:3") ≡ false)
    × (is_ipv6 (codes "12:30:45:") ≡ false)
unfolding is_ipv6 is_empty starts_with
ipv6_runs = (refl, refl, refl, refl, refl)
