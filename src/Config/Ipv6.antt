-- ===== src/Config/Ipv6.antt =====
-- str::parse::<Ipv6Addr> succeeds (used by src/config/validate.rs), as the standard library reads
-- an address: each reader gives what is left of the text.
use nano_llm.Common.{
  ℕ, zero, suc, ◌+◌, ◌-◌, ◌*◌, Text, Bool, true, false, not, ◌&&◌, ◌||◌, Option, none, some, [],
  ◌∷◌, leb, ◌==◌, if◌then◌else◌,
}
use nano_llm.Common.Scan.{is_ascii_digit, is_ascii_hexdigit}

-- The hexadecimal digits in front: how many, and the rest. More than four are refused.
hex_group : ℕ → Text → Option Text
unfolding is_ascii_hexdigit
hex_group count [] = if leb 1 count && leb count 4 then some [] else none
hex_group count (b ∷ bs) =
    let more = hex_group (count + 1) bs in
    if is_ascii_hexdigit b then more else if leb 1 count && leb count 4 then some (b ∷ bs) else none

-- An octet of an IPv4 address ends: up to three digits, no leading zero, at most 255.
octet_end : ℕ → ℕ → Bool → Text → Option Text
octet_end count value leading_zero rest =
    if leb 1 count && leb count 3 && leb value 255 && not (leading_zero && leb 2 count)
    then some rest
    else none

octet : ℕ → ℕ → Bool → Text → Option Text
unfolding octet_end is_ascii_digit
octet count value leading_zero [] = octet_end count value leading_zero []
octet count value leading_zero (b ∷ bs) =
    let more =
      octet (count + 1) (value * 10 + (b - b'0')) (leading_zero || count == 0 && b == b'0') bs in
    if is_ascii_digit b then more else octet_end count value leading_zero (b ∷ bs)

-- The byte, and then what the reader takes.
after : ℕ → (Text → Option Text) → Text → Option Text
after byte reader [] = none
after byte reader (b ∷ bs) = if b == byte then reader bs else none

-- `some` of what the reader of the rest does with the result of the first.
then_read : Option Text → (Text → Option Text) → Option Text
then_read none reader = none
then_read (some rest) reader = reader rest

ipv4 : Text → Option Text
unfolding octet after then_read
ipv4 text = then_read (octet 0 0 false text) λ a.
    then_read (after b'.' (octet 0 0 false) a)
      λ b. then_read (after b'.' (octet 0 0 false) b) (after b'.' (octet 0 0 false))

-- After a colon, unless the group is the first one.
separated : ℕ → (Text → Option Text) → Text → Option Text
unfolding after
separated zero reader text = reader text
separated (suc index) reader text = after b':' reader text

-- read_groups with `left` groups to go: how many were read, whether the last two are an IPv4
-- address, and the rest.
groups : (left index : ℕ) → Text → ℕ × Bool × Text
unfolding separated ipv4 hex_group
groups zero index text = (index, false, text)
groups (suc left) index text = elim (if leb 1 left then separated index ipv4 text else none) [
  | some rest ↦ (index + 2, true, rest)
  | none ↦ elim (separated index (hex_group 0) text) [
    | none ↦ (index, false, text)
    | some rest ↦ groups left (index + 1) rest
  ]
]

double_colon : Text → Option Text
double_colon (a ∷ b ∷ rest) = if a == b':' && b == b':' then some rest else none
double_colon _ = none

is_end : Text → Bool
is_end [] = true
is_end _ = false

-- After a head that is not all of the address: the two colons and the tail.
elided : ℕ → Option Text → Bool
unfolding groups is_end
elided head none = false
elided head (some text) = let (_, _, rest) = groups (8 - (head + 1)) 0 text in is_end rest

unfoldable pub is_ipv6 : Text → Bool
unfolding groups double_colon elided is_end
is_ipv6 text =
    let (head, head_ipv4, rest) = groups 8 0 text in
    if head == 8 then is_end rest else if head_ipv4 then false else elided head (double_colon rest)
