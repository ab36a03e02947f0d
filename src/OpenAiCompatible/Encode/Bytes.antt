-- ===== src/OpenAiCompatible/Encode/Bytes.antt =====
-- The bytes that `quote` of src/openai_compatible.rs writes, and how the parser of src/request.rs
-- reads each of them back.
use nano_llm.Common.{
  ℕ, zero, suc, ◌/◌, ◌%◌, ◌<◌, ◌≤◌, Text, Bool, true, false, ◌&&◌, ◌≡◌, refl, sym, ap, ◌∙◌, subst,
  inl, inr, ◌≢◌, Option, some, [], ◌∷◌, ◌++◌, take, drop, length, leb, ltb, all, hex_digit, ltb→lt,
  ==→eq, Bool-cases, Option-cases, ◌==◌, if◌then◌else◌, ok, ◌>>=◌, follows, utf8_from, is_utf8,
  arith,
}
use nano_llm.Request.Parse.Strings.{
  close, push, continues, is_hex, from_hex, hex4, unicode, piece, width, string_from,
}
use nano_llm.Server.Serialize.{unicode_escape}
use nano_llm.OpenAiCompatible.Encode.{quote_byte, quote_bytes}

-- A byte of a longer character stands for itself.
pub quote_byte-high : (b : ℕ) → 128 ≤ b → quote_byte b ≡ b ∷ []
unfolding quote_byte
quote_byte-high b h = ground arith

-- A character of more than one byte: its first byte gives its width.
pub lead :
    (b k low high : ℕ)
    → 128 ≤ b
    → follows b ≡ some (k, low, high)
    → (128 ≤ low) × (width b ≡ suc k) × (194 ≤ b)
unfolding follows width
lead b k low high h e = ground arith

pub follows-ascii : (b : ℕ) → b < 128 → follows b ≡ some (0, 128, 191)
unfolding follows
follows-ascii b h = ground arith

-- A first byte that has to be followed by these.
pub first_byte :
    (b : ℕ) (t : Text) (low high : ℕ)
    → utf8_from 0 low high (b ∷ t) ≡ true
    → (k : ℕ) × (l : ℕ) × (u : ℕ) × (follows b ≡ some (k, l, u)) × (utf8_from k l u t ≡ true)
unfolding utf8_from
first_byte b t low high h = elim (Option-cases (follows b)) [
  | inl e ↦ absurd (cc (rw (e, utf8_from) at h))
  | inr ((k, l, u), e) ↦ (k, l, u, e, rw (e, utf8_from) at h)
]

-- A byte inside a character.
pub later_byte :
    (b k low high : ℕ) (t : Text)
    → utf8_from (suc k) low high (b ∷ t) ≡ true
    → (low ≤ b) × (utf8_from k 128 191 t ≡ true)
unfolding utf8_from
later_byte b k low high t h = ground arith

some_injective : {A : Type 0} {x y : A} → ◌≡◌ {A = Option A} (some x) (some y) → x ≡ y
some_injective h = cc h

pub incomplete : (k low high : ℕ) → utf8_from (suc k) low high [] ≡ true → ⊥
unfolding utf8_from
incomplete k low high u = cc u

pub utf8 : (t : Text) → is_utf8 t ≡ true → utf8_from 0 128 191 t ≡ true
unfolding is_utf8
utf8 t u = u

pub utf8_from-ascii :
    (b k low high : ℕ) (t : Text)
    → b < 128
    → follows b ≡ some (k, low, high)
    → utf8_from k low high t ≡ true
    → is_utf8 t ≡ true
unfolding is_utf8
utf8_from-ascii b k low high t less f u =
    let same : ◌≡◌ {A = Option (ℕ × ℕ × ℕ)} (some (k, low, high)) (some (0, 128, 191)) =
      sym f ∙ follows-ascii b less in
    subst (λ s. utf8_from s.0 s.1 s.2 t ≡ true) (some_injective same) u

pub take-quote_bytes :
    (k low high : ℕ) (t more : Text)
    → 128 ≤ low
    → utf8_from k low high t ≡ true
    → take k (quote_bytes t ++ more) ≡ take k t
unfolding quote_bytes utf8_from
take-quote_bytes zero low high t more h u = refl
take-quote_bytes (suc k) low high [] more h u = absurd (cc u)
take-quote_bytes (suc k) low high (b ∷ t) more h u =
    let (within, u') = later_byte b k low high t u in
    rw (quote_byte-high b (omega arith))
      (ap (λ s. b ∷ s) (take-quote_bytes k 128 191 t more (omega arith) u'))

pub take-drop : (k : ℕ) (t : Text) → take k t ++ drop k t ≡ t
take-drop zero t = refl
take-drop (suc k) [] = refl
take-drop (suc k) (b ∷ t) = ap (λ s. b ∷ s) (take-drop k t)

-- The test passes for the numbers below the limit.
unfoldable pub holds_below : (test : ℕ → Bool) → ℕ → Bool
holds_below test zero = true
holds_below test (suc n) = holds_below test n && test n

pub holds_below-lt : (test : ℕ → Bool) (n b : ℕ) → holds_below test n ≡ true → b < n → test b ≡ true
unfolding holds_below
holds_below-lt test zero b h less = absurd (omega arith)
holds_below-lt test (suc n) b h less = ground (arith, holds_below-lt test n b)

abbrev digits : ℕ → Text
digits b = b'0' ∷ b'0' ∷ hex_digit (b / 16) ∷ hex_digit (b % 16) ∷ []

-- Every control character is read back from its four digits.
table : holds_below (λ b. all is_hex (digits b) && from_hex 0 (digits b) == b) 32 ≡ true
unfolding holds_below is_hex from_hex hex_digit
table = refl

both : (s t : Bool) → (s && t) ≡ true → (s ≡ true) × (t ≡ true)
both true true h = (refl, refl)
both true false h = absurd (cc h)
both false t h = absurd (cc h)

four : (n : ℕ) → leb 4 (suc (suc (suc (suc n)))) ≡ true
four n = ground arith

hex4-digits :
    (b : ℕ) (more : Text) → b < 32 → continues more ≡ false → hex4 (digits b ++ more) ≡ ok b
unfolding hex4
hex4-digits b more less ends =
    let (spelled, valued) =
      both (all is_hex (digits b)) (from_hex 0 (digits b) == b) (
        holds_below-lt (λ c. all is_hex (digits c) && from_hex 0 (digits c) == c) 32 b table
          less) in
    rw (four (length more)) (rw ends (rw spelled (ap ok (==→eq _ b valued))))

unicode_escape-piece :
    (b : ℕ) (more : Text)
    → b < 32
    → continues more ≡ false
    → piece b'\\' (b'u' ∷ (digits b ++ more)) ≡ ok (push (b ∷ []) 5)
unfolding piece
unicode_escape-piece b more less ends =
    rw (hex4-digits b more less ends) (unfold unicode in ground arith)

pub string_from-push :
    (b : ℕ) (out more bytes : Text) (skip : ℕ)
    → piece b more ≡ ok (push bytes skip)
    → string_from out 0 (b ∷ more) ≡ string_from (out ++ bytes) skip more
unfolding string_from
string_from-push b out more bytes skip h =
    ap
      (λ m. m >>= λ next. elim next [
        | close ↦ ok (out, more)
        | push taken left ↦ string_from (out ++ taken) left more
      ])
      h

-- The bytes that an escape has taken.
skipped :
    (out : Text) (taken more : Text)
    → string_from out (length taken) (taken ++ more) ≡ string_from out 0 more
unfolding string_from
skipped out [] more = refl
skipped out (b ∷ taken) more = skipped out taken more

quote_byte-control :
    (b : ℕ) (out more : Text)
    → b < 32
    → continues more ≡ false
    → string_from out 0 (unicode_escape b ++ more) ≡ string_from (out ++ b ∷ []) 0 more
unfolding unicode_escape
quote_byte-control b out more less ends =
    string_from-push b'\\' out (b'u' ∷ (digits b ++ more)) (b ∷ []) 5
      (unicode_escape-piece b more less ends)
    ∙ skipped (out ++ b ∷ []) (b'u' ∷ digits b) more

plain-piece :
    (b : ℕ) (more : Text)
    → 32 ≤ b
    → b < 128
    → b ≢ b'"'
    → b ≢ b'\\'
    → piece b more ≡ ok (push (b ∷ []) 0)
unfolding piece width
plain-piece b more h less q s = ground arith

-- One of the escapes of two characters.
short_escape :
    (b c : ℕ) (out more : Text)
    → piece b'\\' (c ∷ more) ≡ ok (push (b ∷ []) 1)
    → string_from out 0 (b'\\' ∷ c ∷ more) ≡ string_from (out ++ b ∷ []) 0 more
short_escape b c out more h =
    string_from-push b'\\' out (c ∷ more) (b ∷ []) 1 h ∙ skipped (out ++ b ∷ []) (c ∷ []) more

-- How a byte below 128 is read back, when it is written in this way.
abbrev Reads : ℕ → Text → Type 0
Reads b written =
    (out more : Text)
    → continues more ≡ false
    → string_from out 0 (written ++ more) ≡ string_from (out ++ b ∷ []) 0 more

Reads-if :
    (b c : ℕ) (x y : Text)
    → (b ≡ c → Reads b x)
    → (b ≢ c → Reads b y)
    → Reads b (if b == c then x else y)
Reads-if b c x y h k = elim (Bool-cases (b == c)) [
  | inl e ↦ rw e (h (==→eq b c e))
  | inr e ↦ rw e (k (λ p. ground (arith, e, p)))
]

Reads-ltb :
    (b c : ℕ) (x y : Text)
    → (b < c → Reads b x)
    → (c ≤ b → Reads b y)
    → Reads b (if ltb b c then x else y)
Reads-ltb b c x y h k = elim (Bool-cases (ltb b c)) [
  | inl e ↦ rw e (h (ltb→lt b c e))
  | inr e ↦ rw e (k (ground (arith, e)))
]

escape-Reads :
    (b c : ℕ) (d : ℕ)
    → ((more : Text) → piece b'\\' (c ∷ more) ≡ ok (push (d ∷ []) 1))
    → b ≡ d
    → Reads b (b'\\' ∷ c ∷ [])
escape-Reads b c d h e = λ out more ends. rw e (short_escape d c out more (h more))

-- A byte of its own is read back, however it is written.
pub string_from-quote_byte : (b : ℕ) → b < 128 → Reads b (quote_byte b)
unfolding quote_byte piece
string_from-quote_byte b less = Reads-if b b'"' _ _ (escape-Reads b b'"' b'"' (λ more. refl)) λ q.
    Reads-if b b'\\' _ _ (escape-Reads b b'\\' b'\\' (λ more. refl)) λ s.
      Reads-if b 8 _ _ (escape-Reads b b'b' 8 (λ more. refl)) λ _.
        Reads-if b 12 _ _ (escape-Reads b b'f' 12 (λ more. refl)) λ _.
          Reads-if b 10 _ _ (escape-Reads b b'n' 10 (λ more. refl)) λ _.
            Reads-if b 13 _ _ (escape-Reads b b'r' 13 (λ more. refl)) λ _.
              Reads-if b 9 _ _ (escape-Reads b b't' 9 (λ more. refl)) λ _.
                Reads-ltb b 32 _ _
                  (λ control out more ends. quote_byte-control b out more control ends)
                  λ high out more ends.
                    string_from-push b out more (b ∷ []) 0 (plain-piece b more high less q s)
