-- ===== src/Request/Parse/Strings/Ends.antt =====
-- A JSON string of the parser in src/request.rs is read within its input, without fuel.
use nano_llm.Common.{
  ℕ, zero, suc, ◌<◌, Text, Bool, true, false, not, ◌≡◌, refl, [], ◌∷◌, ◌++◌, length, if◌then◌else◌,
  ◌==◌, ◌&&◌, all, take, drop, leb, ltb, text_eq, Result, ok, err, ensure, ◌>>=◌, ◌>>◌, arith,
}
use nano_llm.Request.Outcome.{Fault}
use nano_llm.Request.Parse.Strings.{
  Stop, fault, malformed, hex4, low_surrogate, unicode, escape, piece, Piece, close, push,
  string_from, string, take_byte, continues, is_hex,
}

-- The computation ends within its fuel, and P holds of its value.
pub data Ends {A : Type 0} (P : A → Type 0) (m : Result Stop A) : Type 0 where
  ends : (a : A) → m ≡ ok a → P a → Ends P m
  faults : (f : Fault) → m ≡ err (fault f) → Ends P m

-- Less than n bytes are left.
abbrev pub Left : {A : Type 0} → ℕ → A × Text → Type 0
Left n (a, rest) = length rest < n

abbrev pub Any : {A : Type 0} → A → Type 0
Any a = Unit

pub Ends-ok : {A : Type 0} {P : A → Type 0} (a : A) → P a → Ends P (ok a)
Ends-ok a h = ends a refl h

pub Ends-malformed : {A : Type 0} {P : A → Type 0} (m : Text) → Ends {A = A} P (err (malformed m))
Ends-malformed m = faults _ refl

pub Ends-bind :
    {A B : Type 0} {P : A → Type 0} {Q : B → Type 0} (m : Result Stop A) (f : A → Result Stop B)
    → Ends P m
    → ((a : A) → P a → Ends Q (f a))
    → Ends Q (m >>= f)
Ends-bind m f (ends a e h) k = rw e (k a h)
Ends-bind m f (faults x e) k = rw e (faults x refl)

pub Ends-ensure :
    {B : Type 0} {Q : B → Type 0} (t : Bool) (f : Fault) (k : Result Stop B)
    → Ends Q k
    → Ends Q (ensure t (fault f) >> k)
Ends-ensure true f k h = h
Ends-ensure false f k h = faults f refl

pub Ends-if :
    {B : Type 0} {Q : B → Type 0} (t : Bool) (k l : Result Stop B)
    → Ends Q k
    → Ends Q l
    → Ends Q (if t then k else l)
Ends-if true k l h h' = h
Ends-if false k l h h' = h'

pub Ends-mono :
    {A : Type 0} {P Q : A → Type 0} {m : Result Stop A}
    → ((a : A) → P a → Q a)
    → Ends P m
    → Ends Q m
Ends-mono f (ends a e h) = ends a e (f a h)
Ends-mono f (faults x e) = faults x e

hex4-Ends : (rest : Text) → Ends Any (hex4 rest)
unfolding hex4
hex4-Ends rest = Ends-ensure (leb 4 (length rest)) _ _ (
    Ends-ensure (not (continues (drop 4 rest))) _ _
      (Ends-ensure (all is_hex (take 4 rest)) _ _ (Ends-ok _ tt)))

low_surrogate-Ends : (first : ℕ) (rest : Text) → Ends Any (low_surrogate first rest)
unfolding low_surrogate
low_surrogate-Ends first rest = Ends-ensure (text_eq (take 2 rest) _) _ _ (
    Ends-bind (hex4 (drop 2 rest)) _ (hex4-Ends (drop 2 rest))
      λ second _. Ends-ensure (leb 56320 second && leb second 57343) _ _ (Ends-ok _ tt))

unicode-Ends : (first : ℕ) (rest : Text) → Ends Any (unicode first rest)
unfolding unicode
unicode-Ends first rest =
    Ends-if (leb 55296 first && leb first 56319) _ _ (low_surrogate-Ends first rest)
      (Ends-if (leb 56320 first && leb first 57343) _ _ (Ends-malformed _) (Ends-ok _ tt))

escape-Ends : (rest : Text) → Ends Any (escape rest)
unfolding escape
escape-Ends [] = Ends-malformed _
escape-Ends (b ∷ bs) = Ends-if (b == b'"') _ _ (Ends-ok _ tt) (
    Ends-if (b == b'\\') _ _ (Ends-ok _ tt) (
      Ends-if (b == b'/') _ _ (Ends-ok _ tt) (
        Ends-if (b == b'b') _ _ (Ends-ok _ tt) (
          Ends-if (b == b'f') _ _ (Ends-ok _ tt) (
            Ends-if (b == b'n') _ _ (Ends-ok _ tt) (
              Ends-if (b == b'r') _ _ (Ends-ok _ tt) (
                Ends-if (b == b't') _ _ (Ends-ok _ tt) (
                  Ends-if (b == b'u') _ _
                    (Ends-bind (hex4 bs) _ (hex4-Ends bs) λ first _. unicode-Ends first (drop 4 bs))
                    (Ends-malformed _)))))))))

piece-Ends : (b : ℕ) (bs : Text) → Ends Any (piece b bs)
unfolding piece
piece-Ends b bs = Ends-if (b == b'"') _ _ (Ends-ok _ tt) (
    Ends-if (b == b'\\') _ _ (escape-Ends bs)
      (Ends-if (ltb b 32) _ _ (Ends-malformed _) (Ends-ok _ tt)))

pieced-Ends :
    (next : Piece) (out bs : Text)
    → ((o : Text) (skip : ℕ) → Ends (Left (length bs)) (string_from o skip bs))
    → Ends
        (Left (suc (length bs)))
        (elim next [ close ↦ ok (out, bs) | push bytes skip ↦ string_from (out ++ bytes) skip bs ])
pieced-Ends close out bs h = Ends-ok (out, bs) (omega arith)
pieced-Ends (push bytes skip) out bs h =
    Ends-mono (λ _ less. omega (arith, less)) (h (out ++ bytes) skip)

string_from-Ends :
    (out : Text) (skip : ℕ) (rest : Text) → Ends (Left (length rest)) (string_from out skip rest)
unfolding string_from
string_from-Ends out skip [] = Ends-malformed _
string_from-Ends out (suc skip) (b ∷ bs) =
    Ends-mono (λ _ h. omega (arith, h)) (string_from-Ends out skip bs)
string_from-Ends out zero (b ∷ bs) =
    Ends-bind (piece b bs) _ (piece-Ends b bs)
      λ next _. pieced-Ends next out bs (λ o skip. string_from-Ends o skip bs)

pub take_byte-Ends :
    (expected : ℕ) (rest : Text)
    → Ends (λ (r : Text). length r < length rest) (take_byte expected rest)
unfolding take_byte
take_byte-Ends expected [] = Ends-malformed _
take_byte-Ends expected (b ∷ bs) =
    Ends-if (b == expected) _ _ (Ends-ok bs (omega arith)) (Ends-malformed _)

pub string-Ends : (rest : Text) → Ends (Left (length rest)) (string rest)
unfolding string
string-Ends rest =
    Ends-bind (take_byte b'"' rest) _ (take_byte-Ends b'"' rest)
      λ body less. Ends-mono (λ _ h. omega (arith, h, less)) (string_from-Ends [] 0 body)
