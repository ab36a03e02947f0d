-- ===== src/Common/Rules.antt =====
-- What holds of the value of a computation that may fail, by one rule for each way to build it.
use mathlib.Core.Path.{◌≡◌, refl, subst, sym, ◌∙◌}
use mathlib.Core.Logic.{◌⊎◌, inl, inr}
use mathlib.Core.Bool.{Bool, true, false, not, ◌&&◌}
use mathlib.Core.Option.{Option, none, some}
use nano_llm.Common.Fallible.{Result, ok, err, ok_or, ensure, ◌>>=◌, ◌>>◌, ok_injective}

pub data Accepts {E A : Type 0} (m : Result E A) (P : A → Type 0) : Type 0 where
  accepts : (a : A) → m ≡ ok a → P a → Accepts m P
  rejects : (e : E) → m ≡ err e → Accepts m P

pub Accepts-ok : {E A : Type 0} {P : A → Type 0} (a : A) → P a → Accepts {E = E} (ok a) P
Accepts-ok a h = accepts a refl h

pub Accepts-bind :
    {E A B : Type 0} {P : A → Type 0} {Q : B → Type 0} (m : Result E A) (f : A → Result E B)
    → Accepts m P
    → ((a : A) → P a → Accepts (f a) Q)
    → Accepts (m >>= f) Q
Accepts-bind m f (accepts a e h) k = rw e (k a h)
Accepts-bind m f (rejects x e) k = rw e (rejects x refl)

pub Accepts-ensure :
    {E B : Type 0} {Q : B → Type 0} (t : Bool) (e : E) (k : Result E B)
    → (t ≡ true → Accepts k Q)
    → Accepts (ensure t e >> k) Q
Accepts-ensure true e k h = h refl
Accepts-ensure false e k h = rejects e refl

pub Accepts-ok_or :
    {E A B : Type 0} {Q : B → Type 0} (o : Option A) (e : E) (f : A → Result E B)
    → ((a : A) → o ≡ some a → Accepts (f a) Q)
    → Accepts (ok_or o e >>= f) Q
Accepts-ok_or none e f k = rejects e refl
Accepts-ok_or (some a) e f k = k a refl

pub Accepts-mono :
    {E A : Type 0} {P Q : A → Type 0} {m : Result E A}
    → ((a : A) → P a → Q a)
    → Accepts m P
    → Accepts m Q
Accepts-mono f (accepts a e h) = accepts a e (f a h)
Accepts-mono f (rejects x e) = rejects x e

pub Accepts-result :
    {E A : Type 0} {P : A → Type 0} (m : Result E A) (a : A) → Accepts m P → m ≡ ok a → P a
Accepts-result {P = P} m a (accepts b e h) r = subst P (ok_injective (sym e ∙ r)) h
Accepts-result m a (rejects x e) r = absurd (cc (e, r))

-- What a check `if bad` or `if asked && !given` that was passed says.
pub refuted : (bad : Bool) → not bad ≡ true → bad ≡ false
refuted true h = absurd (cc h)
refuted false h = refl

pub implied :
    (asked given : Bool) → not (asked && not given) ≡ true → (asked ≡ false) ⊎ (given ≡ true)
implied true true h = inr refl
implied true false h = absurd (cc h)
implied false given h = inl refl
