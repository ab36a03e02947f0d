-- ===== src/Request/Parse/Distinct.antt =====
-- No object that the parser of src/request.rs returns has a member twice, at any depth.
use nano_llm.Common.{
  ℕ, zero, suc, Text, lit, contains, Bool, true, false, not, ◌≡◌, ◌≢◌, refl, sym, subst, ap, Option,
  none, List, [], ◌∷◌, ◌++◌, map, Distinct, Fresh, contains-Fresh, if◌then◌else◌, is_empty, ◌==◌,
  ◌||◌, Result, ok, err, ensure, ◌>>=◌, ◌>>◌, arith, length, is_utf8, >>=-eq-ok, ensure-eq-ok,
  ok_injective,
}
use nano_llm.Json.{JsonValue, Values, Members, Fields, fields_of, values, of_values, of_fields}
use nano_llm.Request.Shape.{path_member, path_index}
use nano_llm.Request.Parse.Strings.{Stop, Parse, string, take_byte}
use nano_llm.Request.Parse.{
  ws, literal, number, Value, duplicate, keys, after_member, member_key, members, after_element,
  elements, opened, start, value, is_digit, whole_text, decode_json_value, whole, fraction,
  exponent, sign,
}

-- Every object in the value has distinct member names.
mutual
  pub data NoDuplicates : JsonValue → Type 0 where
    is_null : NoDuplicates JsonValue.null
    is_bool : (b : Bool) → NoDuplicates (JsonValue.bool b)
    is_number : (text : Text) → NoDuplicates (JsonValue.number text)
    is_string : (text : Text) → NoDuplicates (JsonValue.string text)
    in_array : (items : Values) → InItems (values items) → NoDuplicates (JsonValue.array items)
    in_object :
        (ms : Members)
        → Distinct (map (λ m. m.0) (fields_of ms))
        → InFields (fields_of ms)
        → NoDuplicates (JsonValue.object ms)

  pub data InItems : List JsonValue → Type 0 where
    nil : InItems []
    cons : {v : JsonValue} {vs : List JsonValue} → NoDuplicates v → InItems vs → InItems (v ∷ vs)

  pub data InFields : Fields → Type 0 where
    end : InFields []
    member :
        {k : Text} {v : JsonValue} {fs : Fields}
        → NoDuplicates v
        → InFields fs
        → InFields ((k, v) ∷ fs)

InItems-append :
    {vs : List JsonValue} (v : JsonValue) → InItems vs → NoDuplicates v → InItems (vs ++ v ∷ [])
InItems-append v nil h = cons h nil
InItems-append v (cons x xs) h = cons x (InItems-append v xs h)

InFields-append :
    {fs : Fields} (k : Text) (v : JsonValue)
    → InFields fs
    → NoDuplicates v
    → InFields (fs ++ (k, v) ∷ [])
InFields-append k v end h = member h end
InFields-append k v (member x xs) h = member x (InFields-append k v xs h)

values_of : (vs : List JsonValue) → values (of_values vs) ≡ vs
values_of [] = refl
values_of (v ∷ vs) = ap (λ l. v ∷ l) (values_of vs)

members_of : (fs : Fields) → fields_of (of_fields fs) ≡ fs
members_of [] = refl
members_of (f ∷ fs) = ap (λ l. f ∷ l) (members_of fs)

Fresh-append :
    (fs : Fields) (k : Text) (v : JsonValue) (x : Text)
    → Fresh x (keys fs)
    → x ≢ k
    → Fresh x (keys (fs ++ (k, v) ∷ []))
Fresh-append [] k v x f other = ((λ e. other (sym e)), tt)
Fresh-append (m ∷ fs) k v x f other = (f.0, Fresh-append fs k v x f.1 other)

keys-append :
    (fs : Fields) (k : Text) (v : JsonValue)
    → Distinct (keys fs)
    → Fresh k (keys fs)
    → Distinct (keys (fs ++ (k, v) ∷ []))
keys-append [] k v d f = (tt, tt)
keys-append (m ∷ fs) k v d f = (Fresh-append fs k v m.0 d.0 f.0, keys-append fs k v d.1 f.1)

-- What a parse yields.
data Yields (m : Parse JsonValue) : Type 0 where
  yields : (v : JsonValue) (rest : Text) → m ≡ ok (v, rest) → NoDuplicates v → Yields m
  stops : (e : Stop) → m ≡ err e → Yields m

Yields-bind :
    {A : Type 0} (m : Result Stop A) (f : A → Parse JsonValue)
    → ((a : A) → Yields (f a))
    → Yields (m >>= f)
Yields-bind (ok a) f h = h a
Yields-bind (err e) f h = stops e refl

Yields-value :
    (m : Parse JsonValue) (f : JsonValue × Text → Parse JsonValue)
    → Yields m
    → ((v : JsonValue) (rest : Text) → NoDuplicates v → Yields (f (v, rest)))
    → Yields (m >>= f)
Yields-value m f (yields v rest e h) k = rw e (k v rest h)
Yields-value m f (stops e h) k = rw h (stops e refl)

Yields-if : (t : Bool) (m n : Parse JsonValue) → Yields m → Yields n → Yields (if t then m else n)
Yields-if true m n h k = h
Yields-if false m n h k = k

Yields-ensure :
    (t : Bool) (e : Stop) (m : Parse JsonValue) → (t ≡ true → Yields m) → Yields (ensure t e >> m)
Yields-ensure true e m h = h refl
Yields-ensure false e m h = stops e refl

Yields-ok : (v : JsonValue) (rest : Text) → NoDuplicates v → Yields (ok (v, rest))
Yields-ok v rest h = yields v rest refl h

Yields-err : (e : Stop) → Yields (err e)
Yields-err e = stops e refl

object_of :
    (fs : Fields)
    → Distinct (keys fs)
    → InFields fs
    → NoDuplicates (JsonValue.object (of_fields fs))
object_of fs d h = in_object (of_fields fs) (rw (members_of fs) d) (rw (members_of fs) h)

array_of : (vs : List JsonValue) → InItems vs → NoDuplicates (JsonValue.array (of_values vs))
array_of vs h = in_array (of_values vs) (rw (values_of vs) h)

after_member-Yields :
    (fs : Fields) (rest : Text) (next : Text → Parse JsonValue)
    → Distinct (keys fs)
    → InFields fs
    → ((r : Text) → Yields (next r))
    → Yields (after_member fs rest next)
unfolding after_member
after_member-Yields fs [] next d h k = Yields-err _
after_member-Yields fs (b ∷ bs) next d h k =
    Yields-if _ _ _ (k bs) (Yields-if _ _ _ (Yields-ok _ _ (object_of fs d h)) (Yields-err _))

after_element-Yields :
    (vs : List JsonValue) (rest : Text) (next : Text → Parse JsonValue)
    → InItems vs
    → ((r : Text) → Yields (next r))
    → Yields (after_element vs rest next)
unfolding after_element
after_element-Yields vs [] next h k = Yields-err _
after_element-Yields vs (b ∷ bs) next h k =
    Yields-if _ _ _ (k bs) (Yields-if _ _ _ (Yields-ok _ _ (array_of vs h)) (Yields-err _))

module _ (next : Value) (each : (p : Text) (o : Option Text) (r : Text) → Yields (next p o r)) where
  members-Yields :
      (fuel : ℕ) (fs : Fields) (path : Text) (owner : Option Text) (rest : Text)
      → Distinct (keys fs)
      → InFields fs
      → Yields (members next fuel fs path owner rest)
  unfolding members
  members-Yields zero fs path owner rest d h = Yields-err _
  members-Yields (suc fuel) fs path owner rest d h =
      Yields-bind (member_key (ws rest)) _ λ (key, r1). Yields-bind (take_byte b':' (ws r1)) _ λ r2.
        Yields-value (next (path_member path key) _ r2) _ (each _ _ _) λ v r3 clean.
          Yields-ensure (not (contains (keys fs) key)) (duplicate path owner key) _ λ new.
            let fresh = contains-Fresh (keys fs) key (ground (arith, new)) in
            let d' = keys-append fs key v d fresh in
            let h' = InFields-append key v h clean in
            after_member-Yields (fs ++ (key, v) ∷ []) (ws r3) _ d' h'
              λ r. members-Yields fuel (fs ++ (key, v) ∷ []) path owner r d' h'

  elements-Yields :
      (fuel : ℕ) (vs : List JsonValue) (path : Text) (owner : Option Text) (rest : Text)
      → InItems vs
      → Yields (elements next fuel vs path owner rest)
  unfolding elements
  elements-Yields zero vs path owner rest h = Yields-err _
  elements-Yields (suc fuel) vs path owner rest h =
      Yields-value (next (path_index path (length vs)) owner rest) _ (each _ _ _) λ v r clean.
        after_element-Yields (vs ++ v ∷ []) (ws r) _ (InItems-append v h clean)
          λ r'. elements-Yields fuel (vs ++ v ∷ []) path owner r' (InItems-append v h clean)

  opened-Yields :
      (closing : ℕ) (empty : JsonValue) (rest : Text) (loop : Parse JsonValue)
      → NoDuplicates empty
      → Yields loop
      → Yields (opened closing empty rest loop)
  unfolding opened
  opened-Yields closing empty [] loop h k = k
  opened-Yields closing empty (b ∷ bs) loop h k = Yields-if _ _ _ (Yields-ok _ _ h) k

  literal-Yields :
      (word : Text) (v : JsonValue) (rest : Text) → NoDuplicates v → Yields (literal word v rest)
  unfolding literal
  literal-Yields word v rest h = Yields-if _ _ _ (Yields-ok _ _ h) (Yields-err _)

  number-Yields : (rest : Text) → Yields (number rest)
  unfolding number
  number-Yields rest = Yields-bind (whole (sign rest).1) _ λ (front, r2).
      Yields-bind (fraction r2) _
        λ (middle, r3). Yields-bind (exponent r3) _ λ (back, r4). Yields-ok _ _ (is_number _)

  start-Yields :
      (fuel : ℕ) (path : Text) (owner : Option Text) (rest : Text)
      → Yields (start next fuel path owner rest)
  unfolding start
  start-Yields fuel path owner [] = Yields-err _
  start-Yields fuel path owner (b ∷ bs) =
      Yields-if (b == b'{') _ _
        (opened-Yields b'}' _ (ws bs) _ (object_of [] tt end)
          (members-Yields fuel [] path owner (ws bs) tt end))
        (Yields-if (b == b'[') _ _
          (opened-Yields b']' _ (ws bs) _ (array_of [] nil)
            (elements-Yields fuel [] path owner (ws bs) nil))
          (Yields-if (b == b'"') _ _
            (Yields-bind (string (b ∷ bs)) _
              λ (text, r). Yields-ok (JsonValue.string text) r (is_string text))
            (Yields-if (b == b't') _ _
              (literal-Yields (lit "true") (JsonValue.bool true) (b ∷ bs) (is_bool true))
              (Yields-if (b == b'f') _ _
                (literal-Yields (lit "false") (JsonValue.bool false) (b ∷ bs) (is_bool false))
                (Yields-if (b == b'n') _ _
                  (literal-Yields (lit "null") JsonValue.null (b ∷ bs) is_null)
                  (Yields-if (b == b'-' || is_digit b) _ _ (number-Yields (b ∷ bs))
                    (Yields-err _)))))))

value-Yields :
    (fuel : ℕ) (path : Text) (owner : Option Text) (rest : Text)
    → Yields (value fuel path owner rest)
unfolding value
value-Yields zero path owner rest = Yields-err _
value-Yields (suc fuel) path owner rest =
    start-Yields (λ p o r. value fuel p o r) (λ p o r. value-Yields fuel p o r) fuel path owner
      (ws rest)

yielded :
    (m : Parse JsonValue) (parsed : JsonValue × Text)
    → m ≡ ok parsed
    → Yields m
    → NoDuplicates parsed.0
yielded m parsed e (yields v rest e' h) = subst NoDuplicates (cc (e, e')) h
yielded m parsed e (stops x e') = cc

-- Whatever the bytes of a body, in every value that `decode_json_value` returns each object has
-- distinct member names, at any depth.
pub decode_json_value-NoDuplicates :
    (fuel : ℕ) (bytes : Text) (v : JsonValue) → decode_json_value fuel bytes ≡ ok v → NoDuplicates v
unfolding decode_json_value whole_text
decode_json_value-NoDuplicates fuel bytes v h =
    let valid = ensure-eq-ok (is_utf8 bytes) _ _ h in
    let (parsed, is_parsed, last) = >>=-eq-ok (value fuel [] none (ws bytes)) _ valid.1 in
    let ended = ensure-eq-ok (is_empty (ws parsed.1)) _ (ok parsed.0) last in
    subst NoDuplicates (ok_injective ended.1)
      (yielded _ parsed is_parsed (value-Yields fuel [] none (ws bytes)))
