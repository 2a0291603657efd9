-- ===== src/Container/ReadBack.antt =====
-- Reading back what `to_string` prints.
use learn_k.Base.{
  ℕ, zero, suc, ◌+◌, ◌-◌, ◌*◌, ◌/◌, ◌%◌, ◌≤◌, ◌<◌, ◌≡◌, refl, ap, sym, ◌∙◌, subst, Bool, true,
  false, Option, none, some, List, [], ◌∷◌, ◌++◌, arith, ◌==◌, if◌then◌else◌, length,
}
use mathlib.Core.List.{append_assoc}
use learn_k.Base.Int.{ℤ, pos, negsuc}
use learn_k.Memory.{Bytes}
use learn_k.Kernel.{Returns, Returns-mono}
use learn_k.Strings.Join.{Text, Text-cons, Text-append}
use learn_k.Container.Links.{Ptr, ListApi}
use learn_k.Container.Core.{Store}
use learn_k.Container.Cells.{Cells, values, IsList}
use learn_k.Container.Text.{to_string}
use learn_k.Container.Printed.{render_rest, render_items, render, to_string-render}
use learn_k.Printf.{path_max, read_text, read_text-Prints}
use learn_k.Printf.Decimal.{
  digits, natural, decimal, digits-append, Text-decimal, Text-nil, Starts, Starts-decimal,
}

abbrev signed : Bool → ℕ → ℤ
signed false n = pos n
signed true zero = pos zero
signed true (suc n) = negsuc n

abbrev before : ℤ → Option (List ℤ) → Option (List ℤ)
before v none = none
before v (some vs) = some (v ∷ vs)

-- Behind the opening bracket, with the sign and the number read since the last comma.
unfoldable read_items : Bool → ℕ → List ℕ → Option (List ℤ)
read_items neg n [] = none
read_items neg n (c ∷ cs) =
    if c == 93
    then some (signed neg n ∷ [])
    else if c == 44
    then before (signed neg n) (read_items false 0 cs)
    else if c == 45
    then read_items true n cs
    else read_items neg (n * 10 + (c - 48)) cs

unfoldable pub read_list : List ℕ → Option (List ℤ)
unfolding read_items
read_list [] = none
read_list (c ∷ []) = none
read_list (c ∷ d ∷ cs) =
    if c == 91 then (if d == 93 then some [] else read_items false 0 (d ∷ cs)) else none

read_items-digits :
    (neg : Bool) (fuel m : ℕ) (out : List ℕ)
    → m ≤ fuel
    → read_items neg 0 (digits fuel m out) ≡ read_items neg m out
unfolding digits read_items
read_items-digits neg zero m out h = ap (λ i. read_items neg i out) (omega arith)
read_items-digits neg (suc fuel) m out h =
    ground (arith, read_items-digits neg fuel (m / 10) ((48 + m % 10) ∷ out))

abbrev is_minus : ℤ → Bool
is_minus (pos n) = false
is_minus (negsuc n) = true

abbrev magnitude : ℤ → ℕ
magnitude (pos n) = n
magnitude (negsuc n) = suc n

read_items-natural :
    (neg : Bool) (n : ℕ) (rest : List ℕ)
    → read_items neg 0 (natural n ++ rest) ≡ read_items neg n rest
unfolding read_items
read_items-natural neg n rest =
    ground (arith, digits-append n n [] rest, read_items-digits neg n n rest)

-- A printed number reads back, sign and all.
read_items-decimal :
    (v : ℤ) (rest : List ℕ)
    → read_items false 0 (decimal v ++ rest) ≡ read_items (is_minus v) (magnitude v) rest
unfolding decimal read_items
read_items-decimal (pos n) rest = read_items-natural false n rest
read_items-decimal (negsuc n) rest = read_items-natural true (suc n) rest

signed-magnitude : (v : ℤ) → signed (is_minus v) (magnitude v) ≡ v
signed-magnitude (pos n) = refl
signed-magnitude (negsuc n) = refl

abbrev Reads : List ℤ → Type 0
Reads vs =
    (neg : Bool) (n : ℕ) → read_items neg n (render_rest vs ++ (93 ∷ [])) ≡ some (signed neg n ∷ vs)

read_items-first :
    (v : ℤ) (vs : List ℤ)
    → Reads vs
    → read_items false 0 ((decimal v ++ render_rest vs) ++ (93 ∷ [])) ≡ some (v ∷ vs)
read_items-first v vs r =
    ap (read_items false 0) (append_assoc (decimal v) (render_rest vs) (93 ∷ []))
    ∙ read_items-decimal v (render_rest vs ++ (93 ∷ []))
    ∙ r (is_minus v) (magnitude v)
    ∙ ap (λ w. some (w ∷ vs)) (signed-magnitude v)

read_items-rest : (vs : List ℤ) → Reads vs
unfolding read_items
read_items-rest [] neg n = refl
read_items-rest (v ∷ vs) neg n =
    ap (before (signed neg n)) (read_items-first v vs (read_items-rest vs))

read_list-cons :
    (bs rest : List ℕ) → Starts bs → read_list (91 ∷ (bs ++ rest)) ≡ read_items false 0 (bs ++ rest)
unfolding read_list
read_list-cons bs rest s =
    subst (λ l. read_list (91 ∷ (l ++ rest)) ≡ read_items false 0 (l ++ rest)) (sym s.cons)
      (ground (arith, s.low))

read_list-render : (vs : List ℤ) → read_list (render vs) ≡ some vs
unfolding read_list
read_list-render [] = refl
read_list-render (v ∷ vs) =
    ap (λ l. read_list (91 ∷ l)) (append_assoc (decimal v) (render_rest vs) (93 ∷ []))
    ∙ read_list-cons (decimal v) (render_rest vs ++ (93 ∷ [])) (Starts-decimal v)
    ∙ ap (read_items false 0) (sym (append_assoc (decimal v) (render_rest vs) (93 ∷ [])))
    ∙ read_items-first v vs (read_items-rest vs)

Text-rest : (vs : List ℤ) → Text (render_rest vs)
Text-rest [] = Text-nil
Text-rest (v ∷ vs) =
    Text-cons 44 (decimal v ++ render_rest vs) (λ e. absurd (omega (arith, e)))
      (Text-append (decimal v) (render_rest vs) (Text-decimal v) (Text-rest vs))

Text-items : (vs : List ℤ) → Text (render_items vs)
Text-items [] = Text-nil
Text-items (v ∷ vs) = Text-append (decimal v) (render_rest vs) (Text-decimal v) (Text-rest vs)

Text-render : (vs : List ℤ) → Text (render vs)
Text-render vs =
    Text-cons 91 (render_items vs ++ (93 ∷ [])) (λ e. absurd (omega (arith, e)))
      (Text-append (render_items vs) (93 ∷ []) (Text-items vs)
        (Text-cons 93 [] (λ e. absurd (omega (arith, e))) Text-nil))

-- Where there is memory, and the values in brackets with commas between them take fewer than 4096
-- bytes, `to_string` of a list comes back, changes nothing in the list, and prints just that text;
-- whoever reads the string up to its terminator, and the numbers in it, has the values back.
pub to_string-read_list :
    (K : ListApi) (fuel : ℕ) (s : Store K.Links) (h : Ptr) (xs : Cells) (garbage : Bytes)
    → IsList K s h xs
    → length xs < fuel
    → length (render (values xs)) < path_max
    → Returns
        (λ text s'.
          (m : Bytes) × (text ≡ some m)
          × (read_text path_max m 0 ≡ render (values xs))
          × (read_list (read_text path_max m 0) ≡ some (values xs))
          × (s' ≡ s))
        (to_string K fuel true garbage h s)
to_string-read_list K fuel s h xs garbage is enough fits =
    Returns-mono _ _ (to_string K fuel true garbage h s)
      (λ text s' q.
        let back =
          read_text-Prints path_max (render (values xs)) _ q.2 (omega arith)
            (Text-render (values xs)) fits in
        (q.0, q.1, back, ap read_list back ∙ read_list-render (values xs), q.3))
      (to_string-render K fuel s h xs garbage is enough fits)
