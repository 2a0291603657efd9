-- ===== src/Strings/Tests.antt =====
-- Concrete strings, and the theorems at them.
use learn_k.Base.{
  ℕ, zero, suc, ◌≡◌, refl, true, false, none, some, List, [], ◌∷◌, arith, ◌==◌, if◌then◌else◌,
  length,
}
use learn_k.Base.Int.{pos}
use learn_k.Strings.{
  StringView, grow, string_join, string_index, string_last_index, string_has_substring, strncmp_eq,
  index_loop, last_index_loop,
}
use learn_k.Kernel.{Returns, blocked}
use learn_k.Strings.Init.{Answers}
use learn_k.Strings.Substring.{string_has_substring-index}
use learn_k.Strings.Growth.{grow_endless}
use learn_k.Strings.Join.{IsString, Text, string_join_lem, string_join_endless}

-- "aba"
abbrev aba : StringView
aba = record {
  str = λ i. if i == 0 then 97 else if i == 1 then 98 else if i == 2 then 97 else 0;
  len = 3;
  cap = 4;
}

abbrev aba_text : List ℕ
aba_text = 97 ∷ 98 ∷ 97 ∷ []

aba-Text : Text aba_text
aba-Text i h = ground arith

aba-IsString : IsString aba aba_text
aba-IsString = record {
  counts = refl;
  bytes = λ i h. ground arith;
  ends = refl;
  fits = omega arith;
  text = aba-Text;
}

grow_no_end : grow 1000 8192 64 ≡ none
grow_no_end = grow_endless 1000 8192 64 (omega arith) (omega arith)

string_join_lem_example :
    Returns
      (λ _ s. IsString s (97 ∷ 98 ∷ 97 ∷ 97 ∷ 98 ∷ 97 ∷ []))
      (string_join 10 true (λ _. 255) aba_text aba)
string_join_lem_example =
    string_join_lem 10 (λ _. 255) aba aba_text aba_text aba-IsString (omega arith) (omega arith)
      aba-Text

aba_found : string_index aba (97 ∷ []) ≡ pos 0
unfolding string_index index_loop strncmp_eq
aba_found = refl

aba_found_last : string_last_index aba (97 ∷ []) ≡ pos 2
unfolding string_last_index last_index_loop strncmp_eq
aba_found_last = refl

-- 8200 letters
abbrev letters : ℕ → List ℕ
letters zero = []
letters (suc n) = 97 ∷ letters n

length-letters : (n : ℕ) → length (letters n) ≡ n
length-letters zero = refl
length-letters (suc n) = omega (arith, length-letters n)

string_join_endless_example : string_join 1000 false (λ _. 255) (letters 8200) aba ≡ blocked
string_join_endless_example =
    string_join_endless 1000 (λ _. 255) aba aba_text (letters 8200) aba-IsString
      (omega (arith, length-letters 8200)) (omega (arith, length-letters 8200))
      (omega (arith, length-letters 8200)) false

string_has_substring-index_example : string_has_substring 4 aba (98 ∷ 97 ∷ []) ≡ some true
unfolding string_index index_loop strncmp_eq
string_has_substring-index_example =
    string_has_substring-index 4 aba aba_text (98 ∷ 97 ∷ []) aba-IsString (omega arith)
      (omega arith) (omega arith)

-- There is no memory for the copy.
abbrev answers : Answers
answers = record {
  probe = some 1;
  string = some 1;
  buffer = some 64;
  moved = λ i. none;
  copy = none;
  part = some 7;
  garbage = λ _ i. i;
}
