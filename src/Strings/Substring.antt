-- ===== src/Strings/Substring.antt =====
-- `string_has_substring` of src/string/main.c against `string_index`.
use learn_k.Base.{
  ◌^◌, ℕ, zero, suc, ◌+◌, ◌-◌, ◌<◌, ◌≡◌, refl, ap, ◌∙◌, Bool, true, false, some, List, arith, ltb,
  length, Bool-cases, inl, inr,
}
use learn_k.Base.Int.{ℤ, pos, negsuc}
use learn_k.Memory.{Bytes}
use learn_k.Strings.{
  StringView, strlen_from, strncmp_eq, index_loop, string_index, strstr_from, strstr_places,
  is_place, strstr_found, string_has_substring,
}
use learn_k.Strings.Join.{IsString, int_len-text, strlen_from_lem}

abbrev pub is_found : ℤ → Bool
is_found (pos n) = true
is_found (negsuc n) = false

strstr_from-index_loop :
    (m : Bytes) (bs : List ℕ) (n i : ℕ)
    → is_place (strstr_from m bs n i) ≡ is_found (index_loop m bs n i)
unfolding strstr_from index_loop
strstr_from-index_loop m bs zero i = refl
strstr_from-index_loop m bs (suc n) i = elim (Bool-cases (strncmp_eq m i bs)) [
  | inl e ↦ rw e refl
  | inr e ↦ rw e (strstr_from-index_loop m bs n (i + 1))
]

-- On a string and for a text, both below 2^31 bytes, `string_has_substring` comes back, and holds just where `string_index` finds a place.
pub string_has_substring-index :
    (fuel : ℕ) (s : StringView) (xs bs : List ℕ)
    → IsString s xs
    → length xs < fuel
    → length xs < 2 ^ 31
    → length bs < 2 ^ 31
    → string_has_substring fuel s bs ≡ some (is_found (string_index s bs))
unfolding string_has_substring string_index
string_has_substring-index fuel s xs bs is enough short_string short_text =
    let (size, whole_text) = int_len-text bs (omega arith) in
    rw (whole_text, size)
      (elim (Bool-cases (ltb s.len (length bs))) [
        | inl short ↦ rw short refl
        | inr long ↦
            let fits : strstr_places (length xs) (length bs) ≡ s.len - length bs + 1 =
              ground (arith, is.counts, long) in
            rw (long, strstr_found, found, fits)
              (ap some (strstr_from-index_loop s.str bs (s.len - length bs + 1) 0))
      ])
  where
    found : strlen_from fuel s.str 0 ≡ some (length xs)
    found =
        strlen_from_lem fuel (length xs) s.str 0 (λ j h. ground (arith, is.bytes j, is.text j))
          (ground (arith, is.ends)) enough
        ∙ ap some (omega arith)
