-- ===== src/Strings/Parts.antt =====
-- The beginning and the end of a string.
use learn_k.Base.{
  ◌^◌, ◌<◌, ℕ, ◌+◌, ◌-◌, ◌≤◌, ◌≡◌, refl, ap, sym, ◌∙◌, Bool, true, false, List, arith, ltb, length,
  length-take, length-drop, ltb→lt, take, drop, Bool-cases, inl, inr,
}
use learn_k.Memory.{slice}
use learn_k.Memory.Laws.{slice_eq_list, take-slice, drop-slice}
use learn_k.Strings.{StringView, string_has_prefix, string_has_suffix}
use learn_k.Strings.Join.{IsString, int_len-text}
use learn_k.Strings.Search.{At, Decides, strncmp_eq_lem}

Decides-iff : (t : Bool) (P Q : Type 0) → (P → Q) → (Q → P) → Decides t P → Decides t Q
Decides-iff true P Q f g d = f d
Decides-iff false P Q f g d = λ q. d (g q)

whole : (s : StringView) (xs : List ℕ) → IsString s xs → slice s.str 0 (length xs) ≡ xs
whole s xs is = slice_eq_list s.str 0 xs (λ i h. ground (arith, is.bytes i h))

-- `string_has_prefix` says whether the string begins with a text below
-- 2^32 bytes, and `string_has_suffix` whether it
-- ends with it.
pub string_has_prefix-suffix :
    (s : StringView) (xs bs : List ℕ)
    → IsString s xs
    → length bs < 2 ^ 32
    → Decides (string_has_prefix s bs) (take (length bs) xs ≡ bs)
      × Decides (string_has_suffix s bs) (drop (length xs - length bs) xs ≡ bs)
unfolding string_has_prefix string_has_suffix
string_has_prefix-suffix s xs bs is small =
    let (size, whole_text) = int_len-text bs small in
    rw (whole_text, size)
      (elim (Bool-cases (ltb s.len (length bs))) [
        | inl longer ↦ rw longer (
          (λ e. absurd (
              omega (
                arith,
                is.counts,
                ltb→lt s.len (length bs) longer,
                ap length e,
                length-take (length bs) xs,
              ))),
          (λ e. absurd (
              omega (
                arith,
                is.counts,
                ltb→lt s.len (length bs) longer,
                ap length e,
                length-drop (length xs - length bs) xs,
              ))),
        )
        | inr fits ↦
            let le : length bs ≤ length xs = ground (arith, is.counts) in
            let begin : take (length bs) xs ≡ slice s.str 0 (length bs) =
              ap (take (length bs)) (sym (whole s xs is))
              ∙ take-slice s.str 0 (length xs) (length bs) le in
            let ending : drop (length xs - length bs) xs
                ≡ slice s.str (s.len - length bs) (length bs) =
              let at : 0 + (length xs - length bs) ≡ s.len - length bs = omega (arith, is.counts) in
              let size : length xs - (length xs - length bs) ≡ length bs = omega (arith, le) in
              ap (drop (length xs - length bs)) (sym (whole s xs is))
              ∙ drop-slice s.str 0 (length xs) (length xs - length bs) (omega arith)
              ∙ rw (at, size) refl in
            rw fits (
              Decides-iff _ (At s.str 0 bs) _ (λ a. begin ∙ a) (λ a. sym begin ∙ a)
                  (strncmp_eq_lem s.str 0 bs),
              Decides-iff _ (At s.str (s.len - length bs) bs) _ (λ a. ending ∙ a)
                  (λ a. sym ending ∙ a) (strncmp_eq_lem s.str (s.len - length bs) bs),
            )
      ])
