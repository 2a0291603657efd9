-- ===== src/Strings/Lifecycle.antt =====
-- What `__do_init` of src/string/main.c prints, and that it frees what it takes.
use learn_k.Base.{ℕ, ◌≡◌, Bool, true, ◌&&◌, Option, none, some, List, [], ◌∷◌, ◌++◌, if◌then◌else◌}
use learn_k.Base.Int.{pos}
use learn_k.Memory.{Bytes}
use learn_k.Kernel.{Run, blocked, oops, done}
use learn_k.Container.Links.{Ptr}
use learn_k.Strings.{
  StringView, string_new_cap, string_join, string_index, string_last_index, string_len, string_char,
  string_has_prefix, string_has_suffix, string_has_substring, string_substring,
}
use learn_k.Printf.{read_text}
use learn_k.Strings.Init.{
  Line, text, string_length, string_is, prefix_a, suffix_bangs, index_is, last_index_is,
  substring_bc, substring_is, State, StringAt, Answers, is_some, join_at, a_text, bc_text, bangs,
  is_text, hello_text, clear,
}

abbrev only_if : {A : Type 0} → Bool → A → Option A
only_if b a = if b then some a else none

-- "abc" and "abc!!"
abbrev abc : List ℕ
abc = a_text ++ bc_text

abbrev abc_bangs : List ℕ
abc_bangs = abc ++ bangs

abbrev pub log : Answers → List Line
log a =
    text abc
    ∷ string_length 5
    ∷ string_is (only_if (is_some a.copy) abc_bangs)
    ∷ prefix_a true
    ∷ suffix_bangs true
    ∷ text (abc_bangs ++ hello_text)
    ∷ index_is (pos 1)
    ∷ last_index_is (pos 23)
    ∷ substring_bc true
    ∷ substring_is (only_if (is_some a.part) bc_text)
    ∷ []

abbrev no_string : StringView
no_string = record { str = λ _. 0; len = 0; cap = 0 }

abbrev get : Option StringView → StringView
get none = no_string
get (some v) = v

abbrev get_joined : Run StringView (Unit {0}) → StringView
get_joined (done _ v) = v
get_joined blocked = no_string
get_joined oops = no_string

module _ (g : ℕ → Bytes) where
  unfoldable v0 : StringView
  unfolding string_new_cap
  v0 = get (string_new_cap true true (g 0) a_text 2)

  unfoldable v1 : StringView
  unfolding string_join v0
  v1 = get_joined (string_join 64 true (g 1) bc_text v0)

  unfoldable v2 : StringView
  unfolding string_join v1
  v2 = get_joined (string_join 64 true (g 2) bangs v1)

  unfoldable v3 : StringView
  unfolding string_join v2
  v3 = get_joined (string_join 64 true (g 3) hello_text v2)

  module _ (p q m : Ptr) (l : List Ptr) (lines : List Line) (apart : clear p m ≡ true) where
    abbrev held : Ptr → State
    held buffer = record { live = buffer ∷ p ∷ l; lines = lines }

    abbrev at : Ptr → StringView → StringAt
    at buffer v = record { addr = p; buffer = buffer; view = v }

abbrev Joins : (g : Bytes) (m : Ptr) (v v' : StringView) → List ℕ → Type 0
Joins g m v v' bs =
    (p q : Ptr) (l : List Ptr) (lines : List Line)
    → clear p m ≡ true
    → join_at 64 (some m) g (record { addr = p; buffer = q; view = v }) bs
        (record { live = q ∷ p ∷ l; lines = lines })
      ≡ done (record { addr = p; buffer = m; view = v' })
          (record { live = m ∷ p ∷ l; lines = lines })

abbrev Prefixed : StringView → StringView → Type 0
Prefixed v1 v2 =
    (read_text 256 v1.str 0 ≡ abc)
    × (string_len v2 ≡ 5)
    × ((b : Bool) → string_char b v2 ≡ only_if b abc_bangs)
    × (string_has_prefix v2 a_text ≡ true)
    × (string_has_suffix v2 bangs ≡ true)

abbrev Searched : StringView → Type 0
Searched v3 =
    (read_text 256 v3.str 0 ≡ abc_bangs ++ hello_text)
    × (string_index v3 bc_text ≡ pos 1)
    × (string_last_index v3 is_text ≡ pos 23)
    × (string_has_substring 64 v3 bc_text ≡ some true)
    × ((b : Bool) → string_substring b v3 (pos 1) (pos 3) ≡ only_if b bc_text)

-- `krealloc` succeeds.
abbrev pub with_krealloc : Answers → (ℕ → Ptr) → Answers
with_krealloc a moved = record a { moved = λ i. some (moved i) }

-- The string leaves its buffers alone.
abbrev pub Clears : Option Ptr → Option Ptr → (ℕ → Ptr) → Type 0
Clears none buffer moved = Unit
Clears (some p) none moved = Unit
Clears (some p) (some q) moved = (clear p q ≡ true) × ((i : ℕ) → clear p (moved i) ≡ true)

abbrev created : Answers → Bool
created a = is_some a.string && is_some a.buffer
