-- ===== src/Strings/Init.antt =====
-- `__do_init` of src/string/main.c, with the memory it takes and what it prints.
use learn_k.Base.{
  ℕ, ◌+◌, ◌%◌, ◌^◌, Bool, true, false, not, ◌&&◌, leb, Option, none, some, List, [], ◌∷◌, ◌++◌, ltb,
  ◌==◌, if◌then◌else◌, length,
}
use learn_k.Base.Int.{ℤ, pos}
use learn_k.Memory.{Bytes}
use learn_k.Kernel.{Run, done, blocked, oops, ◌>>=◌, ◌>>◌, Ret, err, einval, enomem}
use learn_k.Container.Links.{Ptr, has}
use learn_k.Printf.{read_text}
use learn_k.Strings.{
  StringView, string_new_cap, string_join, string_index, string_last_index, string_len, string_char,
  string_has_prefix, string_has_suffix, string_has_substring, string_substring,
}

-- the lines of the log, by their formats
pub data Line : Type 0 where
  failed_to_create : Line
  text : List ℕ → Line
  string_length : ℕ → Line
  string_is : Option (List ℕ) → Line
  prefix_a : Bool → Line
  suffix_bangs : Bool → Line
  index_is : ℤ → Line
  last_index_is : ℤ → Line
  substring_bc : Bool → Line
  substring_is : Option (List ℕ) → Line

-- the blocks that are allocated, and the log
pub record State : Type 0 where
  pub live : List Ptr
  pub lines : List Line

abbrev pub Cmd : Type 0 → Type 0
Cmd A = State → Run State A

abbrev pub ret : {A : Type 0} → A → Cmd A
ret a s = done a s

abbrev pub printk : Line → Cmd (Unit {0})
printk l s = done tt (record s { lines = s.lines ++ (l ∷ []) })

-- a loop that may not end
abbrev pub ended : {A : Type 0} → Option A → Cmd A
ended none s = blocked
ended (some a) s = done a s

-- The answer is the address of the block; `none` for no memory.
abbrev pub kmalloc : Option Ptr → Cmd (Option Ptr)
kmalloc none s = done none s
kmalloc (some p) s = done (some p) (record s { live = p ∷ s.live })

abbrev pub drop_one : Ptr → List Ptr → List Ptr
drop_one p [] = []
drop_one p (q ∷ qs) = if p == q then qs else q ∷ drop_one p qs

abbrev pub kfree : Option Ptr → Cmd (Unit {0})
kfree none s = done tt s
kfree (some p) s = if has p s.live then done tt (record s { live = drop_one p s.live }) else oops

abbrev pub is_some : {A : Type 0} → Option A → Bool
is_some none = false
is_some (some a) = true

-- A copy is made, if there is memory for it, is printed and is freed.
unfoldable pub show_block : Option Ptr → (Bool → Line) → Cmd (Unit {0})
show_block answer line = do block ← kmalloc answer; printk (line (is_some block)); kfree block

-- a `string_t`, with the address of its buffer
pub record StringAt : Type 0 where
  pub addr : Ptr
  pub buffer : Ptr
  pub view : StringView

-- What the allocations answer: the block of 64 bytes, the string, its buffer, the buffers that
-- `krealloc` moves it to, `string_char` and `string_substring`; and what new memory holds.
pub record Answers : Type 0 where
  pub probe : Option Ptr
  pub string : Option Ptr
  pub buffer : Option Ptr
  pub moved : ℕ → Option Ptr
  pub copy : Option Ptr
  pub part : Option Ptr
  pub garbage : ℕ → Bytes

-- `kmalloc(sizeof(string_t))` asks for 8 bytes, but `struct string_view` takes 24: whether it leaves
-- the block at `q` alone. What happens if not is undefined.
abbrev pub clear : Ptr → Ptr → Bool
clear p q = not (leb p q && ltb q (p + 24))

-- what is behind the first `kmalloc`
abbrev pub new_buffer : Option Ptr → Option Ptr → StringView → Cmd (Option StringAt)
new_buffer none buffer view = ret none
new_buffer (some p) none view = do kfree (some p); ret none
new_buffer (some p) (some q) view =
    if clear p q then ret (some (record { addr = p; buffer = q; view = view })) else λ _. oops

unfoldable pub new_string : Answers → List ℕ → ℕ → Cmd (Option StringAt)
new_string a str cap = elim (string_new_cap true true (a.garbage 0) str cap) [
  | none ↦ ret none
  | some view ↦ (do
    p ← kmalloc a.string
    q ← if is_some p then kmalloc a.buffer else ret none
    new_buffer p q view)
]

-- `krealloc` moves the buffer to `moved`, if there is memory.
abbrev pub move_buffer : Option Ptr → StringAt → StringView → Cmd StringAt
move_buffer none s view = λ _. oops
move_buffer (some moved) s view =
    if clear s.addr moved
    then (do
      kfree (some s.buffer)
      kmalloc (some moved)
      ret (record { addr = s.addr; buffer = moved; view = view }))
    else λ _. oops

-- whether the string stays, and how it moves if not
abbrev pub moves : Option Ptr → StringAt → StringView → Bool → Cmd StringAt
moves moved s view true = ret (record s { view = view })
moves moved s view false = move_buffer moved s view

-- the string that a command leaves, in the state of the module
abbrev pub joined : Run StringView (Unit {0}) → Cmd StringView
joined (done _ view) s = done view s
joined blocked s = blocked
joined oops s = oops

-- `string_join`, which moves the buffer where it grows.
unfoldable pub join_at : ℕ → Option Ptr → Bytes → StringAt → List ℕ → Cmd StringAt
join_at fuel moved garbage s str = do
  view ← joined (string_join fuel (is_some moved) garbage str s.view)
  moves moved s view (ltb ((s.view.len + length str) % 2 ^ 32) s.view.cap)

unfoldable pub string_free : StringAt → Cmd (Unit {0})
string_free s = do kfree (some s.buffer); kfree (some s.addr)

-- At most 256 bytes are shown.
abbrev pub string_print : StringAt → Cmd (Unit {0})
string_print s = printk (text (read_text 256 s.view.str 0))

-- "a", "bc", "!!" and "hello world, this is a test"; "is"
abbrev pub a_text : List ℕ
a_text = 97 ∷ []

abbrev pub bc_text : List ℕ
bc_text = 98 ∷ 99 ∷ []

abbrev pub bangs : List ℕ
bangs = 33 ∷ 33 ∷ []

abbrev pub is_text : List ℕ
is_text = 105 ∷ 115 ∷ []

abbrev pub hello_text : List ℕ
hello_text =
    104 ∷ 101 ∷ 108 ∷ 108 ∷ 111 ∷ 32 ∷ 119 ∷ 111 ∷ 114 ∷ 108 ∷ 100 ∷ 44 ∷ 32 ∷ 116 ∷ 104 ∷ 105 ∷ 115
    ∷ 32 ∷ 105 ∷ 115 ∷ 32 ∷ 97 ∷ 32 ∷ 116 ∷ 101 ∷ 115 ∷ 116 ∷ []

-- the calls on the new string
unfoldable pub use_string : ℕ → Answers → StringAt → Cmd Ret
use_string fuel a s₀ = do
  s₁ ← join_at fuel (a.moved 0) (a.garbage 1) s₀ bc_text
  string_print s₁
  s₂ ← join_at fuel (a.moved 1) (a.garbage 2) s₁ bangs
  printk (string_length (string_len s₂.view))
  show_block a.copy (λ b. string_is (string_char b s₂.view))
  printk (prefix_a (string_has_prefix s₂.view a_text))
  printk (suffix_bangs (string_has_suffix s₂.view bangs))
  s₃ ← join_at fuel (a.moved 2) (a.garbage 3) s₂ hello_text
  string_print s₃
  printk (index_is (string_index s₃.view bc_text))
  printk (last_index_is (string_last_index s₃.view is_text))
  found ← ended (string_has_substring fuel s₃.view bc_text)
  printk (substring_bc found)
  show_block a.part (λ b. substring_is (string_substring b s₃.view (pos 1) (pos 3)))
  string_free s₃
  ret (err einval)

-- what is behind the check of the new string
abbrev pub start : ℕ → Answers → Option StringAt → Cmd Ret
start fuel a none = do printk failed_to_create; ret (err enomem)
start fuel a (some s) = use_string fuel a s

unfoldable pub do_init : ℕ → Answers → Cmd Ret
unfolding use_string
do_init fuel a = do str ← kmalloc a.probe; kfree str; s ← new_string a a_text 2; start fuel a s
