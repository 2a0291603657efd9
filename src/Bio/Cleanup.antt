-- ===== src/Bio/Cleanup.antt =====
-- What `my_module_init` of src/bio/main.c reads back, and what it leaves behind on each path.
use learn_k.Base.{
  ℕ, ◌+◌, ◌<◌, ◌≡◌, refl, ap, ◌∙◌, Bool, true, false, ◌&&◌, Option, none, some, [], ◌∷◌, ◌++◌,
  arith, get_or, if◌then◌else◌,
}
use learn_k.Memory.{Bytes, store, store_all}
use learn_k.Kernel.{Errno, enomem, Ret, val, err}
use learn_k.Strings.Join.{Text}
use mathlib.Core.List.{append_assoc}
use learn_k.Printf.{read_text-Prints}
use learn_k.Bio.{
  BlockApi, Answers, State, hello_world, strcpy, my_module_init, submit_io, write_success,
  read_sector,
}

abbrev is_some : {A : Type 0} → Option A → Bool
is_some none = false
is_some (some a) = true

-- the result, by what the calls answer, and how many bios were taken
abbrev pub outcome : Answers → Ret × ℕ
outcome a = elim a.refused [
  | some e ↦ (err e, 0)
  | none ↦
      if is_some a.read_buffer && is_some a.write_buffer
      then (if a.first_bio
          then (if a.second_bio then (val 0, 2) else (err enomem, 1))
          else (err enomem, 0))
      else (err enomem, 0)
]

Text-hello : Text hello_world
Text-hello i h = ground (arith, h)

module _ (B : BlockApi) where
  -- How a run leaves the module.
  abbrev pub Leaves : State B → Ret × ℕ → Ret × State B → Type 0
  Leaves s expected out =
      (out.0 ≡ expected.0)
      × (out.1.bios ≡ s.bios + expected.1)
      × (out.1.opened ≡ s.opened)
      × (out.1.read_buffer ≡ none)
      × (out.1.write_buffer ≡ none)

  by_answers :
      (refused : Option Errno) (m n : Option Bytes) (first second : Bool) (s : State B)
      → s.read_buffer ≡ none
      → s.write_buffer ≡ none
      → let a : Answers = record {
        refused = refused;
        read_buffer = m;
        write_buffer = n;
        first_bio = first;
        second_bio = second;
      } in
        Leaves s (outcome a) (my_module_init B a s)
  unfolding my_module_init
  by_answers (some e) m n first second s r w = (refl, omega arith, refl, r, w)
  by_answers none none n first second s r w = (refl, omega arith, omega arith, refl, refl)
  by_answers none (some m) none first second s r w = (refl, omega arith, omega arith, refl, refl)
  by_answers none (some m) (some n) false second s r w =
      (refl, omega arith, omega arith, refl, refl)
  by_answers none (some m) (some n) true false s r w = (refl, omega arith, omega arith, refl, refl)
  by_answers none (some m) (some n) true true s r w = (refl, omega arith, omega arith, refl, refl)

  -- From a state with neither buffer, whatever the calls answer, and whether or not the transfers
  -- work, `my_module_init` closes the device if it has opened it, and frees both buffers; but no bio
  -- that it has taken is freed. It fails just where the device cannot be opened or there is no memory.
  pub my_module_init-Leaves :
      (a : Answers) (s : State B)
      → s.read_buffer ≡ none
      → s.write_buffer ≡ none
      → Leaves s (outcome a) (my_module_init B a s)
  my_module_init-Leaves a s r w =
      by_answers a.refused a.read_buffer a.write_buffer a.first_bio a.second_bio s r w

  module _ (m n : Bytes) (s : State B) where
    abbrev answers : Answers
    answers = record {
      refused = none;
      read_buffer = some m;
      write_buffer = some n;
      first_bio = true;
      second_bio = true;
    }

    abbrev written : Bytes
    written = strcpy n hello_world

    abbrev disk : B.Disk
    disk = (B.submit_write 2 written s.disk).1

    hello-bytes : (i : ℕ) → i < 13 → written i ≡ get_or hello_world i 0
    unfolding store store_all
    hello-bytes i h = ground (arith, h)

    hello-ends : written 13 ≡ 0
    unfolding store store_all
    hello-ends = refl

    -- the buffer after a transfer that has worked
    abbrev back : Bytes
    back = (B.submit_read 2 disk m).1

    copied :
        (B.submit_write 2 written s.disk).0 ≡ true
        → (B.submit_read 2 disk m).0 ≡ true
        → (i : ℕ) → i < 512
        → back i ≡ written i
    copied e f i h = B.read_lem 2 disk m f i h ∙ B.write_lem 2 written s.disk e i h

    -- Where all calls succeed and both transfers work, "Hello, World!" is what `my_module_init` reads back
    -- and logs, whatever is behind its terminator.
    pub my_module_init-reads_back :
        (B.submit_write 2 written s.disk).0 ≡ true
        → (B.submit_read 2 disk m).0 ≡ true
        → ((my_module_init B answers s).0 ≡ val 0)
          × ((my_module_init B answers s).1.lines
              ≡ s.lines
                ++ (submit_io 2 ∷ write_success ∷ submit_io 2 ∷ read_sector hello_world ∷ []))
    unfolding my_module_init
    my_module_init-reads_back e f = (
      refl,
      simp append_assoc (
          ap
            (λ text. s.lines ++ (submit_io 2 ∷ write_success ∷ submit_io 2 ∷ read_sector text ∷ []))
            (read_text-Prints 512 hello_world (back, 13)
              (record {
                wrote = record {
                  offset = refl;
                  bytes = λ i h. copied e f i (omega (arith, h)) ∙ hello-bytes i h;
                };
                ends = λ _. copied e f 13 (omega arith) ∙ hello-ends;
              })
              (omega arith) Text-hello (omega arith))),
    )
