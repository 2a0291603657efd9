-- ===== src/Hook/BuildPath.antt =====
-- `build_path` and `get_absolute_path`, which src/hook/khook.c and src/hook/main.c have in the same
-- words.
use learn_k.Base.{
  ℕ, ◌≤◌, ◌<◌, ◌≡◌, refl, ◌∙◌, Bool, Option, none, some, List, [], ◌∷◌, ◌++◌, arith, if◌then◌else◌,
  length, length-append,
}
use learn_k.Memory.{Bytes}
use learn_k.Printf.{path_max, snprintf, print_at, Prints, snprintf-Prints, snprintf-within}

-- A `struct dentry *`: the root is its own `d_parent`.
pub data Dentry : Type 0 where
  null : Dentry
  root : Dentry
  child : List ℕ → Dentry → Dentry

-- The buffer and `*offset` afterwards; 47 is the slash.
unfoldable pub build_path : Dentry → Bytes × ℕ → Bytes × ℕ
unfolding snprintf
build_path null s = s
build_path root s = s
build_path (child name d_parent) s = print_at (build_path d_parent s) (47 ∷ name)

-- The flag says whether `kmalloc` succeeds; `garbage` is what the buffer holds at first.
unfoldable pub get_absolute_path : Bool → Bytes → Dentry → Option Bytes
get_absolute_path allocated garbage d =
    if allocated then some (build_path d (garbage, 0)).0 else none

-- the path of a dentry, with its slashes
abbrev pub path_of : Dentry → List ℕ
path_of null = []
path_of root = []
path_of (child name d_parent) = path_of d_parent ++ (47 ∷ name)

nothing : (garbage : Bytes) → Prints [] (garbage, 0)
nothing garbage = record {
  wrote = record { offset = refl; bytes = λ i j. absurd (omega (arith, j)) };
  ends = λ j. absurd (omega (arith, j));
}

-- A path that fits is printed whole.
pub build_path-Prints :
    (d : Dentry) (garbage : Bytes)
    → length (path_of d) < path_max
    → Prints (path_of d) (build_path d (garbage, 0))
unfolding build_path
build_path-Prints null garbage h = nothing garbage
build_path-Prints root garbage h = nothing garbage
build_path-Prints (child name d) garbage h =
    let size = length-append (path_of d) (47 ∷ name) in
    snprintf-Prints (path_of d) (47 ∷ name) (build_path d (garbage, 0))
      (build_path-Prints d garbage (omega (arith, size, h))).wrote (omega (arith, size, h))

-- Whatever the path, no byte behind the buffer is written.
pub build_path-within :
    (d : Dentry) (m : Bytes) (offset i : ℕ) → path_max ≤ i → (build_path d (m, offset)).0 i ≡ m i
unfolding build_path
build_path-within null m offset i h = refl
build_path-within root m offset i h = refl
build_path-within (child name d) m offset i h =
    let (buffer, at) = build_path d (m, offset) in
    snprintf-within buffer at (47 ∷ name) i h ∙ build_path-within d m offset i h
