-- ===== src/Kernel/User.antt =====
-- The memory of a user process as the kernel sees it: `copy_to_user` and `copy_from_user`.
use learn_k.Base.{ℕ, ◌≡◌, true, List, length, ◌==◌, ==_iff}

-- `view u a n` is what the process has at the `n` bytes from address `a`. Both copies return the
-- number of bytes that could not be copied. `copy_from_user` fills all of its target, the part
-- that could not be read included, so it comes with the bytes that the target holds afterwards.
pub record UserMem : Type 1 where
  pub User : Type 0
  pub view : User → ℕ → ℕ → List ℕ
  pub copy_to_user : User → ℕ → List ℕ → ℕ × User
  pub copy_from_user : User → ℕ → ℕ → ℕ × List ℕ
  pub length-copy_from_user : (u : User) (a n : ℕ) → length (copy_from_user u a n).1 ≡ n
  pub copy_from_user-view :
      (u : User) (a n : ℕ) → (copy_from_user u a n).0 ≡ 0 → (copy_from_user u a n).1 ≡ view u a n
  pub view-copy_to_user :
      (u : User) (a : ℕ) (bs : List ℕ)
      → (copy_to_user u a bs).0 ≡ 0
      → view (copy_to_user u a bs).1 a (length bs) ≡ bs

-- A copy to the process that leaves nothing is seen there.
pub view-copy_of_length :
    (U : UserMem) (u : U.User) (a n : ℕ) (bs : List ℕ)
    → length bs ≡ n
    → ((U.copy_to_user u a bs).0 == 0) ≡ true
    → U.view (U.copy_to_user u a bs).1 a n ≡ bs
view-copy_of_length U u a n bs e ok = rw (← e) (U.view-copy_to_user u a bs ((==_iff _ 0).0 ok))

-- A copy from the process that leaves nothing is what the process has.
pub copied-view :
    (U : UserMem) (u : U.User) (a n : ℕ)
    → ((U.copy_from_user u a n).0 == 0) ≡ true
    → (U.copy_from_user u a n).1 ≡ U.view u a n
copied-view U u a n ok = U.copy_from_user-view u a n ((==_iff _ 0).0 ok)
