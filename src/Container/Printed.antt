-- ===== src/Container/Printed.antt =====
-- What `to_string` prints.
use learn_k.Base.{
  ℕ, zero, suc, ◌+◌, ◌<◌, ◌≡◌, refl, ap, sym, ◌∙◌, subst, true, false, some, List, [], ◌∷◌, ◌++◌,
  arith, ◌==◌, ==_refl, length, length-append,
}
use mathlib.Core.List.{append_assoc, append-nil}
use learn_k.Base.Int.{ℤ}
use learn_k.Memory.{Bytes}
use learn_k.Kernel.{blocked, Returns, Returns-mono, Returns-bind}
use learn_k.Container.Links.{Ptr, has, ListApi}
use learn_k.Container.Core.{Store, value_at}
use learn_k.Container.Cells.{Cells, addrs, values, Holds, IsList}
use learn_k.Container.Walk.{Walk, Walk-ring}
use learn_k.Container.Text.{put_byte, to_string_loop, to_string, build_string}
use learn_k.Printf.{path_max, Wrote, Prints, snprintf-Prints, Wrote-store, Wrote-nil, Wrote-ends}
use learn_k.Printf.Decimal.{decimal}

-- the values behind the first
abbrev pub render_rest : List ℤ → List ℕ
render_rest [] = []
render_rest (v ∷ vs) = 44 ∷ (decimal v ++ render_rest vs)

abbrev pub render_items : List ℤ → List ℕ
render_items [] = []
render_items (v ∷ vs) = decimal v ++ render_rest vs

-- the values in brackets, with commas between them
abbrev pub render : List ℤ → List ℕ
render vs = 91 ∷ (render_items vs ++ (93 ∷ []))

joined : (t ys zs : List ℕ) → ((t ++ (44 ∷ [])) ++ ys) ++ zs ≡ t ++ (44 ∷ (ys ++ zs))
joined t ys zs = append_assoc (t ++ (44 ∷ [])) ys zs ∙ append_assoc t (44 ∷ []) (ys ++ zs)

has-differs : (a x : Ptr) (xs : List Ptr) → has a xs ≡ true → has x xs ≡ false → (x == a) ≡ false
has-differs a x [] i j = absurd (ground arith)
has-differs a x (y ∷ ys) i j = ground (arith, has-differs a x ys)

module _ (K : ListApi) where
  loop_rest :
      (fuel : ℕ) (s : Store K.Links) (h p : Ptr) (xs : Cells) (t : List ℕ) (out : Bytes × ℕ)
      → Walk K s.links h p (addrs xs)
      → Holds s.value xs
      → ((a : Ptr) → has a (addrs xs) ≡ true → K.list_is_first s.links a h ≡ false)
      → length xs < fuel
      → Wrote t out
      → length t + length (render_rest (values xs)) < path_max
      → Returns
          (λ out' s'. Wrote (t ++ render_rest (values xs)) out' × (s' ≡ s))
          (to_string_loop K fuel h p out s)
  unfolding to_string_loop value_at
  loop_rest zero s h p xs t out w a f e o r = absurd (omega arith)
  loop_rest (suc fuel) s h p [] t out w a f e o r =
      let end : (p == h) ≡ true = ground (arith, w) in
      rw end (subst (λ l. Wrote l out) (sym (append-nil t)) o, refl)
  loop_rest (suc fuel) s h p ((x, v) ∷ xs) t out w a f e o r =
      let t' = (t ++ (44 ∷ [])) ++ decimal v in
      let comma = length-append t (44 ∷ []) in
      let size = length-append (t ++ (44 ∷ [])) (decimal v) in
      let all = length-append (decimal v) (render_rest (values xs)) in
      let one =
        (snprintf-Prints (t ++ (44 ∷ [])) (decimal v) (put_byte 44 out)
          (Wrote-store t 44 out.0 out.1 o) (omega (arith, comma, all, r))).wrote in
      rw (w.0, w.1, value_at, a.0, f x (ground (arith, ==_refl x)))
        (Returns-mono _ _ (to_string_loop K fuel h (K.next s.links x) _ s)
          (λ out' s' q.
            (subst (λ l. Wrote l out') (joined t (decimal v) (render_rest (values xs))) q.0, q.1))
          (loop_rest fuel s h (K.next s.links x) xs t' _ w.2 a.1 (λ b i. f b (ground (arith, i)))
            (omega (arith, e)) one (omega (arith, comma, size, all, r))))

  loop_items :
      (fuel : ℕ) (s : Store K.Links) (h : Ptr) (xs : Cells) (t : List ℕ) (out : Bytes × ℕ)
      → IsList K s h xs
      → length xs < fuel
      → Wrote t out
      → length t + length (render_items (values xs)) < path_max
      → Returns
          (λ out' s'. Wrote (t ++ render_items (values xs)) out' × (s' ≡ s))
          (to_string_loop K fuel h (K.next s.links h) out s)
  unfolding to_string_loop value_at
  loop_items zero s h xs t out is e o r = absurd (omega arith)
  loop_items (suc fuel) s h [] t out is e o r =
      let end = K.next-nil s.links h is.ring in
      rw (end, ==_refl h) (subst (λ l. Wrote l out) (sym (append-nil t)) o, refl)
  loop_items (suc fuel) s h ((x, v) ∷ xs) t out is e o r =
      let w = Walk-ring K s.links h (addrs ((x, v) ∷ xs)) is.ring in
      let size = length-append t (decimal v) in
      let all = length-append (decimal v) (render_rest (values xs)) in
      let one = (snprintf-Prints t (decimal v) out o (omega (arith, all, r))).wrote in
      rw (w.0, w.1, value_at, is.held.0, first_of x (ground (arith, ==_refl x)), w.0, ==_refl x)
        (Returns-mono _ _ (to_string_loop K fuel h (K.next s.links x) _ s)
          (λ out' s' q. (
            subst (λ l. Wrote l out') (append_assoc t (decimal v) (render_rest (values xs))) q.0,
            q.1,
          ))
          (loop_rest fuel s h (K.next s.links x) xs (t ++ decimal v) _ w.2 is.held.1
            (λ b i.
              first_of b (ground (arith, i))
              ∙ ap (λ p. p == b) w.0
              ∙ has-differs b x (addrs xs) i (K.distinct s.links h (x ∷ addrs xs) is.ring).1.0)
            (omega (arith, e)) one (omega (arith, size, all, r))))
    where
      first_of :
          (a : Ptr)
          → has a (x ∷ addrs xs) ≡ true
          → K.list_is_first s.links a h ≡ (K.next s.links h == a)
      first_of a i = K.first_lem s.links h (x ∷ addrs xs) a is.ring i

  -- `to_string` ends and changes nothing in the list. Where there is memory and the text, with its
  -- brackets, has fewer than 4096 bytes, it is the values in brackets with commas between them.
  pub to_string-render :
      (fuel : ℕ) (s : Store K.Links) (h : Ptr) (xs : Cells) (garbage : Bytes)
      → IsList K s h xs
      → length xs < fuel
      → length (render (values xs)) < path_max
      → Returns
          (λ text s'.
            (m : Bytes) × (text ≡ some m)
            × Prints (render (values xs)) (m, length (render (values xs)))
            × (s' ≡ s))
          (to_string K fuel true garbage h s)
  unfolding to_string
  to_string-render fuel s h xs garbage is enough fits =
      Returns-bind _ _ (to_string_loop K fuel h (K.next s.links h) (put_byte 91 (garbage, 0)) s) _
        (loop_items fuel s h xs (91 ∷ []) _ is enough
          (Wrote-store [] 91 garbage 0 (Wrote-nil garbage)) (omega (arith, size, fits)))
        (λ out s' q. (
          _,
          refl,
          Wrote-ends _ _ _ (Wrote-store (91 ∷ render_items (values xs)) 93 out.0 out.1 q.0),
          q.1,
        ))
    where
      size : length (render (values xs)) ≡ length (render_items (values xs)) + 2
      size = ap suc (length-append (render_items (values xs)) (93 ∷ [])) ∙ omega arith

  -- `build_string` does not come back, unless it starts at the head.
  pub build_string-blocked :
      (fuel : ℕ) (head pos : Ptr) (out : Bytes × ℕ) (s : Store K.Links)
      → (pos == head) ≡ false
      → build_string K fuel head pos out s ≡ blocked
  unfolding build_string
  build_string-blocked zero head pos out s h = refl
  build_string-blocked (suc fuel) head pos out s h =
      rw (h, build_string-blocked fuel head pos out s h) refl
