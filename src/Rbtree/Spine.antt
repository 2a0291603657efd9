-- ===== src/Rbtree/Spine.antt =====
-- An implementation of the interface to <linux/rbtree.h>: no rebalancing, and a removal leaves the
-- nodes in one line.
use learn_k.Base.{
  ◌≡◌, refl, ap, ◌∙◌, subst, true, Option, none, List, [], ◌∷◌, ◌++◌, arith, ◌==◌, if◌then◌else◌,
}
use learn_k.Container.Links.{Ptr}
use learn_k.Rbtree.{Tree, leaf, node, entries, head, RbApi}
use learn_k.Rbtree.Entries.{Entry, without, holds, Apart}

module _ {K V : Type 0} where
  abbrev pub line : List (Entry K V) → Tree K V
  line [] = leaf
  line (e ∷ es) = node leaf e (line es)

  pub entries-line : (es : List (Entry K V)) → entries (line es) ≡ es
  entries-line [] = refl
  entries-line (e ∷ es) = ap (λ l. e ∷ l) (entries-line es)

  -- the entry behind the one at `a`
  abbrev next_of : Ptr → List (Entry K V) → Option (Entry K V)
  next_of a [] = none
  next_of a (e ∷ es) = if e.addr == a then head es else next_of a es

  holds-middle :
      (before : List (Entry K V)) (e : Entry K V) (after : List (Entry K V))
      → holds e.addr (before ++ (e ∷ after)) ≡ true
  holds-middle [] e after = ground arith
  holds-middle (x ∷ xs) e after = ground (arith, holds-middle xs e after)

  pub next_of_lem :
      (before : List (Entry K V)) (e : Entry K V) (after : List (Entry K V))
      → Apart (before ++ (e ∷ after))
      → next_of e.addr (before ++ (e ∷ after)) ≡ head after
  next_of_lem [] e after d = ground arith
  next_of_lem (x ∷ xs) e after d =
      ground (arith, next_of_lem xs e after d.1, holds-middle xs e after)

  abbrev pub spine : RbApi K V
  spine = record {
    rb_insert_color = λ a t. t;
    rb_erase = λ a t. line (without a (entries t));
    rb_first = λ t. head (entries t);
    entries-rb_insert_color = λ a t. refl;
    entries-rb_erase = λ a t. entries-line (without a (entries t));
    rb_first_lem = λ t. refl;
    rb_next = λ e t. next_of e.addr (entries t);
    rb_next_lem = λ t before e after d h.
        ap (next_of e.addr) h ∙ next_of_lem before e after (subst Apart h d);
  }
