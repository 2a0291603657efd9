-- ===== src/Intervals/Sorted.antt =====
-- An implementation of the interface to <linux/interval_tree.h>: a list.
use learn_k.Base.{refl, ◌∙◌, ap, List, subst}
use learn_k.Rbtree.{head}
use learn_k.Rbtree.Entries.{without, Apart}
use learn_k.Intervals.{NodeValue, overlapping, insert_by_start, IntervalApi}
use learn_k.Intervals.Overlap.{next_of, next_of_lem, Apart-overlapping}

abbrev pub sorted : IntervalApi
sorted = record {
  RbRootCached = List NodeValue;
  nodes = λ t. t;
  iter_first = λ t start last. head (overlapping start last t);
  iter_next = λ t n start last. next_of n.addr (overlapping start last t);
  interval_tree_insert = insert_by_start;
  interval_tree_remove = without;
  iter_first_lem = λ t start last. refl;
  iter_next_lem = λ t start last before n after d e.
      ap (next_of n.addr) e
      ∙ next_of_lem before n after (subst Apart e (Apart-overlapping start last t d));
  nodes-insert = λ n t. refl;
  nodes-remove = λ a t. refl;
}
