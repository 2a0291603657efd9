-- ===== src/Rbtree/Representation.antt =====
-- What a search tree of src/rbtree/main.c is, whatever its shape: how the tree is balanced shows in
-- no result.
use learn_k.Base.{ℕ, ◌≡◌, refl, sym, ◌∙◌, subst, Option, none, some, List, [], ◌∷◌}
use mathlib.Core.Equiv.{◌≃◌, iso_to_equiv}
use mathlib.Core.HLevel.{Σ_prop_path}
use mathlib.Core.Quot
use mathlib.Core.Quot.{Quot, Quot-set}
use learn_k.Base.Int.{ℤ}
use learn_k.Container.Links.{Ptr}
use learn_k.Rbtree.Keys.{int_order}
use learn_k.Rbtree.Entries.{Entry, without, Over, Sorted, find, insert_in}
use learn_k.Rbtree.{Tree, entries, RbApi, search_node, place}
use learn_k.Rbtree.Spine.{line, entries-line}
use learn_k.Rbtree.Search.{search_node_lem, Placed, place_lem}

Over-prop : (k : ℤ) (es : List (Entry ℤ (List ℕ))) → IsProp (Over k es)
Over-prop k [] = hlevel
Over-prop k (e ∷ es) = hlevel (Over-prop k es)

Sorted-prop : (es : List (Entry ℤ (List ℕ))) → IsProp (Sorted es)
Sorted-prop [] = hlevel
Sorted-prop (e ∷ es) = hlevel (Over-prop e.key es, Sorted-prop es)

Entry-set : IsSet (Entry ℤ (List ℕ))
Entry-set = hlevel

abbrev pub SearchTree : Type 0
SearchTree = (t : Tree ℤ (List ℕ)) × Sorted (entries t)

-- Two trees hold the same entries.
abbrev pub SameEntries : SearchTree → SearchTree → Type 0
SameEntries t u = entries t.0 ≡ entries u.0

abbrev pub Index : Type 0
Index = Quot SameEntries

abbrev pub SortedEntries : Type 0
SortedEntries = (es : List (Entry ℤ (List ℕ))) × Sorted es

SortedEntries-set : IsSet SortedEntries
SortedEntries-set = hlevel (Entry-set, Sorted-prop)

SortedEntries-ext : (a b : SortedEntries) → a.0 ≡ b.0 → a ≡ b
SortedEntries-ext a b h = Σ_prop_path (λ es. Sorted-prop es) h

unfoldable listing : Index → SortedEntries
listing = Quot.lift SortedEntries-set (λ t. (entries t.0, t.1)) (λ t u h. SortedEntries-ext _ _ h)

unfoldable in_line : SortedEntries → Index
in_line (es, s) = Quot.mk (line es, subst Sorted (sym (entries-line es)) s)

listing-in_line : (a : SortedEntries) → listing (in_line a) ≡ a
unfolding listing in_line
listing-in_line (es, s) = SortedEntries-ext _ (es, s) (entries-line es)

in_line-listing : (i : Index) → in_line (listing i) ≡ i
unfolding listing in_line
in_line-listing = Quot.ind (λ i. Quot-set _ _) (λ t. Quot.sound (entries-line (entries t.0)))

abbrev pub new_entry : Ptr → ℤ → List ℕ → Entry ℤ (List ℕ)
new_entry p key text = record { addr = p; key = key; value = text }

-- What the place for a key is to the list `es`: an entry has the key; or none has, and the tree that
-- comes of hanging a new entry there and balancing has the entry at its place.
abbrev pub Hung :
    RbApi ℤ (List ℕ)
    → List (Entry ℤ (List ℕ))
    → ℤ
    → Option (Entry ℤ (List ℕ) → Tree ℤ (List ℕ))
    → Type 0
Hung B es key none = (e : Entry ℤ (List ℕ)) × (find key es ≡ some e)
Hung B es key (some hang) =
    (find key es ≡ none)
    × ((p : Ptr) (text : List ℕ)
        → entries (B.rb_insert_color p (hang (new_entry p key text)))
          ≡ insert_in (new_entry p key text) es)

hung :
    (B : RbApi ℤ (List ℕ)) (t : Tree ℤ (List ℕ)) (key : ℤ)
    (q : Option (Entry ℤ (List ℕ) → Tree ℤ (List ℕ)))
    → Placed key t q
    → Hung B (entries t) key q
hung B t key none p = p
hung B t key (some hang) p = (
  p.0,
  λ a text.
      B.entries-rb_insert_color a (hang (new_entry a key text)) ∙ p.1 (new_entry a key text) refl,
)

-- The quotient is the sorted lists, and what the operations are on these.
abbrev pub Listed : RbApi ℤ (List ℕ) → Type 0
Listed B =
    (e : Index ≃ SortedEntries) × ((t : SearchTree) (key : ℤ)
      → (search_node key t.0 ≡ find key (e.0 (Quot.mk t)).0)
        × Hung B (e.0 (Quot.mk t)).0 key (place key t.0))
    × ((t : SearchTree) (a : Ptr) → entries (B.rb_erase a t.0) ≡ without a (e.0 (Quot.mk t)).0)

-- The trees, up to the entries they hold, are the sorted lists of entries. On these, `search_node`
-- is the search in the list; the walk of `insert_node` finds the entry with the key, or that there
-- is none and where the new one comes in the list; and erasing a node is leaving it out.
pub Index-listing : (B : RbApi ℤ (List ℕ)) → Listed B
unfolding listing
Index-listing B = (
  iso_to_equiv
      (record { fun = listing; inv = in_line; rinv = listing-in_line; linv = in_line-listing }),
  λ t key. (search_node_lem key t.0 t.1, hung B t.0 key (place key t.0) (place_lem key t.0 t.1)),
  λ t a. B.entries-rb_erase a t.0,
)
