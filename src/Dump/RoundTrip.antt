-- ===== src/Dump/RoundTrip.antt =====
-- `unmarshal` after `marshal`.
use learn_k.Base.{
  Option, ◌≤◌, ℕ, ◌+◌, ◌-◌, ◌^◌, ◌<◌, ◌≡◌, ap, sym, ◌∙◌, true, none, some, [], ◌∷◌, ◌++◌, arith,
  length, length-append, get_or,
}
use learn_k.Memory.{Bytes, store_all, slice}
use learn_k.Memory.Laws.{slice_eq_list}
use learn_k.Strings.{strlen_from}
use learn_k.Strings.Join.{Text, get_or-append, strlen_from_lem}
use learn_k.Dump.{Params, Block, to_bytes, from_bytes, marshal, ok, unmarshal}

module _ (garbage : Bytes) (p : Params) (small : p.id < 2 ^ 32) (text : Text p.name) where
  abbrev packed : Bytes
  packed = store_all (store_all garbage 0 (to_bytes p.id)) 4 (p.name ++ (0 ∷ []))

  name_at : (j : ℕ) → j < length p.name → packed (4 + j) ≡ get_or p.name j 0
  unfolding store_all
  name_at j h = ground (arith, length-append p.name (0 ∷ []), get_or-append p.name (0 ∷ []) j)

  end_at : packed (4 + length p.name) ≡ 0
  unfolding store_all
  end_at =
      ground (arith, length-append p.name (0 ∷ []), get_or-append p.name (0 ∷ []) (length p.name))

  id_back : from_bytes packed ≡ p.id
  unfolding store_all
  id_back = ground arith

  end_found :
      (fuel : ℕ) → length p.name < fuel → strlen_from fuel packed 4 ≡ some (4 + length p.name)
  end_found fuel enough =
      strlen_from_lem fuel (length p.name) packed 4 (λ j h e. text j h (sym (name_at j h) ∙ e))
        end_at enough

  name_back : (n : ℕ) → n ≡ length p.name → slice packed 4 n ≡ p.name
  name_back n e = ap (slice packed 4) e ∙ slice_eq_list packed 4 p.name name_at

  -- Where the block ends, nothing changes.
  abbrev pub Within : Option Block → Type 0
  Within none = Unit
  Within (some b) = (i : ℕ) → b.size ≤ i → b.bytes i ≡ garbage i

  -- A number below 2^32 and a name of nonzero bytes, fewer than 2^31 - 5, come back from the bytes that
  -- they were packed into, if there is memory, and nothing behind the block is written.
  pub unmarshal-marshal :
      (fuel : ℕ)
      → length p.name < fuel
      → length p.name + 5 < 2 ^ 31
      → (elim (marshal true garbage p) [ none ↦ none | some b ↦ unmarshal fuel true b.bytes ]
          ≡ some (ok p))
        × Within (marshal true garbage p)
  unfolding marshal unmarshal store_all
  unmarshal-marshal fuel enough short = (
    ground (arith, end_found fuel enough, id_back, name_back (4 + length p.name - 4) (omega arith)),
    λ i h. ground (arith, length-append p.name (0 ∷ [])),
  )
