-- ===== src/Dump/Tests.antt =====
-- The record that the module packs.
use learn_k.Base.{◌≡◌, true, none, some, [], ◌∷◌, arith}
use learn_k.Strings.Join.{Text}
use learn_k.Dump.{Params, marshal, ok, unmarshal}
use learn_k.Kernel.{done, err, einval}
use learn_k.Dump.Init.{hello, all_there, do_init, do_init-leaks}
use learn_k.Dump.RoundTrip.{Within, unmarshal-marshal}

abbrev hi : Params
hi = record { id = 70000; name = 104 ∷ 105 ∷ [] }

hi-Text : Text hi.name
hi-Text i h = ground arith

unmarshal-marshal_example :
    (elim (marshal true (λ _. 7) hi) [ none ↦ none | some b ↦ unmarshal 10 true b.bytes ]
      ≡ some (ok hi))
    × Within (λ _. 7) hi (omega arith) hi-Text (marshal true (λ _. 7) hi)
unmarshal-marshal_example =
    unmarshal-marshal (λ _. 7) hi (omega arith) hi-Text 10 (omega arith) (omega arith)

module_run : do_init 13 all_there (λ _. 7) 2 ≡ done (some (1, some hello.name), err einval) 6
module_run = do_init-leaks (λ _. 7) 13 2 (omega arith)
