-- ===== src/Ring/Tests.antt =====
-- Rings of capacity two and three.
use zordon.Base.{◌≡◌, refl, true, false, List, [], ◌∷◌, some, arith, pos, Bytes, codes}
use zordon.Ring.{Buffer, new, dump}
use zordon.Ring.Laws.{IsValid, keep_last, push_all, dump-new}

abbrev four : List Bytes
four = codes "a" ∷ codes "b" ∷ codes "c" ∷ codes "d" ∷ []

abbrev wrapped : Buffer
wrapped = record {
  cap = 3;
  lines = codes "d" ∷ codes "b" ∷ codes "c" ∷ [];
  next = 1;
  filled = true;
}

dump-wrapped : dump wrapped ≡ codes "b" ∷ codes "c" ∷ codes "d" ∷ []
unfolding dump
dump-wrapped = refl

wrapped-IsValid : IsValid wrapped
wrapped-IsValid = record { sized = refl; next_in = omega arith }

abbrev fresh : Buffer
fresh = record { cap = 2; lines = [] ∷ [] ∷ []; next = 0; filled = false }

new-two : new (pos 2) ≡ some fresh
unfolding new
new-two = refl

dump-new_example : dump (push_all fresh four) ≡ keep_last 2 four
dump-new_example = dump-new (pos 2) {b = fresh} four new-two
