-- ===== src/Env/PathList.antt =====
-- zenv.go, `PrependPath` and `AppendPath`: the entries of a list variable such as PATH.
use zordon.Base.{
  free, mem, not, ℕ, ◌≡◌, ◌≢◌, inl, inr, refl, sym, ap, ap₂, ◌∙◌, Bool, true, false, ◌&&◌, List, [],
  ◌∷◌, ◌++◌, append-nil, some, arith, Bool-cases, List-cases, ◌==◌, ==_iff, if◌then◌else◌, Bytes,
  equal, equal_iff, equal_refl, lookup, insert, lookup-insert,
}
use zordon.Env.Overlay.{AllDistinct, firsts, dedup_lem, dedup-firsts}
use zordon.Env.{
  Vars, dedup, join_strings, value_or_empty, stacked, path_join, prepend_path, append_path,
}

unfoldable pub all_free : ℕ → List Bytes → Bool
unfolding free
all_free c [] = true
all_free c (d ∷ ds) = free c d && all_free c ds

abbrev pub push_front : ℕ → List Bytes → List Bytes
push_front b [] = (b ∷ []) ∷ []
push_front b (d ∷ ds) = (b ∷ d) ∷ ds

-- the texts between the bytes `c`
unfoldable pub split : ℕ → Bytes → List Bytes
split c [] = [] ∷ []
split c (b ∷ s) = let rest = split c s in if b == c then [] ∷ rest else push_front b rest

-- the entries of a list variable: none if it is empty
abbrev pub entries : ℕ → Bytes → List Bytes
entries c [] = []
entries c (b ∷ s) = split c (b ∷ s)

split-ne-nil : (c : ℕ) (s : Bytes) → split c s ≢ []
unfolding split
split-ne-nil c [] = cc
split-ne-nil c (b ∷ s) = elim (Bool-cases (b == c)) [
  | inl t ↦ rw t (cc)
  | inr t ↦ rw t (push_front-ne-nil (split c s))
]
  where
    push_front-ne-nil : (ds : List Bytes) → push_front b ds ≢ []
    push_front-ne-nil [] = cc
    push_front-ne-nil (d ∷ ds) = cc

push_front-append :
    (b : ℕ) (xs ys : List Bytes) → xs ≢ [] → push_front b xs ++ ys ≡ push_front b (xs ++ ys)
push_front-append b [] ys h = absurd (h refl)
push_front-append b (x ∷ xs) ys h = refl

split-append : (c : ℕ) (a b : Bytes) → split c (a ++ c ∷ b) ≡ split c a ++ split c b
unfolding split
split-append c [] b = ground (arith, ==_iff c c)
split-append c (x ∷ a) b =
    ground
      (arith, split-append c a b, push_front-append x (split c a) (split c b) (split-ne-nil c a))

split-free : (c : ℕ) (d : Bytes) → free c d ≡ true → split c d ≡ d ∷ []
unfolding split free
split-free c [] h = refl
split-free c (b ∷ d) h = ground (arith, split-free c d)

one_more : (c : ℕ) (s : Bytes) → (c ∷ []) ++ s ≡ c ∷ s
one_more c s = refl

split-join_strings :
    (c : ℕ) (d : Bytes) (ds : List Bytes)
    → all_free c (d ∷ ds) ≡ true
    → split c (join_strings (c ∷ []) (d ∷ ds)) ≡ d ∷ ds
unfolding join_strings all_free
split-join_strings c d [] h = split-free c d (ground arith)
split-join_strings c d (e ∷ ds) h =
    ap (λ s. split c (d ++ s)) (one_more c (join_strings (c ∷ []) (e ∷ ds)))
    ∙ split-append c d (join_strings (c ∷ []) (e ∷ ds))
    ∙ ap₂ (λ xs ys. xs ++ ys) (split-free c d (ground arith))
        (split-join_strings c e ds (ground arith))

all_free-dedup :
    (c : ℕ) (seen ds : List Bytes) → all_free c ds ≡ true → all_free c (dedup seen ds) ≡ true
unfolding all_free dedup
all_free-dedup c seen [] h = refl
all_free-dedup c seen (d ∷ ds) h =
    ground (arith, all_free-dedup c seen ds, all_free-dedup c (d ∷ seen) ds)

-- the head of what `dedupStrings` returns is not empty
dedup_head : (seen s : List Bytes) {d : Bytes} {ds : List Bytes} → dedup seen s ≡ d ∷ ds → d ≢ []
unfolding dedup
dedup_head seen [] e = cc
dedup_head seen (v ∷ s) {d} {ds} e =
    ground (arith, dedup_head seen s {d = d} {ds = ds}, equal_iff v [])

join_strings_cons : (sep d : Bytes) (ds : List Bytes) → d ≢ [] → join_strings sep (d ∷ ds) ≢ []
unfolding join_strings
join_strings_cons sep [] ds h = absurd (h refl)
join_strings_cons sep (b ∷ d) [] h = cc
join_strings_cons sep (b ∷ d) (e ∷ ds) h = cc

entries-ne : (c : ℕ) (s : Bytes) → s ≢ [] → entries c s ≡ split c s
entries-ne c [] h = absurd (h refl)
entries-ne c (b ∷ s) h = refl

append-ne-nil : (a : Bytes) (c : ℕ) (b : Bytes) → a ++ c ∷ b ≢ []
append-ne-nil [] c b = cc
append-ne-nil (x ∷ a) c b = cc

-- where the new directories go
abbrev pub on_end : Bool → List Bytes → List Bytes → List Bytes
on_end true added old = added ++ old
on_end false added old = old ++ added

entries-stacked :
    (c : ℕ) (prepend : Bool) (cur d : Bytes) (ds : List Bytes)
    → d ≢ []
    → all_free c (d ∷ ds) ≡ true
    → entries c (stacked (c ∷ []) prepend cur (join_strings (c ∷ []) (d ∷ ds)))
      ≡ on_end prepend (d ∷ ds) (entries c cur)
unfolding stacked equal
entries-stacked c true [] d ds n f =
    entries-ne c _ (join_strings_cons (c ∷ []) d ds n)
    ∙ split-join_strings c d ds f
    ∙ sym (append-nil _)
entries-stacked c false [] d ds n f =
    entries-ne c _ (join_strings_cons (c ∷ []) d ds n) ∙ split-join_strings c d ds f
entries-stacked c true (b ∷ cur) d ds n f =
    entries-ne c _ (append-ne-nil (join_strings (c ∷ []) (d ∷ ds)) c (b ∷ cur))
    ∙ split-append c (join_strings (c ∷ []) (d ∷ ds)) (b ∷ cur)
    ∙ ap (λ xs. xs ++ split c (b ∷ cur)) (split-join_strings c d ds f)
entries-stacked c false (b ∷ cur) d ds n f =
    split-append c (b ∷ cur) (join_strings (c ∷ []) (d ∷ ds))
    ∙ ap (λ xs. split c (b ∷ cur) ++ xs) (split-join_strings c d ds f)

-- the entries of a variable
abbrev pub entries_at : ℕ → Bytes → Vars → List Bytes
entries_at c key e = entries c (value_or_empty (lookup key e))

on_end-nil : (prepend : Bool) (old : List Bytes) → on_end prepend [] old ≡ old
on_end-nil true old = refl
on_end-nil false old = append-nil old

lookup-insert_same : (k v : Bytes) (m : Vars) → lookup k (insert k v m) ≡ some v
lookup-insert_same k v m = lookup-insert k k v m ∙ (rw (equal_refl k) refl)

path_join_lem :
    (c : ℕ) (e : Vars) (key : Bytes) (dirs : List Bytes) (prepend : Bool)
    → all_free c dirs ≡ true
    → (entries_at c key (path_join (c ∷ []) e key dirs prepend)
        ≡ on_end prepend (dedup [] dirs) (entries_at c key e))
      × ((j : Bytes)
          → equal key j ≡ false
          → lookup j (path_join (c ∷ []) e key dirs prepend) ≡ lookup j e)
unfolding path_join
path_join_lem c e key dirs prepend f = elim (List-cases (dedup [] dirs)) [
  | inl none_left ↦
      rw (none_left, path_join) (sym (on_end-nil prepend (entries_at c key e)), λ j h. refl)
  | inr (d, ds, q) ↦
      rw (q, path_join)
        (
          ap (λ o. entries c (value_or_empty o)) (lookup-insert_same key _ e)
              ∙ entries-stacked c prepend (value_or_empty (lookup key e)) d ds
                  (dedup_head [] dirs q) (rw q at (all_free-dedup c [] dirs f)),
          λ j h. lookup-insert key j _ e ∙ rw h refl,
        )
]

-- For directories that do not hold the list separator: `PrependPath` puts them before the entries
-- of the variable, and `AppendPath` puts them after. They are put in the order of their first
-- occurrences, each once and without the empty ones, and no other entries are added. Both leave
-- every other variable as it was. An unset or empty variable has no entries.
pub path_join-entries :
    (c : ℕ) (e : Vars) (key : Bytes) (dirs : List Bytes)
    → all_free c dirs ≡ true
    → (entries_at c key (prepend_path (c ∷ []) e key dirs) ≡ firsts dirs ++ entries_at c key e)
      × (entries_at c key (append_path (c ∷ []) e key dirs) ≡ entries_at c key e ++ firsts dirs)
      × AllDistinct (firsts dirs)
      × ((d : Bytes) → mem d (firsts dirs) ≡ (mem d dirs && not (equal d [])))
      × ((j : Bytes)
          → equal key j ≡ false
          → (lookup j (prepend_path (c ∷ []) e key dirs) ≡ lookup j e)
            × (lookup j (append_path (c ∷ []) e key dirs) ≡ lookup j e))
unfolding prepend_path append_path
path_join-entries c e key dirs f =
    let (a, b) = path_join_lem c e key dirs true f in
    let (a', b') = path_join_lem c e key dirs false f in
    let (distinct, members) = dedup_lem dirs in
    (
      rw (← dedup-firsts dirs) a,
      rw (← dedup-firsts dirs) a',
      rw (← dedup-firsts dirs) distinct,
      (λ d. rw (← dedup-firsts dirs) (members d)),
      λ j h. (b j h, b' j h),
    )
