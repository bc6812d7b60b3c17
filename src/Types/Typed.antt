-- ===== src/Types/Typed.antt =====
-- ztypes.go, `Convert`: the types of the values that it returns.
use zordon.Base.{
  ℕ, suc, ◌≡◌, inl, inr, true, false, List, [], ◌∷◌, Option, none, some, Bool-cases, if◌then◌else◌,
  codes, equal,
}
use zordon.Types.Cty.{
  Cty, View, null_view, unknown_view, other_view, bool_view, string_view, number_view,
  sequence_view, entries_view, AllOf, IsLawful,
}
use zordon.Types.Convert.{
  Place, Converted, value, failed, panicked, and_then, made, each, pass_through, convert_bool,
  convert_string, convert_number, convert_list, parsed_number, index,
}

module _ (c : Cty) (l : IsLawful c) where
  -- A value of the type, or an error; never a panic.
  abbrev pub Typed : c.CtyType → Converted c.Value → Type 0
  Typed t (value v) = c.type_of v ≡ t
  Typed t (failed e) = Unit
  Typed t panicked = ⊥

  AllTyped : c.CtyType → Converted (List c.Value) → Type 0
  AllTyped t (value vs) = AllOf c t vs
  AllTyped t (failed e) = Unit
  AllTyped t panicked = ⊥

  pub Typed-pass_through :
      (t : c.CtyType) (w : View c.Value c.Number) (r : Converted c.Value)
      → Typed t r
      → Typed t (pass_through c t w r)
  Typed-pass_through t null_view r h = l.null_type t
  Typed-pass_through t unknown_view r h = l.unknown_type t
  Typed-pass_through t other_view r h = h
  Typed-pass_through t (bool_view b) r h = h
  Typed-pass_through t (string_view s) r h = h
  Typed-pass_through t (number_view n) r h = h
  Typed-pass_through t (sequence_view vs) r h = h
  Typed-pass_through t (entries_view es) r h = h

  pub Typed-convert_bool :
      (v : c.Value) (at : Place) (w : View c.Value c.Number)
      → c.view v ≡ w
      → Typed c.bool_type (convert_bool c v at w)
  unfolding convert_bool
  Typed-convert_bool v at (bool_view b) e = l.bool_seen v b e
  Typed-convert_bool v at (string_view s) e = elim (Bool-cases (equal s (codes "true"))) [
    | inl t ↦ rw t (l.bool_made true)
    | inr t ↦ elim (Bool-cases (equal s (codes "false"))) [
      | inl f ↦ rw (t, f) (l.bool_made false)
      | inr f ↦ rw (t, f) tt
    ]
  ]
  Typed-convert_bool v at null_view e = tt
  Typed-convert_bool v at unknown_view e = tt
  Typed-convert_bool v at other_view e = tt
  Typed-convert_bool v at (number_view n) e = tt
  Typed-convert_bool v at (sequence_view vs) e = tt
  Typed-convert_bool v at (entries_view es) e = tt

  pub Typed-convert_string :
      (v : c.Value) (at : Place) (w : View c.Value c.Number)
      → c.view v ≡ w
      → Typed c.string_type (convert_string c v at w)
  unfolding convert_string
  Typed-convert_string v at (string_view s) e = l.string_seen v s e
  Typed-convert_string v at (bool_view b) e =
      l.string_made (if b then codes "true" else codes "false")
  Typed-convert_string v at (number_view n) e = l.string_made (c.number_text n)
  Typed-convert_string v at null_view e = tt
  Typed-convert_string v at unknown_view e = tt
  Typed-convert_string v at other_view e = tt
  Typed-convert_string v at (sequence_view vs) e = tt
  Typed-convert_string v at (entries_view es) e = tt

  pub Typed-convert_number :
      (v : c.Value) (at : Place) (w : View c.Value c.Number)
      → c.view v ≡ w
      → Typed c.number_type (convert_number c v at w)
  unfolding convert_number
  Typed-convert_number v at (number_view n) e = l.number_seen v n e
  Typed-convert_number v at (string_view s) e = go (c.parse_number s)
    where
      go : (r : Option c.Number) → Typed c.number_type (parsed_number c at r)
      go none = tt
      go (some n) = l.number_made n
  Typed-convert_number v at null_view e = tt
  Typed-convert_number v at unknown_view e = tt
  Typed-convert_number v at other_view e = tt
  Typed-convert_number v at (bool_view b) e = tt
  Typed-convert_number v at (sequence_view vs) e = tt
  Typed-convert_number v at (entries_view es) e = tt

  both-AllTyped :
      (t : c.CtyType) (r : Converted c.Value) (rs : Converted (List c.Value))
      → Typed t r
      → AllTyped t rs
      → AllTyped t (and_then r (λ b. and_then rs (λ bs. value (b ∷ bs))))
  unfolding AllTyped
  both-AllTyped t (value b) (value bs) h hs = (h, hs)
  both-AllTyped t (value b) (failed e) h hs = tt
  both-AllTyped t (value b) panicked h hs = elim hs [ ]
  both-AllTyped t (failed e) rs h hs = tt
  both-AllTyped t panicked rs h hs = elim h [ ]

  AllTyped-each :
      (t : c.CtyType) (f : ℕ → c.Value → Converted c.Value)
      → ((i : ℕ) (v : c.Value) → Typed t (f i v))
      → (i : ℕ) (vs : List c.Value) → AllTyped t (each f i vs)
  unfolding each AllTyped
  AllTyped-each t f h i [] = tt
  AllTyped-each t f h i (v ∷ vs) =
      both-AllTyped t (f i v) (each f (suc i) vs) (h i v) (AllTyped-each t f h (suc i) vs)

  Typed-list_val :
      (t : c.CtyType) (r : Converted c.Value) (rs : Converted (List c.Value))
      → Typed t r
      → AllTyped t rs
      → Typed (c.list_type t) (
          and_then
            (and_then r (λ b. and_then rs (λ bs. value (b ∷ bs))))
            (λ out. made (c.list_val out)))
  unfolding AllTyped
  Typed-list_val t (value b) (value bs) h hs = let (w, e, k) = l.list_made t b bs (h, hs) in rw e k
  Typed-list_val t (value b) (failed e) h hs = tt
  Typed-list_val t (value b) panicked h hs = elim hs [ ]
  Typed-list_val t (failed e) rs h hs = tt
  Typed-list_val t panicked rs h hs = elim h [ ]

  pub Typed-convert_list :
      (t : c.CtyType) (f : c.Value → Place → Converted c.Value)
      → ((v : c.Value) (at : Place) → Typed t (f v at))
      → (at : Place) (w : View c.Value c.Number) → Typed (c.list_type t) (convert_list c t f at w)
  unfolding convert_list each
  Typed-convert_list t f h at (sequence_view []) = l.list_empty_type t
  Typed-convert_list t f h at (sequence_view (v ∷ vs)) =
      Typed-list_val t (f v (index 0 ∷ at)) (each (λ i e. f e (index i ∷ at)) 1 vs)
        (h v (index 0 ∷ at))
        (AllTyped-each t (λ i e. f e (index i ∷ at)) (λ i e. h e (index i ∷ at)) 1 vs)
  Typed-convert_list t f h at null_view = tt
  Typed-convert_list t f h at unknown_view = tt
  Typed-convert_list t f h at other_view = tt
  Typed-convert_list t f h at (bool_view b) = tt
  Typed-convert_list t f h at (string_view s) = tt
  Typed-convert_list t f h at (number_view n) = tt
  Typed-convert_list t f h at (entries_view es) = tt
