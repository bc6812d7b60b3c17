-- ===== src/Types/Single.antt =====
-- ztypes.go, `mergeOne`: a declaration that takes one value.
use zordon.Base.{◌≡◌, inl, inr, refl, ◌∙◌, List, [], ◌∷◌, some, Bool-cases, if◌then◌else◌}
use zordon.Types.Cty.{Cty}
use zordon.Types.Convert.{already_set, Converted, value, failed, and_then, ZType, cty, convert}
use zordon.Types.Merge.{Part, is_null, placed, one_loop, convert_got, merge_one}

module _ (c : Cty) where
  -- the parts that are not null
  unfoldable pub set_parts : List (Part c) → List (Part c)
  set_parts [] = []
  set_parts (p ∷ parts) =
      let rest = set_parts parts in if is_null c (c.view p.given) then rest else p ∷ rest

  -- what one declaration takes: no value, one, or an error at the second
  unfoldable pub Single : ZType c → List (Part c) → Converted c.Value
  unfolding convert cty
  Single t [] = value (c.null_val (cty c t))
  Single t (p ∷ []) = placed c p.at (convert c t p.given [])
  Single t (p ∷ q ∷ parts) = failed (already_set q.at p.at)

  second : ZType c → Part c → List (Part c) → Converted c.Value
  unfolding convert
  second t p [] = placed c p.at (convert c t p.given [])
  second t p (q ∷ parts) = failed (already_set q.at p.at)

  one_loop-some :
      (t : ZType c) (p : Part c) (parts : List (Part c))
      → and_then (one_loop c (some p) parts) (λ got. convert_got c t got)
        ≡ second t p (set_parts parts)
  unfolding one_loop convert_got second set_parts
  one_loop-some t p [] = refl
  one_loop-some t p (q ∷ parts) = elim (Bool-cases (is_null c (c.view q.given))) [
    | inl e ↦ rw e (one_loop-some t p parts)
    | inr e ↦ rw e refl
  ]

  -- `mergeOne` is null where no part is set, converts the part where one is, and otherwise fails at
  -- the second with the place of the first.
  pub merge_one-Single :
      (t : ZType c) (parts : List (Part c)) → merge_one c t parts ≡ Single t (set_parts parts)
  unfolding merge_one one_loop Single convert_got second set_parts
  merge_one-Single t [] = refl
  merge_one-Single t (p ∷ parts) = elim (Bool-cases (is_null c (c.view p.given))) [
    | inl e ↦ rw e (merge_one-Single t parts)
    | inr e ↦ rw e (one_loop-some t p parts ∙ last t p (set_parts parts))
  ]
    where
      last :
          (t : ZType c) (p : Part c) (parts : List (Part c))
          → second t p parts ≡ Single t (p ∷ parts)
      last t p [] = refl
      last t p (q ∷ parts) = refl
