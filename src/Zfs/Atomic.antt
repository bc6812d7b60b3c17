-- ===== src/Zfs/Atomic.antt =====
-- zfs.go, `AtomicWrite`: the file is replaced, or it is as it was.
use zordon.Base.{
  ◌≡◌, ◌⊎◌, inl, inr, refl, Bool, true, false, not, [], ◌∷◌, none, some, Bool-cases, if◌then◌else◌,
  Bytes,
}
use zordon.Zfs.{
  Call, create_temp, write_temp, sync_temp, chmod_temp, close_temp, rename_temp, remove_temp, Disk,
  Written, removed, replace, atomic_write,
}

-- The file is as it was, and so are the temporary files, but for one more if it cannot be removed.
abbrev pub Restored : Disk → Disk → Type 0
Restored d d' =
    (d'.file ≡ d.file)
    × ((d'.temps ≡ d.temps)
        ⊎ ((d.succeeds remove_temp ≡ false) × (temp : Bytes) × (d'.temps ≡ temp ∷ d.temps)))

-- no error and the file replaced, or an error and nothing changed
abbrev pub IsAtomic : Bytes → Disk → Written → Type 0
IsAtomic content d (none, d') = (d'.file ≡ some content) × (d'.temps ≡ d.temps)
IsAtomic content d (some k, d') = Restored d d'

IsAtomic-removed :
    (content temp : Bytes) (d : Disk) (k : Call)
    → IsAtomic content d (removed (some k, record d { temps = temp ∷ d.temps }))
IsAtomic-removed content temp d k = elim (Bool-cases (d.succeeds remove_temp)) [
  | inl t ↦ rw t (refl, inl refl)
  | inr t ↦ rw t (refl, inr (refl, temp, refl))
]

IsAtomic-if :
    (content : Bytes) (d : Disk) (test : Bool) (x y : Written)
    → IsAtomic content d (removed x)
    → IsAtomic content d (removed y)
    → IsAtomic content d (removed (if not test then x else y))
IsAtomic-if content d true x y h k = k
IsAtomic-if content d false x y h k = h

IsAtomic-replace :
    (content : Bytes) (d : Disk)
    → IsAtomic content d (removed (replace content (record d { temps = [] ∷ d.temps })))
unfolding replace
IsAtomic-replace content d =
    IsAtomic-if content d (d.succeeds write_temp) _ _
      (IsAtomic-removed content (d.torn content) d write_temp)
      (IsAtomic-if content d (d.succeeds sync_temp) _ _
        (IsAtomic-removed content content d sync_temp)
        (IsAtomic-if content d (d.succeeds chmod_temp) _ _
          (IsAtomic-removed content content d chmod_temp)
          (IsAtomic-if content d (d.succeeds close_temp) _ _
            (IsAtomic-removed content content d close_temp)
            (IsAtomic-if content d (d.succeeds rename_temp) _ _
              (IsAtomic-removed content content d rename_temp) (refl, refl)))))

-- `AtomicWrite` replaces the file, or returns an error and leaves it as it was; in both cases no
-- temporary file is left behind, unless there is an error and it cannot be removed.
pub atomic_write-IsAtomic :
    (content : Bytes) (d : Disk) → IsAtomic content d (atomic_write content d)
unfolding atomic_write
atomic_write-IsAtomic content d = elim (Bool-cases (d.succeeds create_temp)) [
  | inl t ↦ rw t (IsAtomic-replace content d)
  | inr t ↦ rw t (refl, inl refl)
]

-- where every call succeeds
pub atomic_write_all :
    (content : Bytes) (d : Disk)
    → ((k : Call) → d.succeeds k ≡ true)
    → atomic_write content d ≡ (none, record d { file = some content })
unfolding atomic_write replace
atomic_write_all content d h =
    rw (h create_temp, h write_temp, h sync_temp, h chmod_temp, h close_temp, h rename_temp) refl
