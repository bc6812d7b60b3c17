-- ===== src/Ring.antt =====
-- internal/ring/ring.go: the fixed-capacity ring of the last output lines of a service.
pub mod Laws
mod Tests
use zordon.Base.{
  ℕ, zero, suc, ◌+◌, Bool, true, false, List, [], ◌++◌, Option, none, some, ◌==◌, if◌then◌else◌,
  set, take, drop, replicate, ℤ, pos, negsuc, Bytes,
}

-- `Buffer`
pub record Buffer : Type 0 where
  pub cap : ℕ
  pub lines : List Bytes
  pub next : ℕ
  pub filled : Bool

-- `New`; `none` is the panic on a capacity that is not positive.
unfoldable pub new : ℤ → Option Buffer
new (pos zero) = none
new (pos (suc n)) =
    some (record { cap = suc n; lines = replicate (suc n) []; next = 0; filled = false })
new (negsuc n) = none

-- `Push`. A `set` out of range, which is a panic in the program, changes nothing.
unfoldable pub push : Buffer → Bytes → Buffer
push b s =
    let b' = record b { lines = set b.lines b.next s; next = b.next + 1 } in
    if b'.next == b'.cap then record b' { next = 0; filled = true } else b'

-- `Len`
unfoldable pub len : Buffer → ℕ
len b = if b.filled then b.cap else b.next

-- `Dump`
unfoldable pub dump : Buffer → List Bytes
dump b = if b.filled then drop b.next b.lines ++ take b.next b.lines else take b.next b.lines
