-- ===== src/Base/Stream.antt =====
-- A reader over bytes in memory: what it has not read yet is a list.
use bxdb.Base.Lists.{length, take, drop, take-append, drop-append, length-append}
use bxdb.Base.Tests.{ltb, if◌then◌else◌, le→not-ltb, lt→ltb}
use bxdb.Base.Errors.{Result, ok, err, eof}
use Prim.Native.Nat.{ℕ, ◌≤◌, ◌<◌}
use mathlib.Core.Path.{◌≡◌, ap₂}
use mathlib.Core.List.{List, ◌++◌}
use native.Mathlib.Omega.{arith}

-- `Read::read_exact` into a buffer of `n` bytes: the buffer, and what is left to read.
unfoldable pub read_exact : ℕ → List ℕ → Result (List ℕ × List ℕ)
read_exact n r = if ltb (length r) n then err eof else ok (take n r, drop n r)

pub read_exact-append :
    (n : ℕ) (xs rest : List ℕ) → length xs ≡ n → read_exact n (xs ++ rest) ≡ ok (xs, rest)
unfolding read_exact
read_exact-append n xs rest h =
    rw (le→not-ltb (length (xs ++ rest)) n (omega (arith, length-append xs rest)))
      (ap₂ (λ a b. ok (a, b)) (take-append n xs rest h) (drop-append n xs rest h))

pub read_exact_short : (n : ℕ) (r : List ℕ) → length r < n → read_exact n r ≡ err eof
unfolding read_exact
read_exact_short n r h = rw (lt→ltb (length r) n h)

pub read_exact_enough :
    (n : ℕ) (r : List ℕ) → n ≤ length r → read_exact n r ≡ ok (take n r, drop n r)
unfolding read_exact
read_exact_enough n r h = rw (le→not-ltb (length r) n h)
