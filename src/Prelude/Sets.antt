-- ===== src/Prelude/Sets.antt =====
-- Sets of numbers as lists, for Go's maps to `struct{}`.
use Prim.Native.Nat.{ℕ}
use mathlib.Core.Path.{◌≡◌, refl}
use mathlib.Core.Bool.{Bool, false, ◌||◌}
use mathlib.Core.List.{List, [], ◌∷◌}
use native.Mathlib.Omega.{arith}
use ttrpc.Prelude.Tests.{◌==◌, nat_eq, if◌then◌else◌}

unfoldable pub contains : ℕ → List ℕ → Bool
contains k [] = false
contains k (x ∷ xs) = (x == k) || contains k xs

pub remove : ℕ → List ℕ → List ℕ
remove x [] = []
remove x (y ∷ ys) = let rest = remove x ys in if y == x then rest else y ∷ rest

pub contains-remove :
    (k j : ℕ) (xs : List ℕ) → contains j (remove k xs) ≡ (if k == j then false else contains j xs)
unfolding contains remove
contains-remove k j [] = ground arith
contains-remove k j (x ∷ xs) = ground (arith, contains-remove k j xs)

pub contains-none : (xs : List ℕ) → ((k : ℕ) → contains k xs ≡ false) → xs ≡ []
unfolding contains
contains-none [] h = refl
contains-none (x ∷ xs) h = ground (arith, h x)
