-- ===== src/Base/Sets.antt =====
-- `set.discard` and lists without repetitions.
use peer_cache.Base.{
  ◌≡◌, refl, arith, String, false, not, List, [], ◌∷◌, ◌++◌, ◌&&◌, ◌==◌, eq_string, ==_iff, elem,
  elem-append, Distinct, if◌then◌else◌, Bool-cases, inl, inr,
}

unfoldable pub discard : String → List String → List String
discard x [] = []
discard x (y ∷ ys) = let rest = discard x ys in if y == x then rest else y ∷ rest

pub elem-discard :
    (n x : String) (xs : List String) → elem n (discard x xs) ≡ (not (x == n) && elem n xs)
unfolding discard
elem-discard n x [] = ground arith
elem-discard n x (y ∷ ys) = ground (arith, elem-discard n x ys, ==_iff y x, ==_iff y n, ==_iff x n)

pub discard-Distinct : (x : String) (xs : List String) → Distinct xs → Distinct (discard x xs)
unfolding discard
discard-Distinct x [] d = tt
discard-Distinct x (y ∷ ys) d = elim (Bool-cases (y == x)) [
  | inl same ↦ rw same (discard-Distinct x ys d.1)
  | inr other ↦ rw other (ground (arith, elem-discard y x ys), discard-Distinct x ys d.1)
]

pub append_one-Distinct :
    (x : String) (xs : List String) → elem x xs ≡ false → Distinct xs → Distinct (xs ++ x ∷ [])
append_one-Distinct x [] h d = (refl, tt)
append_one-Distinct x (y ∷ ys) h d = (
  ground (arith, elem-append y ys (x ∷ []), ==_iff x y, ==_iff y x),
  append_one-Distinct x ys (ground arith) d.1,
)
