-- ===== src/Ring/Sorted.antt =====
-- Sorting and bisection: which element a bisection at `h` finds.
use peer_cache.Base.{
  ℕ, zero, suc, ◌≤◌, ◌<◌, none, some, true, List, [], ◌∷◌, ◌≡◌, refl, ap, ◌||◌, inl, inr, arith,
  leb, ◌==◌, eq_ℕ, ==_iff, elem, length, get_elem?, Bool-cases,
}
use peer_cache.Ring.{insert_sorted, sort, bisect}

abbrev pub IsSorted : List ℕ → Type 0
IsSorted [] = Unit
IsSorted (x ∷ xs) = ((q : ℕ) → elem q xs ≡ true → x ≤ q) × IsSorted xs

pub elem-insert_sorted :
    (q x : ℕ) (xs : List ℕ) → elem q (insert_sorted x xs) ≡ (x == q || elem q xs)
unfolding insert_sorted
elem-insert_sorted q x [] = refl
elem-insert_sorted q x (y ∷ ys) = ground (arith, elem-insert_sorted q x ys)

insert_sorted-IsSorted : (x : ℕ) (xs : List ℕ) → IsSorted xs → IsSorted (insert_sorted x xs)
unfolding insert_sorted
insert_sorted-IsSorted x [] s = ((λ q h. absurd (cc)), tt)
insert_sorted-IsSorted x (y ∷ ys) s = elim (Bool-cases (leb x y)) [
  | inl le ↦ rw le ((λ q h. ground (arith, s.0 q)), s)
  | inr gt ↦
      rw gt
        ((λ q h. ground (arith, elem-insert_sorted q x ys, s.0 q)), insert_sorted-IsSorted x ys s.1)
]

pub elem-sort : (q : ℕ) (xs : List ℕ) → elem q (sort xs) ≡ elem q xs
unfolding sort
elem-sort q [] = refl
elem-sort q (x ∷ xs) = ground (arith, elem-insert_sorted q x (sort xs), elem-sort q xs)

pub sort-IsSorted : (xs : List ℕ) → IsSorted (sort xs)
unfolding sort
sort-IsSorted [] = tt
sort-IsSorted (x ∷ xs) = insert_sorted-IsSorted x (sort xs) (sort-IsSorted xs)

pub bisect-le : (xs : List ℕ) (h : ℕ) → bisect xs h ≤ length xs
unfolding bisect
bisect-le [] h = omega arith
bisect-le (x ∷ xs) h = ground (arith, bisect-le xs h)

pub get_elem?-none : (xs : List ℕ) (i : ℕ) → length xs ≤ i → get_elem? xs i ≡ none
get_elem?-none [] i h = refl
get_elem?-none (x ∷ xs) zero h = absurd (omega arith)
get_elem?-none (x ∷ xs) (suc i) h = get_elem?-none xs i (omega arith)

pub get_elem?-some :
    (xs : List ℕ) (i : ℕ) → i < length xs → (x : ℕ) × (get_elem? xs i ≡ some x) × (elem x xs ≡ true)
get_elem?-some [] i h = absurd (omega arith)
get_elem?-some (x ∷ xs) zero h = (x, refl, ground (arith, ==_iff x x))
get_elem?-some (x ∷ xs) (suc i) h =
    let (y, found, within) = get_elem?-some xs i (omega arith) in (y, found, ground arith)

-- Where the bisection stops before the end, it stops at the least element above `h`.
pub bisect_found :
    (xs : List ℕ) (h : ℕ)
    → IsSorted xs
    → bisect xs h < length xs
    → (p : ℕ) × (get_elem? xs (bisect xs h) ≡ some p)
      × (elem p xs ≡ true)
      × (h < p)
      × ((q : ℕ) → elem q xs ≡ true → h < q → p ≤ q)
unfolding bisect
bisect_found [] h s lt = absurd (omega arith)
bisect_found (x ∷ xs) h s lt = elim (Bool-cases (leb x h)) [
  | inr above ↦ rw above (
    x,
    refl,
    ground (arith, ==_iff x x),
    ground arith,
    λ q e lt'. ground (arith, s.0 q, ==_iff x q),
  )
  | inl below ↦
      let (p, found, within, above, least) = bisect_found xs h s.1 (ground arith) in
      rw below (p, found, ground arith, above, λ q e lt'. ground (arith, least q, ==_iff x q))
]

-- Where it runs to the end, no element is above `h`.
pub bisect_end :
    (xs : List ℕ) (h : ℕ) → bisect xs h ≡ length xs → (q : ℕ) → elem q xs ≡ true → q ≤ h
unfolding bisect
bisect_end [] h e q m = absurd (cc)
bisect_end (x ∷ xs) h e q m = ground (arith, λ (g : bisect xs h ≡ length xs). bisect_end xs h g q)

pub get_elem?_of_elem :
    (xs : List ℕ) (q : ℕ) → elem q xs ≡ true → (i : ℕ) × (i < length xs) × (get_elem? xs i ≡ some q)
get_elem?_of_elem [] q h = absurd (cc)
get_elem?_of_elem (x ∷ xs) q h = elim (Bool-cases (x == q)) [
  | inl same ↦ (0, omega arith, ap some ((==_iff x q).0 same))
  | inr other ↦ let (i, lt, at) = get_elem?_of_elem xs q (ground arith) in (suc i, omega arith, at)
]
