-- ===== src/Discovery/Masters.antt =====
-- Which hosts act as discovery masters.
use peer_cache.Base.{
  ℕ, zero, suc, ◌≤◌, ◌≡◌, refl, sym, ap, ◌∙◌, inl, inr, arith, String, true, false, not, List, [],
  ◌∷◌, ◌++◌, length, take, eq_string, ==_iff, ==_refl, elem, elem-append, Distinct, Bool-cases,
  ◌&&◌,
}
use peer_cache.Ring.Quorum.{length-le_of_subset}
use peer_cache.Discovery.{within, without, masters_from}

elem-within : (h : String) (ys xs : List String) → elem h (within ys xs) ≡ (elem h xs && elem h ys)
unfolding within
elem-within h ys [] = refl
elem-within h ys (x ∷ xs) =
    ground (arith, elem-within h ys xs, ==_iff x h, ap (λ t. elem t ys) {x = x} {y = h})

elem-without :
    (h : String) (ys xs : List String) → elem h (without ys xs) ≡ (elem h xs && not (elem h ys))
unfolding without
elem-without h ys [] = refl
elem-without h ys (x ∷ xs) =
    ground (arith, elem-without h ys xs, ==_iff x h, ap (λ t. elem t ys) {x = x} {y = h})

within-Distinct : (ys xs : List String) → Distinct xs → Distinct (within ys xs)
unfolding within
within-Distinct ys [] d = tt
within-Distinct ys (x ∷ xs) d = elim (Bool-cases (elem x ys)) [
  | inl there ↦ rw there (elem-within x ys xs ∙ ground (arith, d.0), within-Distinct ys xs d.1)
  | inr gone ↦ rw gone (within-Distinct ys xs d.1)
]

without-Distinct : (ys xs : List String) → Distinct xs → Distinct (without ys xs)
unfolding without
without-Distinct ys [] d = tt
without-Distinct ys (x ∷ xs) d = elim (Bool-cases (elem x ys)) [
  | inl there ↦ rw there (without-Distinct ys xs d.1)
  | inr gone ↦ rw gone (elem-without x ys xs ∙ ground (arith, d.0), without-Distinct ys xs d.1)
]

append-Distinct :
    (xs ys : List String)
    → Distinct xs
    → Distinct ys
    → ((h : String) → elem h xs ≡ true → elem h ys ≡ false)
    → Distinct (xs ++ ys)
append-Distinct [] ys dx dy apart = dy
append-Distinct (x ∷ xs) ys dx dy apart = (
  elem-append x xs ys ∙ ground (arith, dx.0, apart x, ==_refl x),
  append-Distinct xs ys dx.1 dy (λ h m. apart h (ground (arith, m))),
)

elem-take : (h : String) (n : ℕ) (xs : List String) → elem h (take n xs) ≡ true → elem h xs ≡ true
elem-take h zero xs m = absurd (cc)
elem-take h (suc n) [] m = absurd (cc)
elem-take h (suc n) (x ∷ xs) m = ground (arith, elem-take h n xs)

take-whole : (n : ℕ) (xs : List String) → length xs ≤ n → take n xs ≡ xs
take-whole zero [] h = refl
take-whole zero (x ∷ xs) h = absurd (omega arith)
take-whole (suc n) [] h = refl
take-whole (suc n) (x ∷ xs) h = ap (λ t. x ∷ t) (take-whole n xs (omega arith))

module _ (seed_hosts : List String) (max_masters : ℕ) (member_hosts : List String) where
  abbrev ranked : List String
  ranked = within member_hosts seed_hosts ++ without (within member_hosts seed_hosts) member_hosts

  elem-ranked : (h : String) → elem h ranked ≡ elem h member_hosts
  elem-ranked h = ground (
    arith,
    elem-append h (within member_hosts seed_hosts)
        (without (within member_hosts seed_hosts) member_hosts),
    elem-within h member_hosts seed_hosts,
    elem-without h (within member_hosts seed_hosts) member_hosts,
  )

  -- Every master is the host of a member.
  pub masters-live :
      (h : String)
      → elem h (masters_from seed_hosts max_masters member_hosts) ≡ true
      → elem h member_hosts ≡ true
  unfolding masters_from
  masters-live h m = sym (elem-ranked h) ∙ elem-take h max_masters ranked m

  ranked-Distinct : Distinct seed_hosts → Distinct member_hosts → Distinct ranked
  ranked-Distinct ds dm =
      append-Distinct (within member_hosts seed_hosts)
        (without (within member_hosts seed_hosts) member_hosts)
        (within-Distinct member_hosts seed_hosts ds)
        (without-Distinct (within member_hosts seed_hosts) member_hosts dm)
        (λ h m. elem-without h (within member_hosts seed_hosts) member_hosts ∙ ground (arith, m))

  -- With at most as many hosts as masters, and no seed host named twice, the masters are exactly
  -- the hosts of the members.
  all_masters :
      (h : String)
      → Distinct seed_hosts
      → Distinct member_hosts
      → length member_hosts ≤ max_masters
      → elem h (masters_from seed_hosts max_masters member_hosts) ≡ elem h member_hosts
  unfolding masters_from
  all_masters h ds dm few =
      let short =
        length-le_of_subset ranked member_hosts (ranked-Distinct ds dm)
          (λ x m. sym (elem-ranked x) ∙ m) in
      ap (elem h) (take-whole max_masters ranked (omega (arith, short, few))) ∙ elem-ranked h
