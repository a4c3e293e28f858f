-- ===== src/Ring/Clockwise.antt =====
-- `get_nodes` against a description of it: the distinct owners of the positions, clockwise.
use native.Mathlib.Nat.{mod-eq_of_lt, add-mod_right}
use peer_cache.Base.{
  ℕ, zero, suc, ◌+◌, ◌-◌, ◌%◌, ◌≤◌, ◌<◌, min, String, Option, none, some, true, false, List, [],
  ◌∷◌, ◌++◌, append_assoc, append-nil, ◌≡◌, refl, sym, ap, ◌∙◌, inl, inr, arith, ltb, leb, ◌==◌,
  eq_ℕ, eq_string, ==_iff, elem, elem-append, length, length-append, get_elem?, take, drop,
  Bool-cases, if◌then◌else◌,
}
use peer_cache.Base.Bytes.{take-append}
use peer_cache.Base.Dict
use peer_cache.Base.Dict.{Dict}
use peer_cache.Ring.{Ring, bisect, owner_at, add_new, walk, get_nodes_on, get_nodes}
use peer_cache.Ring.Sorted.{bisect-le}

-- A position of no node is passed over; a valid ring has none.
abbrev enter : Option String → List String → List String
enter none met = met
enter (some node) met = if elem node met then met else met ++ node ∷ []

-- The nodes of the positions, each once, in the order in which they are met, behind `met`.
abbrev pub nodes_met : Dict ℕ String → List ℕ → List String → List String
nodes_met ring [] met = met
nodes_met ring (q ∷ qs) met = nodes_met ring qs (enter (Dict.get q ring) met)

-- The positions in order, from the first one behind a hash on.
abbrev behind : List ℕ → ℕ → List ℕ
behind [] h = []
behind (q ∷ qs) h = if ltb h q then q ∷ qs else behind qs h

-- Those before it.
abbrev up_to : List ℕ → ℕ → List ℕ
up_to [] h = []
up_to (q ∷ qs) h = if ltb h q then [] else q ∷ up_to qs h

-- The positions from the first one behind a hash on, once round the circle.
abbrev pub clockwise : List ℕ → ℕ → List ℕ
clockwise qs h = behind qs h ++ up_to qs h

drop-bisect : (qs : List ℕ) (h : ℕ) → drop (bisect qs h) qs ≡ behind qs h
unfolding bisect
drop-bisect [] h = refl
drop-bisect (q ∷ qs) h = elim (Bool-cases (leb q h)) [
  | inl low ↦ let past : ltb h q ≡ false = ground arith in rw (low, past) (drop-bisect qs h)
  | inr high ↦ let here : ltb h q ≡ true = ground arith in rw (high, here) refl
]

take-bisect : (qs : List ℕ) (h : ℕ) → take (bisect qs h) qs ≡ up_to qs h
unfolding bisect
take-bisect [] h = refl
take-bisect (q ∷ qs) h = elim (Bool-cases (leb q h)) [
  | inl low ↦
      let past : ltb h q ≡ false = ground arith in
      rw (low, past) (ap (λ t. q ∷ t) (take-bisect qs h))
  | inr high ↦ let here : ltb h q ≡ true = ground arith in rw (high, here) refl
]

clockwise-bisect :
    (qs : List ℕ) (h : ℕ) → drop (bisect qs h) qs ++ take (bisect qs h) qs ≡ clockwise qs h
clockwise-bisect qs h =
    ap (λ t. t ++ take (bisect qs h) qs) (drop-bisect qs h)
    ∙ ap (λ t. behind qs h ++ t) (take-bisect qs h)

get_elem?-front : (xs ys : List ℕ) (i : ℕ) → i < length xs → get_elem? (xs ++ ys) i ≡ get_elem? xs i
get_elem?-front [] ys i h = absurd (omega arith)
get_elem?-front (x ∷ xs) ys zero h = refl
get_elem?-front (x ∷ xs) ys (suc i) h = get_elem?-front xs ys i (omega arith)

get_elem?-back : (xs ys : List ℕ) (i : ℕ) → get_elem? (xs ++ ys) (length xs + i) ≡ get_elem? ys i
get_elem?-back [] ys i = ap (get_elem? ys) {x = 0 + i} {y = i} (omega arith)
get_elem?-back (x ∷ xs) ys i =
    let e : length (x ∷ xs) + i ≡ suc (length xs + i) = omega arith in
    ap (get_elem? (x ∷ (xs ++ ys))) e ∙ get_elem?-back xs ys i

get_elem?-drop : (n : ℕ) (xs : List ℕ) (i : ℕ) → get_elem? (drop n xs) i ≡ get_elem? xs (n + i)
get_elem?-drop zero xs i = ap (get_elem? xs) {x = i} {y = 0 + i} (omega arith)
get_elem?-drop (suc n) [] i = refl
get_elem?-drop (suc n) (x ∷ xs) i =
    let e : suc n + i ≡ suc (n + i) = omega arith in
    get_elem?-drop n xs i ∙ ap (get_elem? (x ∷ xs)) (sym e)

get_elem?-take : (n : ℕ) (xs : List ℕ) (i : ℕ) → i < n → get_elem? (take n xs) i ≡ get_elem? xs i
get_elem?-take zero xs i h = absurd (omega arith)
get_elem?-take (suc n) [] i h = refl
get_elem?-take (suc n) (x ∷ xs) zero h = refl
get_elem?-take (suc n) (x ∷ xs) (suc i) h = get_elem?-take n xs i (omega arith)

length-dropped : (n : ℕ) (xs : List ℕ) → n ≤ length xs → length (drop n xs) + n ≡ length xs
length-dropped zero xs h = omega arith
length-dropped (suc n) [] h = absurd (omega arith)
length-dropped (suc n) (x ∷ xs) h = omega (arith, length-dropped n xs (omega arith))

length-taken : (n : ℕ) (xs : List ℕ) → n ≤ length xs → length (take n xs) ≡ n
length-taken zero xs h = refl
length-taken (suc n) [] h = absurd (omega arith)
length-taken (suc n) (x ∷ xs) h = omega (arith, length-taken n xs (omega arith))

-- The list turned by `idx` has at `j` what the list has at `idx + j`, round the circle.
rotated :
    (idx : ℕ) (ks : List ℕ) (j : ℕ)
    → idx ≤ length ks
    → j < length ks
    → get_elem? (drop idx ks ++ take idx ks) j ≡ get_elem? ks ((idx + j) % length ks)
rotated idx ks j le lt =
    let size = length-dropped idx ks le in
    elim (Bool-cases (ltb j (length (drop idx ks)))) [
      | inl front ↦
          get_elem?-front (drop idx ks) (take idx ks) j (ground arith)
          ∙ get_elem?-drop idx ks j
          ∙ ap (get_elem? ks) (sym (mod-eq_of_lt (ground arith)))
      | inr back ↦
          let k = j - length (drop idx ks) in
          let at : j ≡ length (drop idx ks) + k = ground arith in
          let there : idx + j ≡ k + length ks = ground arith in
          ap (get_elem? (drop idx ks ++ take idx ks)) at
          ∙ get_elem?-back (drop idx ks) (take idx ks) k
          ∙ get_elem?-take idx ks k (ground arith)
          ∙ ap (get_elem? ks) (
              sym (
                ap (λ t. t % length ks) there
                ∙ add-mod_right k (length ks)
                ∙ mod-eq_of_lt (ground arith)))
    ]

take-all : (n : ℕ) (xs : List String) → length xs ≤ n → take n xs ≡ xs
take-all zero [] h = refl
take-all zero (x ∷ xs) h = absurd (omega arith)
take-all (suc n) [] h = refl
take-all (suc n) (x ∷ xs) h = ap (λ t. x ∷ t) (take-all n xs (omega arith))

enter-append :
    (o : Option String) (met : List String) → (ys : List String) × (enter o met ≡ met ++ ys)
enter-append none met = ([], sym (append-nil met))
enter-append (some node) met = elim (Bool-cases (elem node met)) [
  | inl old ↦ ([], rw old (sym (append-nil met)))
  | inr new ↦ (node ∷ [], rw new refl)
]

nodes_met-append :
    (ring : Dict ℕ String) (qs : List ℕ) (met : List String)
    → (ys : List String) × (nodes_met ring qs met ≡ met ++ ys)
nodes_met-append ring [] met = ([], sym (append-nil met))
nodes_met-append ring (q ∷ qs) met =
    let (xs, e) = enter-append (Dict.get q ring) met in
    let (ys, e') = nodes_met-append ring qs (enter (Dict.get q ring) met) in
    (xs ++ ys, e' ∙ ap (λ t. t ++ ys) e ∙ append_assoc met xs ys)

elem-enter :
    (m : String) (o : Option String) (met : List String)
    → elem m met ≡ true
    → elem m (enter o met) ≡ true
elem-enter m o met h =
    let (ys, e) = enter-append o met in ap (elem m) e ∙ ground (arith, elem-append m met ys)

elem-enter_self : (m : String) (met : List String) → elem m (enter (some m) met) ≡ true
elem-enter_self m met = ground (arith, elem-append m met (m ∷ []), ==_iff m m)

length-enter : (o : Option String) (met : List String) → length (enter o met) ≤ length met + 1
length-enter none met = omega arith
length-enter (some m) met = ground (arith, length-append met (m ∷ []))

enter-met :
    (o : Option String) (met : List String)
    → ((m : String) → o ≡ some m → elem m met ≡ true)
    → enter o met ≡ met
enter-met none met h = refl
enter-met (some m) met h = rw (h m refl) refl

take-met :
    (n : ℕ) (ring : Dict ℕ String) (qs : List ℕ) (met : List String)
    → length met ≡ n
    → met ≡ take n (nodes_met ring qs met)
take-met n ring qs met size =
    let (ys, e) = nodes_met-append ring qs met in sym (ap (take n) e ∙ take-append n met ys size)

module _ (hash : String → ℕ) (r : Ring) (n idx : ℕ) (some_key : 0 < length r.sorted_keys) where
  abbrev count : ℕ
  count = length r.sorted_keys

  add_new-enter : (o : Option String) (met : List String) → add_new hash o met ≡ enter o met
  unfolding add_new
  add_new-enter none met = refl
  add_new-enter (some m) met = refl

  owner_at-get : (i q : ℕ) → get_elem? r.sorted_keys i ≡ some q → owner_at r i ≡ Dict.get q r.ring
  unfolding owner_at
  owner_at-get i q h = rw (h, owner_at) refl

  -- The first node is met from the second round on.
  abbrev Started : ℕ → List String → Type 0
  Started i met = idx < i → (m : String) → owner_at r (idx % count) ≡ some m → elem m met ≡ true

  abbrev Ahead : ℕ → List ℕ → Type 0
  Ahead i todo =
      (j : ℕ) → j < length todo → get_elem? todo j ≡ get_elem? r.sorted_keys ((i + j) % count)

  last_round : (i : ℕ) → i ≡ idx + count → i % count ≡ idx % count
  last_round i e = ap (λ t. t % count) e ∙ add-mod_right idx count

  next_Started :
      (i : ℕ) (met : List String)
      → idx ≤ i
      → Started i met
      → Started (i + 1) (enter (owner_at r (i % count)) met)
  next_Started i met le h later m own = elim (Bool-cases (i == idx)) [
    | inl first ↦
        let e : i ≡ idx = ground arith in
        let here : owner_at r (i % count) ≡ some m = ap (λ t. owner_at r (t % count)) e ∙ own in
        ap (λ o. elem m (enter o met)) here ∙ elem-enter_self m met
    | inr past ↦ elem-enter m (owner_at r (i % count)) met (h (ground arith) m own)
  ]

  walk_met :
      (fuel i : ℕ) (todo : List ℕ) (met : List String)
      → idx ≤ i
      → i + length todo ≡ idx + count
      → count + 1 ≤ fuel + (i - idx)
      → length met ≤ n
      → Ahead i todo
      → Started i met
      → walk hash r n idx fuel i met ≡ take n (nodes_met r.ring todo met)
  unfolding walk
  walk_met zero i todo met le size fuel short ahead started = absurd (omega arith)
  walk_met (suc fuel) i [] met le size enough short ahead started =
      elim (Bool-cases (leb n (length met))) [
        | inl full ↦ rw full (take-met n r.ring [] met (ground arith))
        | inr room ↦
            let round : ltb count (i + 1 - idx) ≡ true = ground arith in
            let o = owner_at r (i % count) in
            let seen = enter-met o met (λ m own.
              started (omega (arith, some_key)) m
                (ap (owner_at r) (sym (last_round i (omega arith))) ∙ own)) in
            rw (room, round) (add_new-enter o met ∙ seen ∙ sym (take-all n met short))
      ]
  walk_met (suc fuel) i (q ∷ todo) met le size enough short ahead started =
      elim (Bool-cases (leb n (length met))) [
        | inl full ↦ rw full (take-met n r.ring (q ∷ todo) met (ground arith))
        | inr room ↦
            let more : ltb count (i + 1 - idx) ≡ false = ground arith in
            let o = owner_at r (i % count) in
            let at : o ≡ Dict.get q r.ring = owner_at-get (i % count) q (
              ap (λ t. get_elem? r.sorted_keys (t % count)) {x = i} {y = i + 0} (omega arith)
              ∙ sym (ahead 0 (omega arith))) in
            let met' = enter o met in
            rw (room, more)
              (ap (walk hash r n idx fuel (i + 1)) (add_new-enter o met)
                ∙ walk_met fuel (i + 1) todo met' (omega arith) (omega arith) (omega arith)
                    (ground (arith, length-enter o met))
                    (λ j lt.
                      ahead (suc j) (omega arith)
                      ∙ ap (λ t. get_elem? r.sorted_keys (t % count)) {x = i + suc j}
                          {y = i + 1 + j} (omega arith))
                    (next_Started i met le started)
                ∙ ap (λ p. take n (nodes_met r.ring todo (enter p met))) at)
      ]

-- `get_nodes` returns the nodes of the positions, from the first one behind the key's hash on and
-- once round the circle, each node once and in the order in which they are met: of these the first
-- `n`, or as many as there are members where that is less.
pub get_nodes_lem :
    (hash : String → ℕ) (r : Ring) (key : String) (n : ℕ)
    → get_nodes hash r key n
      ≡ take (min n (length r.nodes)) (nodes_met r.ring (clockwise r.sorted_keys (hash key)) [])
unfolding get_nodes
get_nodes_lem hash r key n = split r.sorted_keys refl
  where
    none_met : (l : List ℕ) → l ≡ [] → nodes_met r.ring (clockwise l (hash key)) [] ≡ []
    none_met [] e = refl
    none_met (x ∷ l) e = absurd (cc)

    split :
        (l : List ℕ)
        → r.sorted_keys ≡ l
        → get_nodes_on hash r key n l
          ≡ take (min n (length r.nodes)) (nodes_met r.ring (clockwise r.sorted_keys (hash key)) [])
    split [] e = sym (
        ap (take (min n (length r.nodes))) (none_met r.sorted_keys e)
        ∙ take-all (min n (length r.nodes)) [] (omega arith))
    split (x ∷ xs) e = elim (Bool-cases (n == 0)) [
      | inl nothing ↦
          let none : min n (length r.nodes) ≡ 0 = ground arith in
          rw nothing
            (sym (ap (λ k. take k (nodes_met r.ring (clockwise r.sorted_keys (hash key)) [])) none))
      | inr asked ↦
          let ks = r.sorted_keys in
          let idx = bisect ks (hash key) in
          let le = bisect-le ks (hash key) in
          let some_key : 0 < length ks = omega (arith, ap length e) in
          let size : length (drop idx ks ++ take idx ks) ≡ length ks = omega (
            arith,
            length-append (drop idx ks) (take idx ks),
            length-dropped idx ks le,
            length-taken idx ks le,
          ) in
          rw asked (
            walk_met hash r (min n (length r.nodes)) idx some_key (length ks + 1) idx
              (drop idx ks ++ take idx ks) [] (omega arith) (omega (arith, size)) (omega arith)
              (omega arith) (λ j lt. rotated idx ks j le (omega (arith, size)))
              (λ later. absurd (omega arith))
            ∙ ap (λ qs. take (min n (length r.nodes)) (nodes_met r.ring qs []))
                (clockwise-bisect ks (hash key)))
    ]
