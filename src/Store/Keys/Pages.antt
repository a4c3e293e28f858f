-- ===== src/Store/Keys/Pages.antt =====
-- What the prefix of hits is, in python/peercache/store.py.
use native.Mathlib.Nat.{suc-mul, mul-suc, zero-mul, mul-add-div_right, div-eq_of_lt, mul-div_cancel}
use peer_cache.Base.Bytes.{length-drop}
use peer_cache.Base.{
  ◌-◌, ℕ, zero, suc, ◌+◌, ◌*◌, ◌/◌, ◌<◌, ◌≤◌, ◌≡◌, refl, sym, ap, ◌∙◌, arith, Option, none, some,
  Bool, true, false, List, [], ◌∷◌, map, length, take, drop, if◌then◌else◌,
}
use peer_cache.Store.Keys.{
  all_of, results_from, page_results, prefix_from, hit_prefix, full_block, count_blocks,
}

-- The pages up to the first that is not whole.
unfoldable pub leading : List Bool → ℕ
leading [] = 0
leading (false ∷ bs) = 0
leading (true ∷ bs) = suc (leading bs)

unfoldable pub present {ℓ} : {A : Type ℓ} → Option A → Bool
present none = false
present (some a) = true

module _ {ℓ} {A : Type ℓ} where
  -- Within the first block: it is passed, or the loop stops in it.
  prefix_from-block :
      (m n p j k : ℕ) (locs : List (Option A))
      → j + k ≡ m
      → 0 < m
      → k ≤ length locs
      → prefix_from locs (p * m + j) m n ≡ (
          if all_of (take k (map present locs))
          then prefix_from (drop k locs) (suc p * m) m n
          else p)
  unfolding prefix_from present
  prefix_from-block m n p j zero locs e pos le =
      ap (λ i. prefix_from locs i m n) (omega (arith, suc-mul p m))
  prefix_from-block m n p j (suc k) [] e pos le = absurd (omega arith)
  prefix_from-block m n p j (suc k) (none ∷ locs) e pos le =
      mul-add-div_right pos p j ∙ omega (arith, div-eq_of_lt {n = j} {m = m} (omega arith))
  prefix_from-block m n p j (suc k) (some l ∷ locs) e pos le =
      ap (λ i. prefix_from locs i m n) (omega arith)
      ∙ prefix_from-block m n p (j + 1) k locs (omega arith) pos (omega arith)

  map-drop :
      (k : ℕ) (locs : List (Option A)) → map present (drop k locs) ≡ drop k (map present locs)
  map-drop zero locs = refl
  map-drop (suc k) [] = refl
  map-drop (suc k) (l ∷ locs) = map-drop k locs

  length-map : (locs : List (Option A)) → length (map present locs) ≡ length locs
  length-map [] = refl
  length-map (l ∷ locs) = ap suc (length-map locs)

-- One round of the list of page results.
results_from-leading :
    (f m : ℕ) (comp : List Bool)
    → 0 < length comp
    → leading (results_from (suc f) comp m)
      ≡ (if all_of (take m comp) then suc (leading (results_from f (drop m comp) m)) else 0)
unfolding results_from leading
results_from-leading f m [] pos = absurd (omega arith)
results_from-leading f m (c ∷ comp) pos =
    leading-cons (all_of (take m (c ∷ comp))) (results_from f (drop m (c ∷ comp)) m)
  where
    leading-cons :
        (b : Bool) (bs : List Bool) → leading (b ∷ bs) ≡ (if b then suc (leading bs) else 0)
    leading-cons true bs = refl
    leading-cons false bs = refl

leading-nil : (f m : ℕ) → leading (results_from f [] m) ≡ 0
unfolding results_from leading
leading-nil zero m = refl
leading-nil (suc f) m = refl

step :
    (whole : Bool) (p x y : ℕ)
    → x ≡ suc p + y
    → (if whole then x else p) ≡ p + (if whole then suc y else 0)
step true p x y e = omega arith
step false p x y e = omega arith

pages_left :
    (pages m len : ℕ) → len ≡ suc pages * m → 0 < m → (m ≤ len) × (len - m ≡ pages * m) × (0 < len)
pages_left pages m len e pos = omega (arith, suc-mul pages m)

module _ {ℓ} {A : Type ℓ} where
  -- The number of pages that `_hit_prefix` counts is that of the whole pages before the first which
  -- is not whole.
  prefix_from-leading :
      (m n : ℕ) (pages p f : ℕ) (locs : List (Option A))
      → 0 < m
      → length locs ≡ pages * m
      → n ≡ p + pages
      → pages ≤ f
      → prefix_from locs (p * m) m n ≡ p + leading (results_from f (map present locs) m)
  unfolding prefix_from
  prefix_from-leading m n zero p f [] pos e count le =
      count ∙ ap (λ b. p + b) (sym (leading-nil f m))
  prefix_from-leading m n zero p f (l ∷ locs) pos e count le = absurd (omega (arith, zero-mul m))
  prefix_from-leading m n (suc pages) p zero locs pos e count le = absurd (omega arith)
  prefix_from-leading m n (suc pages) p (suc f) locs pos e count le =
      let (within, left, some_left) = pages_left pages m (length locs) e pos in
      let whole = all_of (take m (map present locs)) in
      let rest =
        prefix_from-leading m n pages (suc p) f (drop m locs) pos (length-drop m locs ∙ left)
          (omega arith) (omega arith) in
      ap (λ i. prefix_from locs i m n) (omega arith)
      ∙ prefix_from-block m n p 0 m locs (omega arith) pos within
      ∙ step whole p (prefix_from (drop m locs) (suc p * m) m n)
          (leading (results_from f (drop m (map present locs)) m))
          (rest ∙ ap (λ comp. suc p + leading (results_from f comp m)) (map-drop m locs))
      ∙ ap (λ b. p + b)
          (sym (results_from-leading f m (map present locs) (omega (arith, length-map locs))))

full_block-take :
    (m : ℕ) (comp : List Bool)
    → 0 < m
    → 0 < length comp
    → full_block (take m comp) ≡ all_of (take m comp)
unfolding full_block
full_block-take zero comp pos some_left = absurd (omega arith)
full_block-take (suc m) [] pos some_left = absurd (omega arith)
full_block-take (suc m) (c ∷ comp) pos some_left = refl

le-mul : (n m : ℕ) → 0 < m → n ≤ n * m
le-mul n zero pos = absurd (omega arith)
le-mul n (suc m) pos = omega (arith, mul-suc n m)

-- The pages that `batch_exists` counts in slot-map mode are the whole pages before the first which
-- is not whole.
count_blocks-leading :
    (m pages f : ℕ) (comp : List Bool)
    → 0 < m
    → length comp ≡ pages * m
    → pages ≤ f
    → count_blocks pages comp m ≡ leading (results_from f comp m)
unfolding count_blocks full_block
count_blocks-leading m zero f [] pos e le = sym (leading-nil f m)
count_blocks-leading m zero f (c ∷ comp) pos e le = absurd (omega (arith, zero-mul m))
count_blocks-leading m (suc pages) zero comp pos e le = absurd (omega arith)
count_blocks-leading m (suc pages) (suc f) comp pos e le =
    let (within, left, some_left) = pages_left pages m (length comp) e pos in
    let rest =
      count_blocks-leading m pages f (drop m comp) pos (length-drop m comp ∙ left) (omega arith) in
    ap (λ b. if b then suc (count_blocks pages (drop m comp) m) else 0)
      (full_block-take m comp pos some_left)
    ∙ ap (λ n. if all_of (take m comp) then suc n else 0) rest
    ∙ sym (results_from-leading f m comp some_left)

-- Where the components are those of `pages` whole pages, the number of pages that `batch_exists`
-- reports is the number of pages before the first one that lacks a component, as `_page_results`
-- would show it: `_hit_prefix` of the locations and the loop of the slot-map mode over the same
-- components both count it.
pub hit_prefix_lem {ℓ} :
    {A : Type ℓ} (m pages : ℕ) (locs : List (Option A))
    → 0 < m
    → length locs ≡ pages * m
    → (hit_prefix locs m ≡ leading (page_results (map present locs) m))
      × (count_blocks pages (map present locs) m ≡ leading (page_results (map present locs) m))
unfolding hit_prefix page_results
hit_prefix_lem m pages locs pos e =
    let count : length locs / m ≡ pages = ap (λ n. n / m) e ∙ mul-div_cancel pages pos in
    let enough : pages ≤ length (map present locs) =
      omega (arith, e, length-map locs, le-mul pages m pos) in
    (
      ap (λ i. prefix_from locs i m (length locs / m)) (sym (zero-mul m))
          ∙ prefix_from-leading m (length locs / m) pages 0 (length (map present locs)) locs pos e
              (omega (arith, count)) enough
          ∙ omega arith,
      count_blocks-leading m pages (length (map present locs)) (map present locs) pos
          (length-map locs ∙ e) enough,
    )
