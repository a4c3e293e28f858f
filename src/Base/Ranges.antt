-- ===== src/Base/Ranges.antt =====
-- Ranges of the memory, read as texts of bytes.
use mathlib.Core.Path.{ap₂}
use peer_cache.Base.{
  ℕ, zero, suc, ◌+◌, ◌-◌, ◌≤◌, ◌<◌, ◌≡◌, ◌⊎◌, refl, ap, ◌∙◌, arith, List, [], ◌∷◌, ◌++◌, length,
  take, drop, leb, ◌&&◌, if◌then◌else◌,
}
use peer_cache.Base.Bytes.{take-append, drop-append}
use peer_cache.Base.Memory.{Memory, memmove, store, string_at, memmove_at}

-- Two ranges of addresses have no address in common.
abbrev pub Apart : ℕ → ℕ → ℕ → ℕ → Type 0
Apart a n b k = (a + n ≤ b) ⊎ (b + k ≤ a)

pub length-string_at : (a n : ℕ) (m : Memory) → length (string_at a n m) ≡ n
unfolding string_at
length-string_at a zero m = refl
length-string_at a (suc n) m = ap suc (length-string_at (a + 1) n m)

pub string_at-add :
    (a n k : ℕ) (m : Memory) → string_at a (n + k) m ≡ string_at a n m ++ string_at (a + n) k m
unfolding string_at
string_at-add a zero k m = ap₂ (λ b j. string_at b j m) (omega arith) (omega arith)
string_at-add a (suc n) k m =
    let more : suc n + k ≡ suc (n + k) = omega arith in
    let there : a + 1 + n ≡ a + suc n = omega arith in
    ap (λ j. string_at a j m) more
    ∙ ap (λ bytes. m a ∷ bytes) (string_at-add (a + 1) n k m)
    ∙ ap (λ b. m a ∷ (string_at (a + 1) n m ++ string_at b k m)) there

pub string_at_moved :
    (d s n : ℕ) (m m' : Memory)
    → ((i : ℕ) → i < n → m' (d + i) ≡ m (s + i))
    → string_at d n m' ≡ string_at s n m
unfolding string_at
string_at_moved d s zero m m' h = refl
string_at_moved d s (suc n) m m' h =
    ap₂ (λ x xs. x ∷ xs) (ap m' (omega arith) ∙ h 0 (omega arith) ∙ ap m (omega arith))
      (string_at_moved (d + 1) (s + 1) n m m'
        (λ i lt. ap m' (omega arith) ∙ h (i + 1) (omega arith) ∙ ap m (omega arith)))

pub string_at-memmove :
    (dst src n : ℕ) (m : Memory) → string_at dst n (memmove dst src n m) ≡ string_at src n m
string_at-memmove dst src n m =
    string_at_moved dst src n m (memmove dst src n m) (λ i lt. memmove_at dst src n i m lt)

pub take-string_at : (k n a : ℕ) (m : Memory) → k ≤ n → take k (string_at a n m) ≡ string_at a k m
take-string_at k n a m le =
    let whole : n ≡ k + (n - k) = omega arith in
    ap (λ t. take k (string_at a t m)) whole
    ∙ ap (take k) (string_at-add a k (n - k) m)
    ∙ take-append k (string_at a k m) (string_at (a + k) (n - k) m) (length-string_at a k m)

pub drop-string_at :
    (k n a : ℕ) (m : Memory) → k ≤ n → drop k (string_at a n m) ≡ string_at (a + k) (n - k) m
drop-string_at k n a m le =
    let whole : n ≡ k + (n - k) = omega arith in
    ap (λ t. drop k (string_at a t m)) whole
    ∙ ap (drop k) (string_at-add a k (n - k) m)
    ∙ drop-append k (string_at a k m) (string_at (a + k) (n - k) m) (length-string_at a k m)

-- A piece of what is stored.
pub store-append :
    (dst : ℕ) (xs ys : List ℕ) (m : Memory)
    → store dst (xs ++ ys) m ≡ store (dst + length xs) ys (store dst xs m)
unfolding store
store-append dst [] ys m = ap (λ a. store a ys m) (omega arith)
store-append dst (x ∷ xs) ys m =
    let m' : Memory = λ a. if leb dst a && leb a dst then x else m a in
    let there : dst + 1 + length xs ≡ dst + suc (length xs) = omega arith in
    store-append (dst + 1) xs ys m' ∙ ap (λ a. store a ys (store (dst + 1) xs m')) there
