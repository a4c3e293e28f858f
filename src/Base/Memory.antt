-- ===== src/Base/Memory.antt =====
-- The memory that `ctypes` reads and writes, as bytes at addresses.
use mathlib.Core.Path.{ap₂}
use peer_cache.Base.{
  ℕ, zero, suc, ◌+◌, ◌-◌, ◌<◌, ◌≤◌, ◌≡◌, ◌⊎◌, refl, ◌∙◌, inl, arith, List, [], ◌∷◌, ltb, leb, ◌&&◌,
  if◌then◌else◌, length,
}

abbrev pub Memory : Type 0
Memory = ℕ → ℕ

-- `ctypes.memmove(dst, src, n)`
unfoldable pub memmove : ℕ → ℕ → ℕ → Memory → Memory
memmove dst src n m a = if leb dst a && ltb a (dst + n) then m (src + (a - dst)) else m a

-- `ctypes.memmove(dst, buf, len(buf))`
unfoldable pub store : ℕ → List ℕ → Memory → Memory
store dst [] m = m
store dst (b ∷ bs) m = store (dst + 1) bs (λ a. if leb dst a && leb a dst then b else m a)

-- `ctypes.string_at(addr, n)`
unfoldable pub string_at : ℕ → ℕ → Memory → List ℕ
string_at addr zero m = []
string_at addr (suc n) m = m addr ∷ string_at (addr + 1) n m

pub memmove_at :
    (dst src len i : ℕ) (m : Memory) → i < len → memmove dst src len m (dst + i) ≡ m (src + i)
unfolding memmove
memmove_at dst src len i m h = let there : dst + i - dst ≡ i = omega arith in ground (arith, there)

pub memmove_outside :
    (dst src len a : ℕ) (m : Memory) → (a < dst) ⊎ (dst + len ≤ a) → memmove dst src len m a ≡ m a
unfolding memmove
memmove_outside dst src len a m h = ground arith

pub store_outside :
    (dst : ℕ) (bs : List ℕ) (a : ℕ) (m : Memory)
    → (a < dst) ⊎ (dst + length bs ≤ a)
    → store dst bs m a ≡ m a
unfolding store
store_outside dst [] a m h = refl
store_outside dst (b ∷ bs) a m h =
    store_outside (dst + 1) bs a (λ a. if leb dst a && leb a dst then b else m a) (ground arith)
    ∙ ground arith

pub string_at_same :
    (addr n : ℕ) (m m' : Memory)
    → ((a : ℕ) → addr ≤ a → a < addr + n → m a ≡ m' a)
    → string_at addr n m ≡ string_at addr n m'
unfolding string_at
string_at_same addr zero m m' h = refl
string_at_same addr (suc n) m m' h =
    ap₂ (λ x xs. x ∷ xs) (h addr (omega arith) (omega arith))
      (string_at_same (addr + 1) n m m' (λ a lo hi. h a (omega arith) (omega arith)))

pub string_at-store :
    (dst n : ℕ) (bs : List ℕ) (m : Memory) → length bs ≡ n → string_at dst n (store dst bs m) ≡ bs
unfolding string_at store
string_at-store dst zero [] m h = refl
string_at-store dst (suc n) [] m h = absurd (omega arith)
string_at-store dst zero (b ∷ bs) m h = absurd (omega arith)
string_at-store dst (suc n) (b ∷ bs) m h =
    let m' : Memory = λ a. if leb dst a && leb a dst then b else m a in
    ap₂ (λ x xs. x ∷ xs) (store_outside (dst + 1) bs dst m' (inl (omega arith)) ∙ ground arith)
      (string_at-store (dst + 1) n bs m' (omega arith))
