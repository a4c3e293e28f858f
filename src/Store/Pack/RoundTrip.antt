-- ===== src/Store/Pack/RoundTrip.antt =====
-- What is packed is what is scattered, in python/peercache/store.py.
use mathlib.Core.Path.{ap₂}
use peer_cache.Base.{
  ℕ, ◌+◌, ◌≤◌, ◌<◌, ◌≡◌, ◌⊎◌, inl, refl, sym, ap, ◌∙◌, arith, List, [], ◌∷◌, take, drop, All,
  All-map,
}
use peer_cache.Base.Bytes.{take-append, drop-append}
use peer_cache.Base.Ranges.{Apart, length-string_at, string_at-add, string_at-memmove}
use peer_cache.Base.Memory.{Memory, memmove, string_at, string_at_same, memmove_outside}
use peer_cache.Store.Pack.{Chunk, total, gather, scatter}

unfoldable pub sizes_of : Chunk → List ℕ
sizes_of [] = []
sizes_of ((p, sz) ∷ chunk) = sz ∷ sizes_of chunk

-- The bytes of the buffers.
unfoldable pub contents : Chunk → Memory → List (List ℕ)
contents [] m = []
contents ((p, sz) ∷ chunk) m = string_at p sz m ∷ contents chunk m

-- A blob, cut into pieces of the given sizes.
unfoldable pub cut : List ℕ → List ℕ → List (List ℕ)
cut [] bytes = []
cut (sz ∷ sizes) bytes = take sz bytes ∷ cut sizes (drop sz bytes)

-- No two buffers overlap.
abbrev pub Disjoint : Chunk → Type 0
Disjoint [] = Unit
Disjoint ((p, sz) ∷ chunk) = All (λ d. Apart p sz d.0 d.1) chunk × Disjoint chunk

gather-outside :
    (dst : ℕ) (chunk : Chunk) (a : ℕ) (m : Memory)
    → (a < dst) ⊎ (dst + total (sizes_of chunk) ≤ a)
    → gather dst chunk m a ≡ m a
unfolding gather sizes_of total
gather-outside dst [] a m h = refl
gather-outside dst ((p, sz) ∷ chunk) a m h =
    gather-outside (dst + sz) chunk a (memmove dst p sz m) (ground arith)
    ∙ memmove_outside dst p sz a m (ground arith)

scatter-outside :
    (src : ℕ) (chunk : Chunk) (a n : ℕ) (m : Memory)
    → All (λ d. Apart a n d.0 d.1) chunk
    → string_at a n (scatter src chunk m) ≡ string_at a n m
unfolding scatter
scatter-outside src [] a n m h = refl
scatter-outside src ((p, sz) ∷ chunk) a n m h =
    scatter-outside (src + sz) chunk a n (memmove p src sz m) h.1
    ∙ string_at_same a n (memmove p src sz m) m
        (λ i lo hi. memmove_outside p src sz i m (ground arith))

contents_same :
    (chunk : Chunk) (dst n : ℕ) (m m' : Memory)
    → ((a : ℕ) → (a < dst) ⊎ (dst + n ≤ a) → m' a ≡ m a)
    → All (λ d. Apart d.0 d.1 dst n) chunk
    → contents chunk m' ≡ contents chunk m
unfolding contents
contents_same [] dst n m m' same h = refl
contents_same ((p, sz) ∷ chunk) dst n m m' same h =
    ap₂ (λ x xs. x ∷ xs) (string_at_same p sz m' m (λ a lo hi. same a (ground (arith, h.0))))
      (contents_same chunk dst n m m' same h.1)

cut-cons :
    (sz k a : ℕ) (sizes : List ℕ) (m : Memory)
    → cut (sz ∷ sizes) (string_at a (sz + k) m)
      ≡ string_at a sz m ∷ cut sizes (string_at (a + sz) k m)
unfolding cut
cut-cons sz k a sizes m =
    let e = string_at-add a sz k m in
    let size = length-string_at a sz m in
    ap₂ (λ x xs. x ∷ cut sizes xs)
      (ap (take sz) e ∙ take-append sz (string_at a sz m) (string_at (a + sz) k m) size)
      (ap (drop sz) e ∙ drop-append sz (string_at a sz m) (string_at (a + sz) k m) size)

Apart-front :
    (a n k : ℕ) (chunk : Chunk)
    → All (λ d. Apart d.0 d.1 a (n + k)) chunk
    → All (λ d. Apart d.0 d.1 a n) chunk
Apart-front a n k chunk h =
    All-map (λ d. Apart d.0 d.1 a (n + k)) (λ d. Apart d.0 d.1 a n) chunk (λ d apart. ground arith)
      h

Apart-back :
    (a n k : ℕ) (chunk : Chunk)
    → All (λ d. Apart d.0 d.1 a (n + k)) chunk
    → All (λ d. Apart d.0 d.1 (a + n) k) chunk
Apart-back a n k chunk h =
    All-map (λ d. Apart d.0 d.1 a (n + k)) (λ d. Apart d.0 d.1 (a + n) k) chunk
      (λ d apart. ground arith) h

-- The blob holds the buffers' bytes, one after the other.
gather-contents :
    (dst : ℕ) (chunk : Chunk) (m : Memory)
    → All (λ d. Apart d.0 d.1 dst (total (sizes_of chunk))) chunk
    → cut (sizes_of chunk) (string_at dst (total (sizes_of chunk)) (gather dst chunk m))
      ≡ contents chunk m
unfolding gather contents total sizes_of cut
gather-contents dst [] m h = refl
gather-contents dst ((p, sz) ∷ chunk) m h =
    let rest = total (sizes_of chunk) in
    let m' = memmove dst p sz m in
    let after = gather (dst + sz) chunk m' in
    cut-cons sz rest dst (sizes_of chunk) after
    ∙ ap₂ (λ x xs. x ∷ xs)
        (string_at_same dst sz after m' (λ a lo hi. gather-outside (dst + sz) chunk a m' (inl hi))
          ∙ string_at-memmove dst p sz m)
        (gather-contents (dst + sz) chunk m' (Apart-back dst sz rest chunk h.1)
          ∙ contents_same chunk dst sz m m' (λ a out. memmove_outside dst p sz a m out)
              (Apart-front dst sz rest chunk h.1))

-- The buffers hold the pieces of the blob.
scatter-contents :
    (src : ℕ) (chunk : Chunk) (m : Memory)
    → All (λ d. Apart d.0 d.1 src (total (sizes_of chunk))) chunk
    → Disjoint chunk
    → contents chunk (scatter src chunk m)
      ≡ cut (sizes_of chunk) (string_at src (total (sizes_of chunk)) m)
unfolding scatter contents total sizes_of cut
scatter-contents src [] m h d = refl
scatter-contents src ((p, sz) ∷ chunk) m h d =
    let rest = total (sizes_of chunk) in
    let m' = memmove p src sz m in
    let untouched : string_at (src + sz) rest m' ≡ string_at (src + sz) rest m =
      string_at_same (src + sz) rest m' m
        (λ a lo hi. memmove_outside p src sz a m (ground (arith, h.0))) in
    ap₂ (λ x xs. x ∷ xs)
      (scatter-outside (src + sz) chunk p sz m' d.0 ∙ string_at-memmove p src sz m)
      (scatter-contents (src + sz) chunk m' (Apart-back src sz rest chunk h.1) d.1
        ∙ ap (cut (sizes_of chunk)) untouched)
    ∙ sym (cut-cons sz rest src (sizes_of chunk) m)

-- A page of several buffers that is packed into a blob, and whose blob a reader has in its memory,
-- is scattered there into buffers of the same sizes: each of them then holds the bytes of the
-- buffer it corresponds to. The writer's buffers do not overlap the blob, nor do the reader's, and
-- these do not overlap one another.
pub pack-scatter :
    (from to : Chunk) (blob copy : ℕ) (m m' : Memory)
    → sizes_of to ≡ sizes_of from
    → All (λ d. Apart d.0 d.1 blob (total (sizes_of from))) from
    → All (λ d. Apart d.0 d.1 copy (total (sizes_of to))) to
    → Disjoint to
    → string_at copy (total (sizes_of to)) m'
      ≡ string_at blob (total (sizes_of from)) (gather blob from m)
    → contents to (scatter copy to m') ≡ contents from m
pack-scatter from to blob copy m m' sizes writer reader d fetched =
    scatter-contents copy to m' reader d
    ∙ ap₂ (λ s bytes. cut s bytes) sizes fetched
    ∙ gather-contents blob from m writer
