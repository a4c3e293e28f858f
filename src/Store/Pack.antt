-- ===== src/Store/Pack.antt =====
-- python/peercache/store.py: pages of several host buffers, stored as one blob. A chunk is the
-- list of the addresses and sizes of a page's buffers; the blob of page `i` is allocated at the
-- address `buf i`. `none` is the AssertionError or ZeroDivisionError of `_pack_multi_buffer`.
pub mod RoundTrip
use peer_cache.Base.{
  ℕ, zero, suc, ◌+◌, ◌*◌, ◌/◌, ◌%◌, Option, none, some, Bool, true, false, List, [], ◌∷◌, ◌++◌,
  length, take, drop, leb, ltb, ◌==◌, eq_ℕ, ◌||◌, if◌then◌else◌,
}
use peer_cache.Base.Memory.{Memory, memmove}

abbrev pub Chunk : Type 0
Chunk = List (ℕ × ℕ)

-- `zip(chunk, chunk_sizes)`
unfoldable pub zip_chunk : List ℕ → List ℕ → Chunk
zip_chunk (p ∷ ps) (sz ∷ sizes) = (p, sz) ∷ zip_chunk ps sizes
zip_chunk _ _ = []

-- `sum(chunk_sizes)`
unfoldable pub total : List ℕ → ℕ
total [] = 0
total (sz ∷ sizes) = sz + total sizes

-- The copies of `_pack_multi_buffer` into one blob, from `dst` on.
unfoldable pub gather : ℕ → Chunk → Memory → Memory
gather dst [] m = m
gather dst ((p, sz) ∷ chunk) m = gather (dst + sz) chunk (memmove dst p sz m)

-- The copies of `_scatter_multi_buffer` from one blob, from `src` on.
unfoldable pub scatter : ℕ → Chunk → Memory → Memory
scatter src [] m = m
scatter src ((p, sz) ∷ chunk) m = scatter (src + sz) chunk (memmove p src sz m)

-- `xs[i * n:(i + 1) * n]`
unfoldable pub slice : ℕ → ℕ → List ℕ → List ℕ
slice i n xs = take n (drop (i * n) xs)

pub record Packed : Type 0 where
  pub ptrs : List ℕ
  pub sizes : List ℕ
  pub keepalive : List ℕ
  pub memory : Memory

module _ (buf : ℕ → ℕ) where
  -- The rounds of `_pack_multi_buffer` from page `i` on, `n` of them.
  unfoldable pub pack_pages : ℕ → ℕ → ℕ → List ℕ → List ℕ → Packed → Packed
  unfolding gather zip_chunk total slice
  pack_pages zero i nbuf ptrs sizes p = p
  pack_pages (suc n) i nbuf ptrs sizes p =
      let chunk_sizes = slice i nbuf sizes in
      pack_pages n (i + 1) nbuf ptrs sizes (record {
        ptrs = p.ptrs ++ buf i ∷ [];
        sizes = p.sizes ++ total chunk_sizes ∷ [];
        keepalive = p.keepalive ++ buf i ∷ [];
        memory = gather (buf i) (zip_chunk (slice i nbuf ptrs) chunk_sizes) p.memory;
      })

  unfoldable pub pack_multi_buffer : ℕ → List ℕ → List ℕ → Memory → Option Packed
  unfolding pack_pages
  pack_multi_buffer n ptrs sizes m =
      if length ptrs == n
      then some (record { ptrs = ptrs; sizes = sizes; keepalive = []; memory = m })
      else if n == 0 || ltb 0 (length ptrs % n)
      then none
      else some (
          pack_pages n 0 (length ptrs / n) ptrs sizes
            (record { ptrs = []; sizes = []; keepalive = []; memory = m }))

-- One round of `_scatter_multi_buffer`: the result of a page stands unless it has no blob.
unfoldable pub scatter_page : Bool → Option ℕ → Chunk → Memory → Bool × Memory
unfolding scatter
scatter_page false src chunk m = (false, m)
scatter_page true none chunk m = (false, m)
scatter_page true (some src) chunk m = (true, scatter src chunk m)

-- `keepalive[i]`, or `none` for `i >= len(keepalive)`
unfoldable pub front : List ℕ → Option ℕ
front [] = none
front (src ∷ _) = some src

-- The rounds from page `i` on, with the blobs that are left.
unfoldable pub scatter_pages :
    ℕ → ℕ → List ℕ → List ℕ → List ℕ → List Bool → Memory → List Bool × Memory
unfolding scatter_page front zip_chunk slice
scatter_pages i nbuf ptrs sizes keepalive [] m = ([], m)
scatter_pages i nbuf ptrs sizes keepalive (ok ∷ results) m =
    let (ok', m') =
      scatter_page ok (front keepalive) (zip_chunk (slice i nbuf ptrs) (slice i nbuf sizes)) m in
    let (results', m'') = scatter_pages (i + 1) nbuf ptrs sizes (drop 1 keepalive) results m' in
    (ok' ∷ results', m'')

unfoldable pub scatter_multi_buffer :
    ℕ → List ℕ → List ℕ → List ℕ → List Bool → Memory → List Bool × Memory
unfolding scatter_pages
scatter_multi_buffer n ptrs sizes keepalive results m =
    if length ptrs == n
    then (results, m)
    else scatter_pages 0 (length ptrs / n) ptrs sizes keepalive results m
