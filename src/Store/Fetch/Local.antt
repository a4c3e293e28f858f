-- ===== src/Store/Fetch/Local.antt =====
-- Pages that the node itself holds: each buffer gets the bytes at its location.
use peer_cache.Base.{
  ℕ, ◌≡◌, refl, ap, ◌∙◌, arith, String, Option, none, some, Bool, true, false, List, [], ◌∷◌, map,
  ◌==◌, eq_string, eq_ℕ, ==_iff, All, All-map,
}
use peer_cache.Base.Memory.{Memory, memmove, memmove_outside, string_at, string_at_same}
use peer_cache.Base.Ranges.{Apart, string_at-memmove}
use peer_cache.Types.{DataLocation}
use peer_cache.Storage.{StorageServer}
use peer_cache.Store.Cache.{Cache, take_primed}
use peer_cache.Store.Slots.Shared.{Page}
use peer_cache.Store.Fetch.{
  decided, away_at, is_at, owners, promote_own, place_all, read_at, read_resident, read_location,
  read_locations, read_pending, fetch,
}

-- A page with its location.
abbrev pub Row : Type 0
Row = Page × DataLocation

abbrev pub IsOwn : String → Row → Type 0
IsOwn self row = (row.1.resident ≡ true) × (row.1.length ≡ row.0.size) × (row.1.node_id ≡ self)

-- The buffer of a page overlaps neither the place nor the buffer of another.
abbrev pub IsClearOf : Row → Row → Type 0
IsClearOf row r =
    Apart row.0.ptr row.0.size r.1.remote_addr r.0.size
    × Apart row.0.ptr row.0.size r.0.ptr r.0.size

-- So for each page and those behind it.
abbrev pub IsClear : List Row → Type 0
IsClear [] = Unit
IsClear (row ∷ rows) = All (IsClearOf row) rows × IsClear rows

abbrev pub locations : List Row → List (Option DataLocation)
locations = map (λ row. some row.1)

abbrev pub pages_of : List Row → List Page
pages_of = map (λ row. row.0)

memmove-Apart :
    (dst src n a k : ℕ) (m : Memory)
    → Apart dst n a k
    → string_at a k (memmove dst src n m) ≡ string_at a k m
memmove-Apart dst src n a k m apart =
    string_at_same a k (memmove dst src n m) m
      (λ x lo hi. memmove_outside dst src n x m (ground arith))

abbrev copied : Row → Memory → Memory
copied row m = memmove row.0.ptr row.1.remote_addr row.0.size m

read_own :
    (row : Row) (s : StorageServer)
    → IsOwn s.node_id row
    → read_location false row.0 (some row.1) s
      ≡ (decided true, record s { memory = copied row s.memory })
unfolding read_location read_resident read_at
read_own row s h =
    let size : (row.1.length == row.0.size) ≡ true = (==_iff row.1.length row.0.size).1 h.1 in
    let here : (row.1.node_id == s.node_id) ≡ true = (==_iff row.1.node_id s.node_id).1 h.2 in
    rw (h.0, size, here)
      (ap
        (λ n. (decided true, record s { memory = memmove row.0.ptr row.1.remote_addr n s.memory }))
        h.1)

abbrev rows_read : List Row → StorageServer → StorageServer
rows_read [] s = s
rows_read (row ∷ rows) s = rows_read rows (record s { memory = copied row s.memory })

read_rows :
    (rows : List Row) (s : StorageServer)
    → All (IsOwn s.node_id) rows
    → read_locations false (pages_of rows) (locations rows) s
      ≡ (map (λ row. decided true) rows, rows_read rows s)
unfolding read_locations
read_rows [] s h = refl
read_rows (row ∷ rows) s h =
    rw (read_own row s h.0, read_rows rows (record s { memory = copied row s.memory }) h.1) refl

-- A range that no buffer overlaps is as before.
rows_read-Apart :
    (a n : ℕ) (rows : List Row) (s : StorageServer)
    → All (λ row. Apart row.0.ptr row.0.size a n) rows
    → string_at a n (rows_read rows s).memory ≡ string_at a n s.memory
rows_read-Apart a n [] s h = refl
rows_read-Apart a n (row ∷ rows) s h =
    rows_read-Apart a n rows (record s { memory = copied row s.memory }) h.1
    ∙ memmove-Apart row.0.ptr row.1.remote_addr row.0.size a n s.memory h.0

-- Each buffer has the bytes that were at the location before.
abbrev pub Received : Memory → Memory → Row → Type 0
Received m m' row = string_at row.0.ptr row.0.size m' ≡ string_at row.1.remote_addr row.0.size m

Apart-swap : (a n b k : ℕ) → Apart a n b k → Apart b k a n
Apart-swap a n b k h = ground arith

Received-before :
    (row : Row) (rows : List Row) (m m' : Memory)
    → All (IsClearOf row) rows
    → All (Received (copied row m) m') rows
    → All (Received m m') rows
Received-before row [] m m' clear h = tt
Received-before row (r ∷ rows) m m' clear h = (
  h.0 ∙ memmove-Apart row.0.ptr row.1.remote_addr row.0.size r.1.remote_addr r.0.size m clear.0.0,
  Received-before row rows m m' clear.1 h.1,
)

rows-Received :
    (rows : List Row) (s : StorageServer)
    → IsClear rows
    → All (Received s.memory (rows_read rows s).memory) rows
rows-Received [] s h = tt
rows-Received (row ∷ rows) s h =
    let s' : StorageServer = record s { memory = copied row s.memory } in
    (
      rows_read-Apart row.0.ptr row.0.size rows s' (
            All-map (IsClearOf row) (λ r. Apart r.0.ptr r.0.size row.0.ptr row.0.size) rows
              (λ r c. Apart-swap row.0.ptr row.0.size r.0.ptr r.0.size c.1) h.0)
          ∙ string_at-memmove row.0.ptr row.1.remote_addr row.0.size s.memory,
      Received-before row rows s.memory (rows_read rows s').memory h.0 (rows-Received rows s' h.1),
    )

not_away : (loc : DataLocation) → loc.resident ≡ true → away_at (some loc) ≡ none
unfolding away_at
not_away loc here = rw here refl

promote_nothing :
    (buf : String → ℕ) (keys : List String) (rows : List Row) (s : StorageServer)
    → All (IsOwn s.node_id) rows
    → promote_own buf keys (locations rows) s ≡ (locations rows, s)
unfolding promote_own is_at
promote_nothing buf [] rows s h = refl
promote_nothing buf (k ∷ keys) [] s h = refl
promote_nothing buf (k ∷ keys) (row ∷ rows) s h =
    rw (not_away row.1 h.0.0, promote_nothing buf keys rows s h.1) refl

owners_none :
    (self : String) (rows : List Row) → All (IsOwn self) rows → owners self (locations rows) [] ≡ []
unfolding owners
owners_none self [] h = refl
owners_none self (row ∷ rows) h = rw (not_away row.1 h.0.0, owners) (owners_none self rows h.1)

read_decided :
    (up : ℕ → Bool) (world : String → Memory) (rows : List Row) (m : Memory)
    → read_pending up world 0 (map (λ row. decided true) rows) m ≡ (map (λ row. true) rows, m)
unfolding read_pending
read_decided up world [] m = refl
read_decided up world (row ∷ rows) m = rw (read_decided up world rows m) refl

-- A node that is not a hybrid one with two copies fetches pages for which its caches and the
-- directory give resident locations of its own, each of the page's length, into buffers that
-- overlap neither each other nor the places of the pages behind them. Every result is true,
-- whatever the peers do, and each buffer has the bytes that were at the page's location.
pub fetch_held :
    (buf : String → ℕ) (promote_at : String → List String → Option (List (Option DataLocation)))
    (ask : List String → List (Option DataLocation)) (now : ℕ) (up : ℕ → Bool)
    (world : String → Memory) (rows : List Row) (cache : Cache) (s : StorageServer)
    → (take_primed ask now (map (λ page. page.key) (pages_of rows)) cache).0 ≡ locations rows
    → All (IsOwn s.node_id) rows
    → IsClear rows
    → (let done = fetch buf promote_at ask now false up world (pages_of rows) cache s in
        (done.0 ≡ map (λ row. true) rows) × All (Received s.memory done.2.memory) rows)
unfolding fetch place_all
fetch_held buf promote_at ask now up world rows cache s found own clear =
    let keys = map (λ page. page.key) (pages_of rows) in
    rw
      (
        found,
        promote_nothing buf keys rows s own,
        owners_none s.node_id rows own,
        read_rows rows s own,
        read_decided up world rows (rows_read rows s).memory,
      )
      (refl, rows-Received rows s clear)
