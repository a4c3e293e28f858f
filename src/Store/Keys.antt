-- ===== src/Store/Keys.antt =====
-- python/peercache/store.py: the storage keys of a page, and the results of pages from those of
-- their components.
pub mod Pages
pub mod Distinct
use peer_cache.Base.{
  ℕ, zero, suc, ◌+◌, ◌/◌, String, Option, none, some, Bool, true, false, List, [], ◌∷◌, ◌++◌, map,
  length, take, drop, ltb, ◌==◌, eq_string, ◌&&◌, if◌then◌else◌,
}
use peer_cache.Base.Text.{join, str}

-- The fields of the store that the storage keys depend on.
pub record KeyLayout : Type 0 where
  pub prefix : String
  pub is_mla : Bool
  pub mha_suffix : String
  pub mla_suffix : String

unfoldable pub init_keys : String → Bool → ℕ → ℕ → ℕ → KeyLayout
init_keys prefix is_mla tp_rank pp_rank pp_size =
    if ltb 1 pp_size
    then record {
      prefix = prefix;
      is_mla = is_mla;
      mha_suffix = join (str tp_rank) (join "_" (str pp_rank));
      mla_suffix = str pp_rank;
    }
    else record { prefix = prefix; is_mla = is_mla; mha_suffix = str tp_rank; mla_suffix = "" }

-- `f"{p}_{k}"`
unfoldable pub tag : String → String → String
tag p k = join p (join "_" k)

unfoldable pub tag_keys : KeyLayout → List String → List String
tag_keys l keys = if l.prefix == "" then keys else map (tag l.prefix) keys

-- `f"{k}_{suffix}_{part}"`
unfoldable pub component : String → String → String → String
component suffix part k = join k (join "_" (join suffix (join "_" part)))

unfoldable pub split_keys : String → List String → List String
unfolding component
split_keys suffix [] = []
split_keys suffix (k ∷ keys) =
    component suffix "k" k ∷ component suffix "v" k ∷ split_keys suffix keys

unfoldable pub component_keys : KeyLayout → List String → List String × ℕ
unfolding tag_keys component split_keys
component_keys l keys =
    if l.is_mla
    then (map (component l.mla_suffix "k") (tag_keys l keys), 1)
    else (split_keys l.mha_suffix (tag_keys l keys), 2)

unfoldable pub lookup_keys : KeyLayout → Bool → List String → List String × ℕ
unfolding component_keys
lookup_keys l raw_keys keys = if raw_keys then (keys, 1) else component_keys l keys

-- `all`
abbrev pub all_of : List Bool → Bool
all_of [] = true
all_of (b ∷ bs) = b && all_of bs

-- `for i in range(0, len(comp_results), multiplier)`, with the rounds that are left at most
unfoldable pub results_from : ℕ → List Bool → ℕ → List Bool
results_from zero comp multiplier = []
results_from (suc n) [] multiplier = []
results_from (suc n) (c ∷ comp) multiplier =
    all_of (take multiplier (c ∷ comp)) ∷ results_from n (drop multiplier (c ∷ comp)) multiplier

unfoldable pub page_results : List Bool → ℕ → List Bool
unfolding results_from
page_results comp multiplier = results_from (length comp) comp multiplier

-- The loop of `_hit_prefix`, from component `i` on.
unfoldable pub prefix_from {ℓ} : {A : Type ℓ} → List (Option A) → ℕ → ℕ → ℕ → ℕ
prefix_from [] i multiplier n = n
prefix_from (none ∷ locs) i multiplier n = i / multiplier
prefix_from (some l ∷ locs) i multiplier n = prefix_from locs (i + 1) multiplier n

unfoldable pub hit_prefix {ℓ} : {A : Type ℓ} → List (Option A) → ℕ → ℕ
unfolding prefix_from
hit_prefix locs multiplier = prefix_from locs 0 multiplier (length locs / multiplier)

-- `block and all(block)`
unfoldable pub full_block : List Bool → Bool
full_block [] = false
full_block (b ∷ bs) = all_of (b ∷ bs)

-- The loop over the pages in `batch_exists`, in slot-map mode: `present[k * mult:(k + 1) * mult]`
-- is the front of what is left.
unfoldable pub count_blocks : ℕ → List Bool → ℕ → ℕ
unfolding full_block
count_blocks zero present multiplier = 0
count_blocks (suc pages) present multiplier =
    let rest = count_blocks pages (drop multiplier present) multiplier in
    if full_block (take multiplier present) then suc rest else 0
