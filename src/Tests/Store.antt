-- ===== src/Tests/Store.antt =====
-- The keys, blobs and caches of python/peercache/store.py on small inputs.
use peer_cache.Base.{
  ℕ, ◌+◌, ◌-◌, ◌≡◌, refl, inl, arith, String, Option, none, some, true, false, List, [], ◌∷◌, map,
  ◌==◌, eq_string, if◌then◌else◌, Distinct,
}
use peer_cache.Base.Memory.{Memory, memmove, string_at}
use peer_cache.Types.{DataLocation}
use peer_cache.Store.Keys.{
  KeyLayout, component_keys, page_results, results_from, hit_prefix, count_blocks,
}
use peer_cache.Store.Keys.Pages.{leading, present, hit_prefix_lem}
use peer_cache.Store.Keys.Distinct.{component_keys-Distinct}
use peer_cache.Store.Pack.{Chunk, total, gather, scatter}
use peer_cache.Store.Pack.RoundTrip.{sizes_of, contents, pack-scatter}
use peer_cache.Store.Cache.{init_cache, prime, take_primed}
use peer_cache.Store.Exists.{
  Lookup, Call, exists_call, locate_call, failed_call, generic_call, serve_all,
}
use peer_cache.Store.Exists.Refinement.{plain_serve_all, keyspace_of, serve_all-plain}
use peer_cache.Store.Exists.Handoff.{take_primed-prime}

abbrev layout : KeyLayout
layout = record { prefix = "p"; is_mla = false; mha_suffix = "0"; mla_suffix = "" }

abbrev page : ℕ → DataLocation
page addr = record {
  node_id = "n1";
  rdma_endpoint = "10.0.0.1:9";
  remote_addr = addr;
  rkey = 7;
  length = 4;
  resident = true;
  rail_endpoints = [];
  rail_rkeys = [];
}

-- The second page lacks its V component.
abbrev locs : List (Option DataLocation)
locs = some (page 0) ∷ some (page 4) ∷ some (page 8) ∷ none ∷ []

one_page : leading (page_results (map present locs) 2) ≡ 1
unfolding leading page_results results_from present
one_page = refl

hit_prefix_lem_example :
    (hit_prefix locs 2 ≡ leading (page_results (map present locs) 2))
    × (count_blocks 2 (map present locs) 2 ≡ leading (page_results (map present locs) 2))
hit_prefix_lem_example = hit_prefix_lem 2 2 locs (omega arith) (omega arith)

component_keys-Distinct_example : Distinct (component_keys layout ("a" ∷ "b" ∷ [])).0
component_keys-Distinct_example = component_keys-Distinct layout ("a" ∷ "b" ∷ []) (refl, (refl, tt))

abbrev from : Chunk
from = (10, 2) ∷ (20, 1) ∷ []

abbrev to : Chunk
to = (50, 2) ∷ (60, 1) ∷ []

abbrev host : Memory
host a = a + 1

-- The reader has the blob at 200.
abbrev reader : Memory
reader a = gather 100 from host (a + 100 - 200)

same_blob : string_at 200 3 reader ≡ string_at 100 3 (gather 100 from host)
unfolding gather memmove string_at
same_blob = refl

pack-scatter_example : contents to (scatter 200 to reader) ≡ contents from host
unfolding sizes_of total
pack-scatter_example =
    pack-scatter from to 100 200 host reader refl (inl (omega arith), (inl (omega arith), tt))
      (inl (omega arith), (inl (omega arith), tt)) ((inl (omega arith), tt), (tt, tt)) same_blob

abbrev truth : String → Option DataLocation
truth k = if k == "p_a_0_k" then some (page 0) else if k == "p_a_0_v" then some (page 4) else none

abbrev fresh : Lookup
fresh = record { cache = init_cache 5 1 100; raw_keys = true; keyspace_detected = false }

abbrev calls : List (ℕ × Call)
calls =
    (0, exists_call ("a" ∷ "b" ∷ []))
    ∷ (0, locate_call ("p_a_0_k" ∷ "p_a_0_v" ∷ []))
    ∷ (3, locate_call ("p_a_0_v" ∷ "a" ∷ []))
    ∷ (1, failed_call ("p_a_0_v" ∷ []))
    ∷ (9, generic_call)
    ∷ (0, exists_call ("a" ∷ []))
    ∷ []

serve_all-plain_example :
    (serve_all (map truth) layout 0 calls fresh).0
    ≡ plain_serve_all truth layout calls (keyspace_of fresh)
unfolding init_cache
serve_all-plain_example =
    serve_all-plain truth layout (map truth) (λ keys. refl) 0 calls fresh
      (record { dir_current = tt; primed_current = tt })

take_primed-prime_example :
    (take_primed
      (λ keys. [])
      3
      ("a" ∷ "b" ∷ [])
      (prime 3 ("a" ∷ "b" ∷ []) (map some (page 0 ∷ page 4 ∷ [])) (init_cache 0 1 100))).0
    ≡ map some (page 0 ∷ page 4 ∷ [])
unfolding init_cache
take_primed-prime_example =
    take_primed-prime (λ keys. []) 3 3 ("a" ∷ "b" ∷ []) (page 0 ∷ page 4 ∷ []) (init_cache 0 1 100)
      (omega arith) (omega arith) (refl, (refl, tt)) (refl, (refl, tt))
