-- ===== src/Tests/Directory.antt =====
-- Runs of the directory: one client and the shards of three nodes.
use peer_cache.Base.{
  ℕ, ◌≡◌, ◌<◌, refl, arith, String, Option, none, some, true, [], ◌∷◌, map, ◌==◌, eq_ℕ, eq_string,
  get_elem?, if◌then◌else◌,
}
use peer_cache.Base.Dict
use peer_cache.Base.Dict.{Dict, Unique}
use peer_cache.Types.{DataLocation}
use peer_cache.Ring
use peer_cache.Ring.{Ring}
use peer_cache.Directory.{
  Shards, Link, up, down, Client, init, update, on_put, on_get, on_exists, on_delete, send, ask,
  add_to_group, add_entry, write_results, read_results, start_results, first_owner, one_owner,
  group_key, add_entries, add_to_groups, owners, primary, group_by_owner, entries_per_node,
  candidates, keys_per_node, send_to, send_puts, ask_node, try_candidates, exists_groups,
  send_deletes, put, get_from_owner, get_groups, get, exists, delete,
}
use peer_cache.Directory.Publish.{shard-put}
use peer_cache.Directory.Delete.{shard-delete}
use peer_cache.Directory.Fetch.{first_serving}
use peer_cache.Directory.Owners.{told, get_lem}
use peer_cache.Directory.RoundTrip.{get-put, batch_misses}
use peer_cache.Tests.Ring.{program as ring, hash, abc}

program : Unit {0}
unfolding ring init update on_put on_get on_exists on_delete send ask add_to_group add_entry
    write_results read_results start_results first_owner one_owner group_key add_entries
    add_to_groups owners primary group_by_owner entries_per_node candidates keys_per_node send_to
    send_puts ask_node try_candidates exists_groups send_deletes put get_from_owner get_groups get
    exists delete
program = tt

abbrev page : DataLocation
page = record {
  node_id = "a";
  rdma_endpoint = "a:1";
  remote_addr = 1000;
  rkey = 7;
  length = 4;
  resident = true;
  rail_endpoints = [];
  rail_rkeys = [];
}

abbrev resolve : String → Option String
resolve n = some n

abbrev all_up : String → Link
all_up ep = up

abbrev nothing : Shards
nothing ep = []

abbrev single : Client
single = init abc 1

abbrev entries : Dict String DataLocation
entries = ("k", page) ∷ ("m", page) ∷ []

entries-Unique : Unique entries
unfolding program
entries-Unique = (refl, (refl, tt))

k_in : Dict.get "k" entries ≡ some page
unfolding program
k_in = refl

primary_k : primary hash single "k" ≡ some "b"
unfolding program
primary_k = refl

-- "k" is published to its owner "b" and to no other.
shard-put_example : Dict.get "k" (put hash resolve all_up single entries nothing "b") ≡ some page
unfolding program
shard-put_example = shard-put hash single resolve all_up "k" "b" entries entries-Unique nothing

shard-delete_example :
    Dict.get "k" (
      delete hash resolve all_up single
        ("k" ∷ [])
        (put hash resolve all_up single entries nothing)
        "b")
    ≡ none
unfolding program
shard-delete_example =
    shard-delete hash single resolve all_up "k" "b" ("k" ∷ [])
      (put hash resolve all_up single entries nothing)

get_lem_example :
    get hash resolve all_up single ("m" ∷ "k" ∷ []) nothing
    ≡ map (told hash resolve all_up single nothing ("m" ∷ "k" ∷ [])) ("m" ∷ "k" ∷ [])
get_lem_example = get_lem hash resolve all_up single nothing ("m" ∷ "k" ∷ [])

get-put_example :
    get_elem?
      (get hash resolve all_up single
        ("m" ∷ "k" ∷ [])
        (put hash resolve all_up single entries nothing))
      1
    ≡ some (some page)
get-put_example =
    get-put hash resolve all_up single ("m" ∷ "k" ∷ []) 1 "k" "b" "b" refl primary_k refl refl
      entries page nothing entries-Unique k_in

-- Two points for each node, those of "a" apart: "j" and "k" have the primary owner "a", "j" the
-- replica "b", and "k" the replica "c".
abbrev hash2 : String → ℕ
hash2 s =
    if s == "a#0"
    then 10
    else if s == "b#0"
    then 20
    else if s == "b#1"
    then 21
    else if s == "a#1"
    then 30
    else if s == "c#0"
    then 40
    else if s == "c#1"
    then 41
    else if s == "j"
    then 5
    else 25

abbrev pair : Client
pair =
    init (Ring.add_node hash2 "c" (Ring.add_node hash2 "b" (Ring.add_node hash2 "a" (Ring.init 2))))
      2

abbrev a_down : String → Link
a_down ep = if ep == "a" then down else up

abbrev after : Shards
after = put hash2 resolve a_down pair (("j", page) ∷ ("k", page) ∷ []) nothing

one_and_two : 1 < pair.replicas
unfolding program
one_and_two = omega arith

j_owner : primary hash2 pair "j" ≡ some "a"
unfolding program
j_owner = refl

k_owner : primary hash2 pair "k" ≡ some "a"
unfolding program
k_owner = refl

j_served : first_serving resolve a_down (owners hash2 pair "j") ≡ some "b"
unfolding program
j_served = refl

k_served : first_serving resolve a_down (owners hash2 pair "k") ≡ some "c"
unfolding program
k_served = refl

k_not_at_b : Dict.get "k" (after "b") ≡ none
unfolding program
k_not_at_b = refl

k_at_c : Dict.get "k" (after "c") ≡ some page
unfolding program
k_at_c = refl

-- Both keys were published, to the replicas that were up. Read together, "k" is missed.
batch_misses_example :
    (get hash2 resolve a_down pair ("j" ∷ "k" ∷ []) after ≡ some page ∷ none ∷ [])
    × (get hash2 resolve a_down pair ("k" ∷ []) after ≡ some page ∷ [])
unfolding program
batch_misses_example =
    batch_misses hash2 resolve a_down pair "j" "k" "a" "b" "c" page after one_and_two j_owner
      k_owner j_served k_served k_not_at_b k_at_c
