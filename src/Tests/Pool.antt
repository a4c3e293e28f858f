-- ===== src/Tests/Pool.antt =====
-- Runs of `PublishedPool`: a pool of ten bytes, with the pages of a few keys.
use peer_cache.Base.{
  ℕ, ◌+◌, ◌≡◌, ◌≢◌, ◌<◌, ◌≤◌, refl, arith, String, none, some, false, List, [], ◌∷◌, ◌==◌, eq_ℕ,
  eq_string, ==_iff, elem,
}
use peer_cache.Base.Dict
use peer_cache.Base.Dict.{Dict, keys}
use peer_cache.Base.Memory.{Memory, memmove}
use peer_cache.Pool.{
  Pool, init, pop_last, take_free, give_free, drop_oldest, take_slot, evict_loop, bump_or_evict,
  allocate, insert, touch, admit, reserve, admit_copy, publish, address_of, remove,
}
use peer_cache.Pool.Tiling.{IsValid}
use peer_cache.Pool.Operations.{Call, publish_page, run, run-init-IsValid}
use peer_cache.Pool.Pages.{publish-address_of, publish-keeps}
use peer_cache.Pool.Lru.{IsFull, publish_full}

program : Unit {0}
unfolding init memmove pop_last take_free give_free drop_oldest take_slot evict_loop bump_or_evict
    allocate insert touch admit reserve admit_copy publish address_of remove run Dict.get Dict.put
    Dict.has Dict.remove Dict.get_or Dict.move_to_end
program = tt

abbrev source : Memory
source a = a + 1

abbrev empty : Pool
empty = init 1000 10 7 []

abbrev calls : List Call
calls = publish_page "a" 0 4 ∷ publish_page "b" 4 4 ∷ []

abbrev two : Pool
two = (run calls empty source).0

two-entries : two.entries ≡ ("a", (0, 4)) ∷ ("b", (4, 4)) ∷ []
unfolding program
two-entries = refl

two-IsValid : IsValid two
two-IsValid = run-init-IsValid 1000 10 7 [] calls source

apart : (x y : String) → (x == y) ≡ false → x ≢ y
apart x y h e = ground (arith, ==_iff x y)

run-init-IsValid_example : IsValid (run calls (init 1000 10 7 []) source).0
run-init-IsValid_example = run-init-IsValid 1000 10 7 [] calls source

a_at : Dict.get "a" two.entries ≡ some (0, 4)
unfolding program
a_at = refl

b_at : Dict.get "b" two.entries ≡ some (4, 4)
unfolding program
b_at = refl

c_missing : Dict.get "c" two.entries ≡ none
unfolding program
c_missing = refl

c_published : (publish "c" 8 4 two source).addr ≡ some 1000
unfolding program
c_published = refl

publish-address_of_example :
    ((address_of "c" (publish "c" 8 4 two source).pool).0 ≡ some (1000, 4))
    × ((i : ℕ) → i < 4 → (publish "c" 8 4 two source).memory (1000 + i) ≡ source (8 + i))
publish-address_of_example = publish-address_of "c" 8 4 two source 1000 c_missing c_published

b_kept : elem "b" (publish "c" 8 4 two source).evicted ≡ false
unfolding program
b_kept = refl

publish-keeps_example :
    (Dict.get "b" (publish "c" 8 4 two source).pool.entries ≡ some (4, 4))
    × ((publish "c" 8 4 two source).pool.base ≡ two.base)
    × ((a : ℕ)
        → 4 ≤ a
        → a < 4 + 4
        → (publish "c" 8 4 two source).memory (two.base + a) ≡ source (two.base + a))
publish-keeps_example =
    publish-keeps "c" 8 4 two source "b" (4, 4) two-IsValid (apart "b" "c" refl) b_at b_kept

two-IsFull : IsFull 3 two
unfolding program
two-IsFull = record { fits = omega arith; none_free = refl; no_room = omega arith }

-- Nothing of the length is resident: both pages go, and the call fails.
publish_full_example :
    ((publish "c" 8 3 two source).addr ≡ none)
    × ((publish "c" 8 3 two source).evicted ≡ "a" ∷ "b" ∷ [])
    × ((publish "c" 8 3 two source).pool.entries ≡ [])
unfolding program
publish_full_example = publish_full "c" 8 3 two source c_missing two-IsFull
