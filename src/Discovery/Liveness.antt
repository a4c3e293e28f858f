-- ===== src/Discovery/Liveness.antt =====
-- Who is a member, whatever requests the server gets.
use peer_cache.Base.{
  ℕ, ◌+◌, ◌≤◌, ◌≡◌, refl, sym, ap, subst, ◌∙◌, inl, inr, arith, String, Option, none, some, Bool,
  false, List, [], ◌∷◌, ltb, ◌==◌, eq_string, ==_iff, if◌then◌else◌, Bool-cases,
}
use peer_cache.Base.Dict
use peer_cache.Base.Dict.{Dict, Unique, Unique-put, Unique-remove, get-put, get-remove}
use peer_cache.Types.{NodeInfo}
use peer_cache.Discovery.{
  Members, prune, beat, on_register, on_heartbeat, on_members, on_deregister, Request, register,
  heartbeat, members, deregister, serve, serve_all,
}

-- An entry that is not too old.
abbrev alive : ℕ → ℕ → Option (NodeInfo × ℕ) → Option (NodeInfo × ℕ)
alive ttl now none = none
alive ttl now (some e) = if ltb (e.1 + ttl) now then none else some e

pub get-prune :
    (ttl now : ℕ) (n : String) (table : Members)
    → Unique table
    → Dict.get n (prune ttl now table) ≡ alive ttl now (Dict.get n table)
unfolding prune Dict.get
get-prune ttl now n [] u = refl
get-prune ttl now n ((j, e) ∷ table) u = elim (Bool-cases (j == n)) [
  | inr other ↦ ground (arith, other, get-prune ttl now n table u.1)
  | inl same ↦
      let gone : Dict.get n table ≡ none =
        subst (λ t. Dict.get t table ≡ none) ((==_iff j n).0 same) u.0 in
      let rest : Dict.get n (prune ttl now table) ≡ none =
        get-prune ttl now n table u.1 ∙ ap (alive ttl now) gone in
      ground (arith, same, rest)
]

prune-Unique : (ttl now : ℕ) (table : Members) → Unique table → Unique (prune ttl now table)
unfolding prune
prune-Unique ttl now [] u = tt
prune-Unique ttl now ((j, e) ∷ table) u = elim (Bool-cases (ltb (e.1 + ttl) now)) [
  | inl old ↦ rw old (prune-Unique ttl now table u.1)
  | inr young ↦
      rw young
        (get-prune ttl now j table u.1 ∙ ap (alive ttl now) u.0, prune-Unique ttl now table u.1)
]

beat-Unique :
    (now : ℕ) (n : String) (o : Option (NodeInfo × ℕ)) (table : Members)
    → Unique table
    → Unique (beat now n o table).1
unfolding beat
beat-Unique now n none table u = u
beat-Unique now n (some e) table u = Unique-put n (e.0, now) table u

pub serve-Unique :
    (ttl now : ℕ) (request : Request) (table : Members)
    → Unique table
    → Unique (serve ttl now request table)
unfolding serve on_register on_heartbeat on_members on_deregister
serve-Unique ttl now (register info) table u =
    prune-Unique ttl now (Dict.put info.node_id (info, now) table)
      (Unique-put info.node_id (info, now) table u)
serve-Unique ttl now (heartbeat n) table u =
    prune-Unique ttl now (beat now n (Dict.get n table) table).1
      (beat-Unique now n (Dict.get n table) table u)
serve-Unique ttl now members table u = prune-Unique ttl now table u
serve-Unique ttl now (deregister n) table u = Unique-remove n table u

unfoldable pub renewed : ℕ → Option (NodeInfo × ℕ) → Option (NodeInfo × ℕ)
renewed now none = none
renewed now (some e) = some (e.0, now)

-- What a request does to the entry of the node `n`.
unfoldable pub entry_after :
    ℕ → ℕ → String → Request → Option (NodeInfo × ℕ) → Option (NodeInfo × ℕ)
entry_after ttl now n (register info) o =
    alive ttl now (if info.node_id == n then some (info, now) else o)
entry_after ttl now n (heartbeat m) o = alive ttl now (if m == n then renewed now o else o)
entry_after ttl now n members o = alive ttl now o
entry_after ttl now n (deregister m) o = if m == n then none else o

get-beat :
    (now : ℕ) (n m : String) (table : Members) (o : Option (NodeInfo × ℕ))
    → Dict.get m table ≡ o
    → Dict.get n (beat now m o table).1
      ≡ (if m == n then renewed now (Dict.get n table) else Dict.get n table)
unfolding beat renewed
get-beat now n m table none e = elim (Bool-cases (m == n)) [
  | inr other ↦ rw other refl
  | inl same ↦
      rw same
        (let p = (==_iff m n).0 same in let q = ap (λ t. Dict.get t table) (sym p) ∙ e in rw q refl)
]
get-beat now n m table (some x) e = elim (Bool-cases (m == n)) [
  | inr other ↦ rw other (get-put m n (x.0, now) table ∙ rw other refl)
  | inl same ↦ rw same (
      let q = ap (λ t. Dict.get t table) (sym ((==_iff m n).0 same)) ∙ e in
      get-put m n (x.0, now) table ∙ rw (same, q) refl)
]

-- On a table without repetitions a request changes the entry of each node by itself: `register`
-- and a heartbeat of the node that is known set its time, `deregister` removes it, and every
-- request but `deregister` removes the nodes that were silent for more than the TTL.
get-serve :
    (ttl now : ℕ) (n : String) (request : Request) (table : Members)
    → Unique table
    → Dict.get n (serve ttl now request table) ≡ entry_after ttl now n request (Dict.get n table)
unfolding serve on_register on_heartbeat on_members on_deregister entry_after
get-serve ttl now n (register info) table u =
    get-prune ttl now n (Dict.put info.node_id (info, now) table)
      (Unique-put info.node_id (info, now) table u)
    ∙ ap (alive ttl now) (get-put info.node_id n (info, now) table)
get-serve ttl now n (heartbeat m) table u =
    get-prune ttl now n (beat now m (Dict.get m table) table).1
      (beat-Unique now m (Dict.get m table) table u)
    ∙ ap (alive ttl now) (get-beat now n m table (Dict.get m table) refl)
get-serve ttl now n members table u = get-prune ttl now n table u
get-serve ttl now n (deregister m) table u = get-remove m n table

-- When the node `n` was last seen, and that it is never silent for more than the TTL.
abbrev renews : String → Request → Bool
renews n (register info) = info.node_id == n
renews n (heartbeat m) = m == n
renews n members = false
renews n (deregister m) = false

abbrev leaves : String → Request → Bool
leaves n (register info) = false
leaves n (heartbeat m) = false
leaves n members = false
leaves n (deregister m) = m == n

abbrev seen : String → ℕ → Request → ℕ → ℕ
seen n now r last = if renews n r then now else last

abbrev pub Steady : ℕ → String → ℕ → List (ℕ × Request) → Type 0
Steady ttl n last [] = Unit
Steady ttl n last ((now, r) ∷ rest) =
    (now ≤ last + ttl) × (leaves n r ≡ false) × Steady ttl n (seen n now r last) rest

abbrev pub last_seen : String → ℕ → List (ℕ × Request) → ℕ
last_seen n last [] = last
last_seen n last ((now, r) ∷ rest) = last_seen n (seen n now r last) rest

stays :
    (ttl now last : ℕ) (n : String) (r : Request) (info : NodeInfo)
    → now ≤ last + ttl
    → leaves n r ≡ false
    → (info' : NodeInfo) × (entry_after ttl now n r (some (info, last))
        ≡ some (info', seen n now r last))
unfolding entry_after renewed
stays ttl now last n (register i) info h l = elim (Bool-cases (i.node_id == n)) [
  | inl own ↦ (i, rw own (ground arith))
  | inr other ↦ (info, rw other (ground arith))
]
stays ttl now last n (heartbeat m) info h l = elim (Bool-cases (m == n)) [
  | inl own ↦ (info, rw own (ground arith))
  | inr other ↦ (info, rw other (ground arith))
]
stays ttl now last n members info h l = (info, ground arith)
stays ttl now last n (deregister m) info h l = (info, rw l refl)

-- On a table without repetitions, a member that does not deregister, and of which at no request
-- of any node more than the TTL has gone since it registered or sent a heartbeat, is a member
-- after all of them, with the time when it was last seen.
pub Steady-member :
    (ttl : ℕ) (n : String) (requests : List (ℕ × Request)) (last : ℕ) (info : NodeInfo)
    (table : Members)
    → Unique table
    → Dict.get n table ≡ some (info, last)
    → Steady ttl n last requests
    → (info' : NodeInfo) × (Dict.get n (serve_all ttl requests table)
        ≡ some (info', last_seen n last requests))
unfolding serve_all
Steady-member ttl n [] last info table u h s = (info, h)
Steady-member ttl n ((now, r) ∷ rest) last info table u h s =
    let (info', e) = stays ttl now last n r info s.0 s.1 in
    Steady-member ttl n rest (seen n now r last) info' (serve ttl now r table)
      (serve-Unique ttl now r table u)
      (get-serve ttl now n r table u ∙ ap (entry_after ttl now n r) h ∙ e) s.2
