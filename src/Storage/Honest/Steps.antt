-- ===== src/Storage/Honest/Steps.antt =====
-- A resident location in the directory is the place of the key's page in the pool: the steps that
-- the handlers are made of.
use peer_cache.Base.{
  ℕ, ◌+◌, ◌≡◌, refl, sym, ap, ◌∙◌, inl, inr, subst, arith, String, Option, none, some, true, false,
  List, eq_string, ==_refl, elem, All, All-map,
}
use peer_cache.Base.Dict
use peer_cache.Base.Dict.{Dict, has-put}
use peer_cache.Base.Entries.{All-put}
use peer_cache.Types.{DataLocation}
use peer_cache.Pool
use peer_cache.Pool.{Pool}
use peer_cache.Pool.Keeps.{Keeps, publish-Keeps, reserve-Keeps, address_of-Keeps}
use peer_cache.Storage.{StorageServer, put_some, delete_some, after_evict, reserve_page}
use peer_cache.Storage.Ingest.{pool_publish, keep_page}
use peer_cache.Storage.Honest.Replay.{
  recorded, recorded-put_some, recorded-delete_some, get-put_all, get-delete_all, after_evict-away,
  Frame, put_some-Frame, delete_some-Frame, after_evict-Frame,
}

-- The page of a location, and that its length is known for the case of its eviction.
pub record IsAnnounced (lengths : Dict String ℕ) (p : Pool) (k : String) (loc : DataLocation)
    : Type 0 where
  pub known : Dict.has k lengths ≡ true
  pub page : ℕ × ℕ
  pub held : Dict.get k p.entries ≡ some page
  pub there : loc.remote_addr ≡ p.base + page.0

abbrev pub Tells : Dict String ℕ → Pool → String × DataLocation → Type 0
Tells lengths p e = e.1.resident ≡ true → IsAnnounced lengths p e.0 e.1

abbrev pub IsHonestOn : Dict String ℕ → Pool → StorageServer → Type 0
IsHonestOn lengths p s =
    (k : String) (loc : DataLocation)
    → Dict.get k (recorded s) ≡ some loc
    → Tells lengths p (k, loc)

abbrev pub IsHonest : StorageServer → Type 0
IsHonest s = IsHonestOn s.key_len s.pool s

pub IsAnnounced-Keeps :
    {lengths : Dict String ℕ} {p q : Pool} {evicted : List String} (k : String) (loc : DataLocation)
    → Keeps p q evicted
    → elem k evicted ≡ false
    → IsAnnounced lengths p k loc
    → IsAnnounced lengths q k loc
IsAnnounced-Keeps k loc h out a = record {
  known = a.known;
  page = a.page;
  held = h.kept k a.page a.held out;
  there = a.there ∙ ap (λ b. b + a.page.0) (sym h.base);
}

pub IsAnnounced-put :
    {lengths : Dict String ℕ} {p : Pool} (j k : String) (len : ℕ) (loc : DataLocation)
    → IsAnnounced lengths p k loc
    → IsAnnounced (Dict.put j len lengths) p k loc
IsAnnounced-put {lengths} j k len loc a = record {
  known = rw (has-put j k len lengths) (ground (arith, a.known));
  page = a.page;
  held = a.held;
  there = a.there;
}

-- Equal lengths and an equal pool tell the same.
Tells-Frame :
    (s s' : StorageServer) (e : String × DataLocation)
    → Frame s s'
    → Tells s.key_len s.pool e
    → Tells s'.key_len s'.pool e
Tells-Frame s s' e f h =
    subst (λ l. Tells l s'.pool e) (sym f.1) (subst (λ p. Tells s.key_len p e) (sym f.0) h)

pub after_evict-IsHonest :
    (evicted : List String) (s : StorageServer) (p : Pool)
    → Keeps p s.pool evicted
    → IsHonestOn s.key_len p s
    → IsHonest (after_evict evicted s)
after_evict-IsHonest evicted s p kept h k loc found =
    Tells-Frame s (after_evict evicted s) (k, loc) (after_evict-Frame evicted s)
      (λ here.
        let (before, stays) = after_evict-away evicted s k loc found here in
        let a = h k loc before here in IsAnnounced-Keeps k loc kept (stays a.known) a)

pub pool_publish-IsHonest :
    (key : String) (src len : ℕ) (s : StorageServer)
    → IsHonest s
    → IsHonest (pool_publish key src len s).1
unfolding pool_publish recorded
pool_publish-IsHonest key src len s h =
    let r = Pool.publish key src len s.pool s.memory in
    after_evict-IsHonest r.evicted (record s { pool = r.pool; memory = r.memory }) s.pool
      (publish-Keeps key src len s.pool s.memory) h

pub reserve_page-IsHonest :
    (key : String) (len : ℕ) (s : StorageServer) → IsHonest s → IsHonest (reserve_page key len s).1
unfolding reserve_page recorded
reserve_page-IsHonest key len s h =
    let r = Pool.reserve key len s.pool in
    after_evict-IsHonest r.evicted (record s { pool = r.pool }) s.pool
      (reserve-Keeps key len s.pool) h

pub address_of-IsHonest :
    (key : String) (s : StorageServer)
    → IsHonest s
    → IsHonest (record s { pool = (Pool.address_of key s.pool).1 })
unfolding recorded
address_of-IsHonest key s h k loc found here =
    IsAnnounced-Keeps k loc (address_of-Keeps key s.pool) refl (h k loc found here)

pub put_some-IsHonest :
    (entries : Dict String DataLocation) (s : StorageServer)
    → All (Tells s.key_len s.pool) entries
    → IsHonest s
    → IsHonest (put_some entries s)
put_some-IsHonest entries s told h k loc found =
    Tells-Frame s (put_some entries s) (k, loc) (put_some-Frame entries s)
      (elim (get-put_all (Tells s.key_len s.pool) entries (recorded s) k loc told
        (subst (λ d. Dict.get k d ≡ some loc) (recorded-put_some entries s) found)) [
          | inl t ↦ t
          | inr out ↦ h k loc out.1
        ])

pub delete_some-IsHonest :
    (ks : List String) (s : StorageServer) → IsHonest s → IsHonest (delete_some ks s)
delete_some-IsHonest ks s h k loc found =
    Tells-Frame s (delete_some ks s) (k, loc) (delete_some-Frame ks s)
      (h k loc
        (get-delete_all ks (recorded s) k loc
          (subst (λ d. Dict.get k d ≡ some loc) (recorded-delete_some ks s) found)).1)

-- The keys whose length is known.
abbrev pub Known : Dict String ℕ → String × DataLocation → Type 0
Known lengths e = Dict.has e.0 lengths ≡ true

Known-put :
    (j : String) (len : ℕ) (lengths : Dict String ℕ) (entries : Dict String DataLocation)
    → All (Known lengths) entries
    → All (Known (Dict.put j len lengths)) entries
Known-put j len lengths entries h =
    All-map (Known lengths) (Known (Dict.put j len lengths)) entries
      (λ e k. rw (has-put j e.0 len lengths) (ground (arith, k))) h

pub pool_publish-key_len :
    (key : String) (src len : ℕ) (s : StorageServer)
    → (pool_publish key src len s).1.key_len ≡ s.key_len
unfolding pool_publish
pool_publish-key_len key src len s =
    let r = Pool.publish key src len s.pool s.memory in
    (after_evict-Frame r.evicted (record s { pool = r.pool; memory = r.memory })).1

pub keep_page-IsHonest :
    (key : String) (page : List ℕ) (len : ℕ) (addr : Option ℕ) (entries : Dict String DataLocation)
    (s : StorageServer)
    → All (Known s.key_len) entries
    → IsHonest s
    → All
        (Known (keep_page key page len addr entries s).2.key_len)
        (keep_page key page len addr entries s).1
      × IsHonest (keep_page key page len addr entries s).2
unfolding keep_page recorded
keep_page-IsHonest key page len none entries s known h = (known, h)
keep_page-IsHonest key page len (some addr) entries s known h = (
  All-put (Known (Dict.put key len s.key_len)) key _ entries
      (rw (has-put key key len s.key_len, ==_refl key) refl)
      (Known-put key len s.key_len entries known),
  λ k loc found here. IsAnnounced-put key k len loc (h k loc found here),
)
