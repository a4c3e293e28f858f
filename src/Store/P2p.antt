-- ===== src/Store/P2p.antt =====
-- python/peercache/store.py: `_publish_p2p`, which publishes pages in the node's own pool. The
-- state is that of storage_server.py: the store has the same fields for its pool, disk tier and
-- lengths, and the same methods for locations and evictions. The answer of `directory.exists` is
-- the argument `existing`.
pub mod Stands
pub mod ReadBack
use peer_cache.Base.{String, Bool, true, List, [], ◌∷◌, if◌then◌else◌}
use peer_cache.Base.Memory.{string_at}
use peer_cache.Base.Dict.{Dict}
use peer_cache.Types.{DataLocation}
use peer_cache.Storage.{StorageServer, put_some}
use peer_cache.Storage.Ingest.{pool_publish, keep_page, reconcile}
use peer_cache.Store.Slots.Shared.{Page}

unfoldable pub publish_new :
    Page
    → Dict String DataLocation
    → StorageServer
    → Bool × Dict String DataLocation × StorageServer
unfolding pool_publish keep_page
publish_new page entries s =
    let (addr, s') = pool_publish page.key page.ptr page.size s in
    keep_page page.key (string_at page.ptr page.size s'.memory) page.size addr entries s'

-- `if existing[i]`
unfoldable pub publish_page :
    Bool
    → Page
    → Dict String DataLocation
    → StorageServer
    → Bool × Dict String DataLocation × StorageServer
unfolding publish_new
publish_page old page entries s = if old then (true, entries, s) else publish_new page entries s

unfoldable pub publish_pages :
    List Page
    → List Bool
    → Dict String DataLocation
    → StorageServer
    → List Bool × Dict String DataLocation × StorageServer
unfolding publish_page
publish_pages (page ∷ pages) (old ∷ existing) entries s =
    let (ok, entries', s') = publish_page old page entries s in
    let (results, entries'', s'') = publish_pages pages existing entries' s' in
    (ok ∷ results, entries'', s'')
publish_pages _ _ entries s = ([], entries, s)

unfoldable pub publish_p2p :
    Bool → List Bool → List Page → StorageServer → List Bool × StorageServer
unfolding publish_pages reconcile put_some
publish_p2p update_directory existing pages s =
    let (results, entries, s') = publish_pages pages existing [] s in
    let (entries', s'') = reconcile entries s' in
    (results, if update_directory then put_some entries' s'' else s'')
