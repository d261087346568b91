-- ===== src/Tests/Coherence.antt =====
-- Runs of a client over the file servers.
use pfs.Base.{
  ◌/◌, ◌*◌, ◌%◌, false, ℕ, ◌+◌, ◌^◌, ◌≤◌, ◌<◌, ◌≡◌, refl, Bool, true, some, List, [], ◌∷◌, arith,
}
use pfs.Cache.{Cache, CacheBlock, done, new_cache, evict_block}
use pfs.Cache.Start.{new_cache-free}
use pfs.Cache.Threads.{flush_lru, harvest_one}
use pfs.Permission.{permission}
use pfs.File.Cover.{grants}
use pfs.Client.{PfsClient, close_request, file_at, find_descriptor, revoke}
use pfs.Client.Transfers.{load_block, store_block}
use pfs.Client.Revocations.{close_evictions, revoke_file}
use pfs.Placement.{Servers}
use pfs.Placement.Io.{fetch_of}
use pfs.Placement.Bytes.{zeros, byte_served}
use pfs.Coherence.{Store, History, starts, replay, flush_blocks}
use pfs.Coherence.Runs.{
  SeesSame, first_bytes, load_block-History, store_block-History, flush_blocks-History,
}
use pfs.Coherence.Stale.{load_block-load_block}
use pfs.Coherence.Close.{close_evictions-replay}
use pfs.Coherence.Handover.{revoke_file-load_block}
use pfs.Tests.Stripes.{new_server}
use pfs.Tests.Blocks.{same_number, memory}
use pfs.Tests.Io.{client, servers, servers_serve}

abbrev Ran : List Store → Servers → Cache → Type 0
Ran = History same_number client 0 1 memory servers

abbrev first : ℕ → ℕ
first = first_bytes client 0 servers

client_found : find_descriptor 1 client ≡ some 0
unfolding find_descriptor
client_found = refl

abbrev some_write : Store
some_write = record { offset = 1030; size = 7; source = λ i. i + 65 }

units : 2048 ≤ (new_cache memory).free_block_semaphore
units = omega (arith, (new_cache-free same_number memory).0)

abbrev Stored : Type 0
Stored =
    (c' : Cache) × (hit : Bool) × (store_block same_number (fetch_of 0 zeros servers client) 1 1024
        1030 7 (λ i. i + 65) (new_cache memory)
      ≡ done hit c')
    × Ran (some_write ∷ []) servers c'
    × ((new_cache memory).free_block_semaphore ≤ c'.free_block_semaphore + 2)

store_result : Stored
store_result =
    store_block-History same_number client 0 1 memory servers client_found servers_serve [] servers
      (new_cache memory) starts some_write (omega arith) (omega arith) (omega (arith, units))

abbrev Loaded : Type 0
Loaded =
    (c' : Cache) × (bytes : ℕ → ℕ) × (hit : Bool) × (load_block same_number
        (fetch_of 0 zeros servers client) 1 1024 store_result.0
      ≡ done (bytes, hit) c')
    × Ran (some_write ∷ []) servers c'
    × (store_result.0.free_block_semaphore ≤ c'.free_block_semaphore + 2)
    × ((k : ℕ) → k < 1024 → bytes k ≡ replay first (some_write ∷ []) (1024 + k))

load_block-History_example : Loaded
load_block-History_example =
    load_block-History same_number client 0 1 memory servers client_found servers_serve
      (some_write ∷ []) servers store_result.0 store_result.3 1024 refl (omega arith)
      (omega (arith, store_result.4, units))

load_result : Loaded
load_result =
    load_block-History same_number client 0 1 memory servers client_found servers_serve
      (some_write ∷ []) servers store_result.0 store_result.3 1024 refl (omega arith)
      (omega (arith, store_result.4, units))

abbrev no_servers : Servers
no_servers i = new_server

load_block-load_block_example :
    (c2 : Cache) × (again : ℕ → ℕ) × (load_block same_number
        (fetch_of 0 zeros no_servers client)
        1
        1024
        load_result.0
      ≡ done (again, true) c2)
    × ((k : ℕ) → k < 1024 → again k ≡ load_result.1 k)
load_block-load_block_example =
    load_block-load_block same_number client 0 1 memory servers client_found servers_serve 1024 refl
      (omega arith) (some_write ∷ []) servers store_result.0 load_result.0 load_result.1
      load_result.2 no_servers store_result.3 load_result.3

abbrev Sees : Servers → Cache → Type 0
Sees = SeesSame same_number client 0 1 memory servers servers store_result.0

flush_blocks-History_example :
    ((c' : Cache) (flushed : List CacheBlock)
      → flush_lru store_result.0 ≡ some (c', flushed)
      → (ss' : Servers) × (flush_blocks client flushed servers ≡ some ss')
        × Ran (some_write ∷ []) ss' c'
        × Sees ss' c')
    × ((c' : Cache) (flushed : List CacheBlock) (more : Bool)
        → harvest_one store_result.0 ≡ some (c', flushed, more)
        → (ss' : Servers) × (flush_blocks client flushed servers ≡ some ss')
          × Ran (some_write ∷ []) ss' c'
          × Sees ss' c')
    × ((addr : ℕ)
        → (ss' : Servers) × (flush_blocks client
              (evict_block same_number 1 addr store_result.0).1
              servers
            ≡ some ss')
          × Ran (some_write ∷ []) ss' (evict_block same_number 1 addr store_result.0).0
          × Sees ss' (evict_block same_number 1 addr store_result.0).0)
flush_blocks-History_example =
    flush_blocks-History same_number client 0 1 memory servers client_found servers_serve
      (some_write ∷ []) servers store_result.0 store_result.3

client_revokes : (revoke "f" 1000 3000 client).1 ≡ some 0
unfolding revoke
client_revokes = refl

revoke_file-load_block_example :
    (c' : Cache) × (flushed : List CacheBlock) × (given_up : Servers) × (revoke_file same_number "f"
        1000 3000 client store_result.0
      ≡ some ((revoke "f" 1000 3000 client).0, c', flushed))
    × (flush_blocks client flushed servers ≡ some given_up)
    × ((later : List Store) (now : Servers) (d : Cache) (addr : ℕ)
        → History same_number client 0 1 memory given_up later now d
        → addr % 1024 ≡ 0
        → 1000 ≤ addr
        → addr + 1024 ≤ 3001
        → addr < 2 ^ 31
        → 2 ≤ d.free_block_semaphore
        → (d' : Cache) × (bytes : ℕ → ℕ) × (hit : Bool) × (load_block same_number
              (fetch_of 0 zeros now client)
              1
              addr
              d
            ≡ done (bytes, hit) d')
          × ((k : ℕ)
              → k < 1024
              → bytes k ≡ replay (replay first (some_write ∷ [])) later (addr + k)))
revoke_file-load_block_example =
    revoke_file-load_block same_number client 0 1 memory servers client_found servers_serve
      (some_write ∷ []) servers store_result.0 "f" 1000 3000 client 0 1 store_result.3
      client_revokes refl (omega arith) client_found refl refl

-- The client with a token for its first two blocks.
abbrev granted_client : PfsClient
granted_client = record client {
  opened_files = record (file_at client 0) { permissions = permission 0 2048 true ∷ [] } ∷ [];
}

granted_found : find_descriptor 1 granted_client ≡ some 0
unfolding find_descriptor
granted_found = refl

granted_run :
    (c' : Cache) × (hit : Bool) × (store_block same_number
        (fetch_of 0 zeros servers granted_client)
        1
        1024
        1030
        7
        (λ i. i + 65)
        (new_cache memory)
      ≡ done hit c')
    × History same_number granted_client 0 1 memory servers (some_write ∷ []) servers c'
    × ((new_cache memory).free_block_semaphore ≤ c'.free_block_semaphore + 2)
granted_run =
    store_block-History same_number granted_client 0 1 memory servers granted_found servers_serve []
      servers (new_cache memory) starts some_write (omega arith) (omega arith)
      (omega (arith, units))

close_evictions-replay_example :
    (c' : Cache) × (flushed : List CacheBlock) × (ss' : Servers) × (close_evictions same_number
        (close_request 1 granted_client)
        granted_client
        granted_run.0
      ≡ some (c', flushed))
    × (flush_blocks granted_client flushed servers ≡ some ss')
    × ((x : ℕ)
        → x < 2 ^ 31
        → grants false (permission 0 2048 true ∷ []) x ≡ true
        → byte_served 0 granted_client ss' (x / 1024 * 1024) (x % 1024)
          ≡ replay (first_bytes granted_client 0 servers) (some_write ∷ []) x)
close_evictions-replay_example =
    close_evictions-replay same_number granted_client 0 1 memory servers granted_found servers_serve
      (some_write ∷ []) servers granted_run.0 granted_run.3 (omega arith) (omega arith, tt)
