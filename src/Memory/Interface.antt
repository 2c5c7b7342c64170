-- ===== src/Memory/Interface.antt =====
-- cache/memory.go: `MemoryCache` as an implementation of the interface `Cache`.
use cachefx.Cache.{Cache}
use cachefx.Cache.Laws.{IsStore, forever}
use cachefx.Memory
use cachefx.Memory.{World}
use cachefx.Memory.Valid.{IsValid}
use cachefx.Memory.Reads.{set_lem}
use cachefx.Memory.Expiry.{get-set_forever}

abbrev pub memory_cache : Cache World
memory_cache = record {
  set = Memory.set;
  set_or_fail = Memory.set_or_fail;
  get = Memory.get;
  get_and_delete = Memory.get_and_delete;
  delete = Memory.delete;
  cleanup = Memory.cleanup;
  drain = Memory.drain;
  close = Memory.close;
}

pub memory_cache-IsStore : IsStore memory_cache IsValid
memory_cache-IsStore = record {
  set_done = λ k v opts valid. (set_lem k v (forever opts) valid).0;
  set_ready = λ k v opts valid. (set_lem k v (forever opts) valid).2;
  get_set = λ k v opts valid. get-set_forever k v opts valid;
}
