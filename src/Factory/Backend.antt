-- ===== src/Factory/Backend.antt =====
-- factory.go and cache/memory.go: the constructor that NewFactory passes on for the scheme "memory",
-- and the memory caches of one program, which share its clock and nothing else.
use cachefx.Prelude.{ℕ, ◌+◌, pos}
use cachefx.Errors.{ok}
use cachefx.Cache.{Cache}
use cachefx.Factory.{Build, write}
use cachefx.Memory
use cachefx.Memory.{World, new_memory}
use cachefx.Memory.Valid.{at_clock}
use cachefx.Time.{Clock}

pub record Memories : Type 0 where
  pub caches : ℕ → World
  pub count : ℕ
  pub clock : Clock

-- a method of the memory cache at the address `a`
unfoldable pub on {ℓ} : {A : Type ℓ} → ℕ → (World → A × World) → Memories → A × Memories
on a method m =
    let (r, w) = method (at_clock m.clock (m.caches a)) in
    (r, record m { caches = write m.caches a w; clock = w.clock })

abbrev pub memory_at : ℕ → Cache Memories
memory_at a = record {
  set = λ k v opts. on a (Memory.set k v opts);
  set_or_fail = λ k v opts. on a (Memory.set_or_fail k v opts);
  get = λ k opts. on a (Memory.get k opts);
  get_and_delete = λ k. on a (Memory.get_and_delete k);
  delete = λ k. on a (Memory.delete k);
  cleanup = on a Memory.cleanup;
  drain = on a Memory.drain;
  close = on a Memory.close;
}

-- `cache.NewMemory(0)`
unfoldable pub build_memory : Build Memories
build_memory name m = (
  ok (memory_at m.count),
  record m { caches = write m.caches m.count (new_memory (pos 0) m.clock); count = m.count + 1 },
)
