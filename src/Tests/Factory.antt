-- ===== src/Tests/Factory.antt =====
-- factory.go, module.go and sweeper.go over caches in memory.
use cachefx.Prelude.{
  ◌+◌, String, ◌≡◌, refl, true, none, some, [], ◌∷◌, ◌++◌, arith, ◌==◌, pos, if◌then◌else◌,
}
use cachefx.Errors.{Sentinel, Result, ok, done, result_is, succeeds}
use cachefx.Factory
use cachefx.Factory.{
  Factory, Program, Wrapper, Config, Tracked, remove, write, full_name, new_factory, with_name,
  cleanup_each, cleanup_all, factory_of, close_status,
}
use cachefx.Factory.Backend.{Memories, memory_at, build_memory}
use cachefx.Factory.Registry.{Lacks}
use cachefx.Factory.Closing
use cachefx.Factory.Closing.{IsConsistent, NewAnswers, closed}
use cachefx.Factory.Sweep
use cachefx.Factory.Sweep.{cleaned, some_is, all_succeed}
use cachefx.Factory.Lifetime
use cachefx.Factory.Lifetime.{Call, call_new, call_cleanup_all, call_close, calls}
use cachefx.Factory.Names
use cachefx.Factory.Names.{FactoryAnswers, is_supported, used_url, outcome}
use cachefx.Sweeper.{Sweeper, ticked, cancelled, stopped, run}
use cachefx.Sweeper.Running
use cachefx.Sweeper.Running.{NewAnswers as SweeperAnswers, failures}
use cachefx.Module
use cachefx.Module.{
  with_sweeper, decorate_logger, provide_factory, provide_sweeper, invoke_runnable, fx_module,
}
use cachefx.Tests.Data.{ticking, empty, late, late-IsValid, late-IsMonotonic}
use cachefx.Factory.Evicting
use cachefx.Factory.Evicting.{AllInMemory, AllFresh}
use cachefx.Factory.Swept.{Swept}
use cachefx.Time.{now}

abbrev start : Program Memories
start = record {
  wrappers = λ _. none;
  next = 0;
  trackers = λ _. [];
  next_tracker = 0;
  inner = record { caches = λ _. empty; count = 0; clock = ticking };
}

abbrev pub app : Factory Memories
app = record { prefix = "app"; build = build_memory; tracker = 0 }

abbrev pub users : Wrapper Memories
users = record { inner = memory_at 0; tracker = 0 }

-- one cache, "app:users", at the address 0
abbrev pub opened : Program Memories
opened = (Factory.new app "users" start).1

abbrev sweeping : Sweeper Memories
sweeping = record { factory = app; interval = pos 5 }

start-IsConsistent : IsConsistent start
start-IsConsistent t = tt

pub opened-IsConsistent : IsConsistent opened
opened-IsConsistent = (Closing.new_lem app "users" start start-IsConsistent).1

pub users_there : opened.wrappers 0 ≡ some users
unfolding Factory.new build_memory
users_there = refl

pub opened_tracks : opened.trackers 0 ≡ record { name = "app:users"; cache = 0 } ∷ []
unfolding Factory.new build_memory full_name
opened_tracks = refl

new_lem_example : NewAnswers app "users" start (ok (memory_at 0)) × IsConsistent opened
unfolding build_memory
new_lem_example = Closing.new_lem app "users" start start-IsConsistent

close_lem_example :
    ((Factory.close 0 opened).0 ≡ close_status (users.inner.close opened.inner).0)
    × ((Factory.close 0 opened).1 ≡ closed 0 users opened)
    × Lacks 0 ((Factory.close 0 opened).1.trackers 0)
    × IsConsistent (Factory.close 0 opened).1
close_lem_example = Closing.close_lem 0 opened users opened-IsConsistent users_there

-- memory caches with an entry that has expired
abbrev stocked : Program Memories
stocked = record opened { inner = record { caches = λ _. late; count = 1; clock = late.clock } }

abbrev stocked_in_memory : AllInMemory (stocked.trackers 0) stocked.wrappers
unfolding Factory.new build_memory
stocked_in_memory = ((0, 0, refl), tt)

cleanup_all_evicts_example :
    (succeeds (Factory.cleanup_all app stocked).0 ≡ true)
    × AllFresh
        (stocked.trackers 0)
        stocked.wrappers
        stocked_in_memory
        (now late.clock)
        (Factory.cleanup_all app stocked).1.inner
    × Swept stocked.inner (Factory.cleanup_all app stocked).1.inner
cleanup_all_evicts_example =
    Evicting.cleanup_all_evicts app stocked stocked_in_memory (λ _. late-IsValid) late-IsMonotonic

closed_stays_untracked_example : Lacks 0 (
    (calls (call_new app "users" ∷ call_cleanup_all app ∷ []) (Factory.close 0 opened).1).trackers
      0)
unfolding Factory.new build_memory
closed_stays_untracked_example =
    Lifetime.closed_stays_untracked 0 opened users
      (call_new app "users" ∷ call_cleanup_all app ∷ []) opened-IsConsistent (omega arith)
      users_there

calls-IsConsistent_example :
    IsConsistent (calls (call_new app "users" ∷ call_cleanup_all app ∷ call_close 0 ∷ []) start)
calls-IsConsistent_example =
    Lifetime.calls-IsConsistent (call_new app "users" ∷ call_cleanup_all app ∷ call_close 0 ∷ [])
      start start-IsConsistent

cleanup_all_lem_example :
    ((Factory.cleanup_all app opened).1 ≡ cleaned (opened.trackers 0) opened)
    × (succeeds (Factory.cleanup_all app opened).0 ≡ all_succeed (opened.trackers 0) opened)
    × ((target : Sentinel)
        → result_is target (Factory.cleanup_all app opened).0
          ≡ some_is target (opened.trackers 0) opened)
cleanup_all_lem_example = Sweep.cleanup_all_lem app opened

-- a parser that knows one URL
abbrev parse : String → Result String
parse url = if url == "memory://" then ok "memory" else ok "other"

abbrev unset : Config
unset = record { url = ""; sweep_interval = pos 5 }

factory_of_lem_example :
    FactoryAnswers true start (factory_of parse build_memory (λ _. build_memory) unset start)
factory_of_lem_example = Names.factory_of_lem parse build_memory (λ _. build_memory) unset start

run_ends_example :
    ((run sweeping (ticked ∷ []) opened).returned ≡ none)
    × (run sweeping (ticked ∷ cancelled ∷ ticked ∷ []) opened ≡ record {
      returned = some done;
      log = (run sweeping (ticked ∷ []) opened).log ++ stopped ∷ [];
      program = (run sweeping (ticked ∷ []) opened).program;
    })
run_ends_example = Running.run_ends sweeping (ticked ∷ []) (ticked ∷ []) opened tt

run_tick_example :
    (let q = (run sweeping (ticked ∷ []) opened).program in
      ((run sweeping (ticked ∷ ticked ∷ []) opened).program ≡ cleaned (q.trackers 0) q)
      × (failures (run sweeping (ticked ∷ ticked ∷ []) opened).log
          ≡ failures (run sweeping (ticked ∷ []) opened).log
            + (if all_succeed (q.trackers 0) q then 0 else 1)))
run_tick_example = Running.run_tick sweeping (ticked ∷ []) opened tt

fx_module_lem_example :
    fx_module (with_sweeper ∷ with_sweeper ∷ [])
    ≡ decorate_logger ∷ provide_factory ∷ provide_sweeper ∷ invoke_runnable ∷ []
fx_module_lem_example = Module.fx_module_lem (with_sweeper ∷ with_sweeper ∷ [])
