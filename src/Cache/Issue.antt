-- ===== src/Cache/Issue.antt =====
-- The method calls of a client on any cache of cache/cache.go.
use cachefx.Cache.{Cache}
use cachefx.Memory.Commands.{
  Command, Reply, contents, as_function, status_of, bytes_of, set, set_or_fail, get, get_and_delete,
  delete, cleanup, drain, close,
}

unfoldable pub issue : {S : Type 0} → Cache S → Command → S → Reply × S
issue c (set k value opts) s = status_of (c.set k value opts s)
issue c (set_or_fail k value opts) s = status_of (c.set_or_fail k value opts s)
issue c (get k opts) s = bytes_of (c.get k opts s)
issue c (get_and_delete k) s = bytes_of (c.get_and_delete k s)
issue c (delete k) s = status_of (c.delete k s)
issue c cleanup s = status_of (c.cleanup s)
issue c drain s = let (r, s1) = c.drain s in (contents (as_function r), s1)
issue c close s = status_of (c.close s)
