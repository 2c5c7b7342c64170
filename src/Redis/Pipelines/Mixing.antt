-- ===== src/Redis/Pipelines/Mixing.antt =====
-- `Set` of cache/redis.go from many connections at once: what a key has behind their commands.
use cachefx.Prelude.{String, Option, List}
use cachefx.Redis.Documented.{Remote, Latitude, Field}
use cachefx.Redis.Fields.{Wrote}
use cachefx.Redis.Pipelines.{Write, Mixed}

module _ (l : Latitude) (key f : String) (sets : List Write) where
  -- The server goes from one state to the other by changing the field alone, to one of the Sets.
  abbrev pub MixesIn : Remote → Remote → Type 0
  MixesIn s s' = (o : Option Field) × Wrote key f o s s' × Mixed sets o
