-- ===== src/PlatformCore/Leases/Refined.antt =====
-- leases.go, `KVStore`: the bucket implements the locks.
use aegisbastion.Common.{◌≡◌, refl, Option, none, some, Text}
use aegisbastion.PlatformCore.Leases.Lock.{is_free, read}

is_free-read : (o : Option Text) → is_free (read o) ≡ is_free o
is_free-read none = refl
is_free-read (some v) = refl
