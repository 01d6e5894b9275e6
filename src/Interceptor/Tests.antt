-- ===== src/Interceptor/Tests.antt =====
-- A creation's flush on an empty store.
use hyperdir.Base.{codes}
use hyperdir.Interceptor.{ScatterFirstInterceptor}
use hyperdir.Interceptor.Committed.{Committed}

abbrev hook : ScatterFirstInterceptor
hook = record { parent_dir_path = codes "DIR/d"; name = codes "a"; uuid = codes "u" }
