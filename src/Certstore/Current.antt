-- ===== src/Certstore/Current.antt =====
-- internal/certstore/certstore.go: `current`, captured, written and restored. The link's temporary
-- name is drawn anew each time and read by nothing, so it is left out.
use cert_keeper.Prelude.{Text, Option, none, some, ok, err}
use cert_keeper.Prelude.Steps.{modify, inspect, ◌>>=◌, ◌>>◌}
use cert_keeper.Client.Read.{release_target}
use cert_keeper.Certstore.{
  StoreFailure, Pointer, link, DomainDir, sync_domain, restore_current, World, Storing,
}
use cert_keeper.Certstore.Read.{prepare_link}

unfoldable pub with_current : Pointer → DomainDir → DomainDir
with_current p d = record d { current = p }

-- What follows `restoreCurrent`; the first error is returned.
abbrev pub restored : Pointer → StoreFailure → Option StoreFailure → Storing (Unit {0})
restored snapshot e none d = (with_current snapshot d, err e)
restored snapshot e (some _) d = (d, err e)

abbrev pub synced : World → Pointer → Option StoreFailure → Storing (Unit {0})
synced w snapshot none d = (d, ok tt)
synced w snapshot (some e) d = restored snapshot e (w.fails restore_current) d

unfoldable pub sync_or_restore : World → Pointer → Storing (Unit {0})
sync_or_restore w snapshot d = synced w snapshot (w.fails sync_domain) d

unfoldable pub write_current : World → Text → Storing (Unit {0})
write_current w generation = do
  snapshot ← inspect (prepare_link w generation)
  modify (with_current (link (release_target generation)))
  sync_or_restore w snapshot
