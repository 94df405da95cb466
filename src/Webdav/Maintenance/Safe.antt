-- ===== src/Webdav/Maintenance/Safe.antt =====
-- What pruneFiles of internal/webdav/maintenance.go may remove.
use idrive_unlimited.Base.{List, Str, true, ◌≡◌}
use idrive_unlimited.Evs.Files.{WalkEntry, remove_file, walk_dir}
use idrive_unlimited.Evs.Monad.{Env, World}
use idrive_unlimited.Evs.Types.{Query, on_disk}
use idrive_unlimited.Webdav.Maintenance.Asks.{Removable, looks}

abbrev pub PruneAllows : Str → List WalkEntry → Str → List Str → Query → Type 0
PruneAllows top entries protected pins (on_disk (remove_file p)) =
    Removable top entries protected pins p
PruneAllows top entries protected pins q = looks q ≡ true

-- What the walk lists, when it starts from this world.
abbrev pub walk_of : {E : Env} → World E → Str → List WalkEntry
walk_of {E} w top = (E.respond (on_disk (walk_dir top)) w.env).0
