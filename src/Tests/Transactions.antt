-- ===== src/Tests/Transactions.antt =====
-- Uploads, moves and recovery over the service in memory.
use idrive_unlimited.Base.{All, List, Str, [], codes, pos, refl, true, ◌∷◌}
use idrive_unlimited.Evs.Ahead.{WriteAhead}
use idrive_unlimited.Evs.Ahead.Move.{move_replace-WriteAhead}
use idrive_unlimited.Evs.Ahead.Upload.{upload_file-WriteAhead}
use idrive_unlimited.Evs.Errors.{Result}
use idrive_unlimited.Evs.Footprint.{MoveAllows, UploadAllows}
use idrive_unlimited.Evs.Footprint.Move.{move_replace-footprint}
use idrive_unlimited.Evs.Footprint.Pending.{PendingRule, recover_pending-footprint}
use idrive_unlimited.Evs.Footprint.Upload.{upload_file-footprint}
use idrive_unlimited.Evs.Journal.{recover_pending}
use idrive_unlimited.Evs.Leads.{Obeyed}
use idrive_unlimited.Evs.Monad.{World}
use idrive_unlimited.Evs.Move.{move_replace}
use idrive_unlimited.Evs.Types.{UploadRecord}
use idrive_unlimited.Evs.Upload.{upload_file, upload_record}
use idrive_unlimited.Path.{clean_path}
use idrive_unlimited.Tests.Service.{padded, service, start, transaction_id}

run : Result (Unit {0}) × List (Str × Str)
run = let (r, w) = upload_file (codes "/tmp/x") (codes "a.txt") 0 start in (r, w.env.files)

upload_file-footprint_example :
    All
      (UploadAllows (clean_path (codes "a.txt")))
      (upload_file (codes "/tmp/x") (codes "a.txt") 0 start).1.trace
upload_file-footprint_example = upload_file-footprint (codes "/tmp/x") (codes "a.txt") 0 start tt

move_replace-footprint_example :
    All
      (MoveAllows (clean_path (codes "/a.txt")) (clean_path (codes "/b.txt")))
      (move_replace (codes "/a.txt") (codes "/b.txt") start).1.trace
move_replace-footprint_example = move_replace-footprint (codes "/a.txt") (codes "/b.txt") start tt

-- An upload that stopped after the original was renamed.
abbrev stopped_upload : UploadRecord
stopped_upload =
    record (upload_record (codes "/a.txt") transaction_id 4 (padded 32 (codes "new!"))) {
      had_original = true;
      original_size = pos 3;
      original_hash = padded 32 (codes "old");
      ready = true;
    }

abbrev interrupted : World service
interrupted = record start {
  env = record start.env {
    files = (stopped_upload.backup, codes "old") ∷ [];
    records = stopped_upload ∷ [];
  };
}

recover_pending-footprint_example : Obeyed PendingRule (recover_pending interrupted).1.events
recover_pending-footprint_example = recover_pending-footprint interrupted tt

upload_file-WriteAhead_example :
    WriteAhead
      (clean_path (codes "a.txt"))
      (upload_file (codes "/tmp/x") (codes "a.txt") 0 start).1.events
upload_file-WriteAhead_example =
    upload_file-WriteAhead (codes "/tmp/x") (codes "a.txt") 0 start refl tt

move_replace-WriteAhead_example :
    WriteAhead
      (clean_path (codes "/b.txt"))
      (move_replace (codes "/a.txt") (codes "/b.txt") start).1.events
move_replace-WriteAhead_example =
    move_replace-WriteAhead (codes "/a.txt") (codes "/b.txt") start refl tt
