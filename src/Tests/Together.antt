-- ===== src/Tests/Together.antt =====
-- The parts of both daemons together, on the client's and the server's concrete inputs.
use syncedfs.Prelude.{refl, [], map}
use syncedfs.CString.{eqb}
use syncedfs.Optimize.{optimize_operations}
use syncedfs.Transfer.{transfer_file}
use syncedfs.Transfer.Loading.{with_data}
use syncedfs.Pipeline.{Arrives, transfer_file-Arrives}
use syncedfs.Tests.Client.{sorter, edits, edits-Fits, path_f, bytes_f, outside, client, edits_left}
use syncedfs.Tests.Server.{machine, network, cfg}

transfer_file-Arrives_example :
    Arrives machine network cfg path_f []
      (map (with_data bytes_f) (optimize_operations sorter edits))
      (transfer_file outside path_f sorter edits client)
transfer_file-Arrives_example =
    transfer_file-Arrives machine network cfg outside path_f bytes_f sorter edits client refl
      (λ n. refl) (λ sent m. refl) (unfold eqb in λ e. cc e) edits-Fits edits_left
