-- ===== src/Tests/Interruption.antt =====
-- syncedfs-daemon/server.c, `startServer`: clients that break off, on the machine of Tests.Server.
use syncedfs.Prelude.{◌≡◌, refl, false, Option, none, some, List, [], ◌∷◌}
use syncedfs.CString.{codes, eqb}
use syncedfs.Message.{Message, SyncInit, init}
use syncedfs.Server.Session.{receive_files, sync_init}
use syncedfs.Server.Keeps.{world_of}
use syncedfs.Server.Listening.{accepted}
use syncedfs.Tests.Server.{cfg, machine, network, Machine, start, offer, broken_stream}

abbrev stranger : SyncInit
stranger = record { sync_id = codes "i"; resource = codes "other"; number_files = 1 }

-- A client of another resource, a failed accept, and a client that breaks off
abbrev clients : List (Option (List Message))
clients = some (init stranger ∷ []) ∷ none ∷ some (offer ∷ broken_stream) ∷ []

abbrev left : Machine
left =
    let (n, s) =
      sync_init machine network cfg (accepted machine network cfg start (offer ∷ broken_stream)) in
    world_of (receive_files machine network cfg 1 s.world 14 broken_stream)

abbrev other : eqb stranger.resource cfg.resource ≡ false
other = unfold eqb in refl
