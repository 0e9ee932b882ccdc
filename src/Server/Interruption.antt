-- ===== src/Server/Interruption.antt =====
-- syncedfs-daemon/server.c, the loop of `startServer`: clients that break off or are sent away, one
-- after the other.
use syncedfs.Prelude.{ℕ, ◌≡◌, true, false, ◌&&◌, Option, none, some, List, [], ◌∷◌}
use syncedfs.CString.{eqb}
use syncedfs.Message.{Message, SyncInit, init}
use syncedfs.System.{System, file_exists}
use syncedfs.Snapshot.{Config}
use syncedfs.Server.Session.{Network, Session, broken, receive_files, unfinished, sync_init}
use syncedfs.Server.Listening.{accepted}

module _ (Y : System) (N : Network) (cfg : Config) where
  -- Clients of which each names another resource, or has its session started and breaks off before
  -- all files are received, so that the sync-id and the snapshot of the session stay.
  pub data AreInterrupted : List (Option (List Message)) → Y.World → Type 0 where
    no_clients : {w : Y.World} → AreInterrupted [] w
    not_accepted :
        {w : Y.World} {clients : List (Option (List Message))}
        → AreInterrupted clients w
        → AreInterrupted (none ∷ clients) w
    sent_away :
        {w : Y.World} {clients : List (Option (List Message))}
        → (m : SyncInit) (inbox : List Message) → eqb m.resource cfg.resource ≡ false
        → AreInterrupted clients w
        → AreInterrupted (some (init m ∷ inbox) ∷ clients) w
    broken_off :
        {w : Y.World} {clients : List (Option (List Message))}
        → (inbox : List Message) (n bytes : ℕ) (w' : Y.World)
        → (sync_init Y N cfg (accepted Y N cfg w inbox)).0 ≡ some n
        → (let s = (sync_init Y N cfg (accepted Y N cfg w inbox)).1 in
            receive_files Y N cfg n s.world s.bytes s.inbox ≡ broken w' bytes)
        → (unfinished Y N cfg w' && file_exists Y cfg.snapshot w') ≡ true
        → AreInterrupted clients w'
        → AreInterrupted (some inbox ∷ clients) w
