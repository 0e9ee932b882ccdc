-- ===== src/Server/Rollback.antt =====
-- syncedfs-daemon/server.c, `syncInit`, and the loops of `handleClient` that write in the root
-- directory: what is in the root directory and in the snapshot, across sessions that fail.
use syncedfs.Prelude.{ℕ, ◌≡◌, refl, Bool, true, false, Option, some, [], ◌∷◌, ◌++◌, if◌then◌else◌}
use syncedfs.CString.{eqb}
use syncedfs.Message.{Message}
use syncedfs.System.{System}
use syncedfs.Snapshot.{Config}
use syncedfs.Server.Session.{send_message, Network, Session}
use syncedfs.Server.Stages.{Subvolumes}

module _ (Y : System) (N : Network) (cfg : Config) {Tree : Type 0} (V : Subvolumes Y cfg Tree)
    (apart : (eqb cfg.rootdir cfg.snapshot ≡ false) × (eqb cfg.snapshot cfg.rootdir ≡ false)) where
  pub send_message-world :
      (m : Message) (s : Session Y.World) → (send_message Y N cfg m s).1.world ≡ s.world
  unfolding send_message
  send_message-world m s = choose (N.accepts s.sent m)
    where
      choose :
          (b : Bool)
          → (let t : Bool × Session Y.World =
                if b then (true, record s { sent = s.sent ++ m ∷ [] }) else (false, s) in
              t.1.world)
            ≡ s.world
      choose true = refl
      choose false = refl

  -- If the result is a number of files, then the root directory and the snapshot both hold this.
  abbrev Starts : Option Tree → Option ℕ × Session Y.World → Type 0
  Starts tree (nfiles, s) =
      (n : ℕ)
      → nfiles ≡ some n
      → (V.contents cfg.rootdir s.world ≡ tree) × (V.contents cfg.snapshot s.world ≡ tree)
