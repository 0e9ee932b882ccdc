-- ===== src/Programs/Refusal.antt =====
-- syncedfs-daemon/main.c and server.c: the name of the resource that a server goes by.
use syncedfs.Prelude.{
  ℕ, ◌≡◌, refl, sym, ◌∙◌, ap, Bool, true, false, Option, none, some, List, ◌∷◌, Bool-cases, inl,
  inr,
}
use syncedfs.CString.{CString, codes, eqb}
use syncedfs.Message.{SyncInit, Message, init}
use syncedfs.System.{System}
use syncedfs.Snapshot.{Config}
use syncedfs.Server.Session.{
  Network, Session, sync_init, sync_init_from, check_init, refuse, send_message,
}
use syncedfs.Configuration.{DaemonConfig, Configured, configured, overflow}
use syncedfs.Programs.{DaemonStart, server_config, start_role, start_configured, daemon_main}

resource_of : DaemonStart → Option (Option CString)
resource_of (DaemonStart.server c) = some c.resource
resource_of _ = none

daemon_main-resource :
    (resource : CString) (rest : List CString) (read_config : CString → Configured DaemonConfig)
    (becomes_daemon : Bool) (c : DaemonConfig)
    → daemon_main (resource ∷ codes "server" ∷ rest) read_config becomes_daemon
      ≡ DaemonStart.server c
    → c.resource ≡ some (codes "r0")
unfolding daemon_main start_configured start_role eqb
daemon_main-resource resource rest read_config becomes_daemon c e =
    go (read_config resource) becomes_daemon e
  where
    go :
        (k : Configured DaemonConfig) (b : Bool)
        → start_configured (codes "server") b k ≡ DaemonStart.server c
        → c.resource ≡ some (codes "r0")
    go (configured true d) true h =
        let q : server_config d ≡ c = cc h in ap (λ (x : DaemonConfig). x.resource) (sym q)
    go (configured true d) false h = cc h
    go (configured false d) b h = cc h
    go overflow b h = cc h

send_message-world :
    (Y : System) (N : Network) (cfg : Config) (m : Message) (s : Session Y.World)
    → (send_message Y N cfg m s).1.world ≡ s.world
unfolding send_message
send_message-world Y N cfg m s = elim (Bool-cases (N.accepts s.sent m)) [
  | inl y ↦ rw y refl
  | inr n ↦ rw n refl
]

-- Whatever resource the daemon is called with, a server goes by "r0": it sends a client that names
-- any other resource away, before it has touched its root directory.
pub daemon_main-refuses :
    (Y : System) (N : Network) (cfg : Config) (resource : CString) (rest : List CString)
    (read_config : CString → Configured DaemonConfig) (becomes_daemon : Bool) (c : DaemonConfig)
    (m : SyncInit) (inbox : List Message) (w : Y.World) (bytes : ℕ) (sent : List Message)
    → daemon_main (resource ∷ codes "server" ∷ rest) read_config becomes_daemon
      ≡ DaemonStart.server c
    → c.resource ≡ some cfg.resource
    → eqb m.resource (codes "r0") ≡ false
    → (let s : Session Y.World = record {
      world = w;
      inbox = init m ∷ inbox;
      bytes = bytes;
      sent = sent;
    } in
        ((sync_init Y N cfg s).0 ≡ none) × ((sync_init Y N cfg s).1.world ≡ w))
unfolding sync_init sync_init_from check_init refuse send_message
daemon_main-refuses Y N cfg resource rest read_config becomes_daemon c m inbox w bytes sent e named
      other =
    let r : codes "r0" ≡ cfg.resource =
      cc (daemon_main-resource resource rest read_config becomes_daemon c e, named) in
    let differs : eqb m.resource cfg.resource ≡ false = ap (eqb m.resource) (sym r) ∙ other in
    (rw differs refl, rw differs (send_message-world Y N cfg _ _))
