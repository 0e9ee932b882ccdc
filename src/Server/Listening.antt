-- ===== src/Server/Listening.antt =====
-- syncedfs-daemon/server.c, `startServer`: one client after the other.
use syncedfs.Prelude.{Bool, true, false, Option, none, some, List, [], ◌∷◌}
use syncedfs.Message.{Message}
use syncedfs.System.{System}
use syncedfs.Snapshot.{Config}
use syncedfs.Server.Session.{Network, Session, handle_client}

module _ (Y : System) (N : Network) (cfg : Config) where
  -- `handleClient` of a new connection, on which these messages come; `tbytes` is its own.
  abbrev pub accepted : Y.World → List Message → Session Y.World
  accepted w inbox = record { world = w; inbox = inbox; bytes = 0; sent = [] }

  -- The loop, over what `accept` returns: `none` for -1. The result of `handleClient` is dropped.
  unfoldable pub accept_clients : List (Option (List Message)) → Y.World → Y.World
  unfolding handle_client
  accept_clients [] w = w
  accept_clients (none ∷ clients) w = accept_clients clients w
  accept_clients (some inbox ∷ clients) w =
      accept_clients clients (handle_client Y N cfg (accepted w inbox)).1.world

  abbrev pub serve_locked : List (Option (List Message)) → Bool × Y.World → Y.World
  unfolding accept_clients
  serve_locked clients (true, w) = accept_clients clients w
  serve_locked clients (false, w) = w

  -- `startServer`, which returns where it cannot listen or make its pid file.
  unfoldable pub start_server :
      Bool → (Y.World → Bool × Y.World) → List (Option (List Message)) → Y.World → Y.World
  unfolding serve_locked
  start_server false create_pid_file clients w = w
  start_server true create_pid_file clients w = serve_locked clients (create_pid_file w)
