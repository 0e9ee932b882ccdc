-- ===== src/Server/Stages.antt =====
-- syncedfs-daemon/server.c, `syncInit`: what its stages leave in the root directory and in the
-- snapshot.
use syncedfs.Prelude.{
  ℕ, ◌≡◌, refl, ◌∙◌, Bool, true, false, ◌&&◌, Option, none, some, [], ◌∷◌, ◌++◌, if◌then◌else◌,
  arith,
}
use syncedfs.CString.{CString, codes, eqb}
use syncedfs.System.{System, Call, file_exists}
use syncedfs.Snapshot.{
  Config, arguments, exit_status, mexec, succeeded, create_snapshot, delete_snapshot,
}
use syncedfs.SyncId.{write_sync_id}
use syncedfs.Server.Keeps.{write_sync_id-keeps}
use syncedfs.Server.Session.{
  Network, sync_id_path, revert_snapshot, unfinished, revert_unfinished, drop_stale, take_snapshot,
  mark_started, prepare,
}

-- What the subvolume at a path holds, `none` where there is none. The laws are those of `btrfs
-- subvolume snapshot` and `btrfs subvolume delete`, and: the sync-id file is not in the root
-- directory, and no system call changes the snapshot, which is read-only.
pub record Subvolumes (Y : System) (cfg : Config) (Tree : Type 0) : Type 0 where
  pub contents : CString → Y.World → Option Tree
  pub copied :
      (readonly : Bool) (source dest : CString) (w : Y.World)
      → (let argv = arguments cfg.btfsbin (
            codes "subvolume" ∷ codes "snapshot" ∷ (if readonly then codes "-r" ∷ [] else [])
            ++ source ∷ dest ∷ []) in
          (Y.spawn cfg.btfsbin argv w).0 ≡ some 0
          → (contents dest (Y.spawn cfg.btfsbin argv w).1 ≡ contents source w)
            × ((path : CString)
                → eqb path dest ≡ false
                → contents path (Y.spawn cfg.btfsbin argv w).1 ≡ contents path w))
  pub deleted :
      (path : CString) (w : Y.World)
      → (let argv = arguments cfg.btfsbinsuid (codes "subvolume" ∷ codes "delete" ∷ path ∷ []) in
          (Y.spawn cfg.btfsbinsuid argv w).0 ≡ some 0
          → (other : CString) → eqb other path ≡ false
          → contents other (Y.spawn cfg.btfsbinsuid argv w).1 ≡ contents other w)
  pub id_outside :
      (id : CString) (w : Y.World)
      → contents cfg.rootdir (write_sync_id Y id (sync_id_path cfg) w).1 ≡ contents cfg.rootdir w
  pub read_only :
      (call : Call) (w : Y.World)
      → contents cfg.snapshot (Y.perform call w).1 ≡ contents cfg.snapshot w

succeeded-exit_status :
    (status : Option ℕ) → succeeded (exit_status status) ≡ true → status ≡ some 0
unfolding exit_status
succeeded-exit_status none e = cc
succeeded-exit_status (some n) e = ground arith

module _ (Y : System) (N : Network) (cfg : Config) {Tree : Type 0} (V : Subvolumes Y cfg Tree) where
  create_snapshot-contents :
      (source dest : CString) (readonly : Bool) (w : Y.World)
      → (create_snapshot Y cfg source dest readonly w).0 ≡ true
      → (let w' = (create_snapshot Y cfg source dest readonly w).1 in
          (V.contents dest w' ≡ V.contents source w)
          × ((path : CString) → eqb path dest ≡ false → V.contents path w' ≡ V.contents path w))
  unfolding create_snapshot mexec
  create_snapshot-contents source dest readonly w e =
      V.copied readonly source dest w (succeeded-exit_status _ e)

  delete_snapshot-contents :
      (path : CString) (w : Y.World)
      → (delete_snapshot Y cfg path w).0 ≡ true
      → (other : CString) → eqb other path ≡ false
      → V.contents other (delete_snapshot Y cfg path w).1 ≡ V.contents other w
  unfolding delete_snapshot mexec
  delete_snapshot-contents path w e = V.deleted path w (succeeded-exit_status _ e)

  -- What the root directory held before the last session, if that one has not finished.
  abbrev pub before : Y.World → Option Tree
  before w =
      if unfinished Y N cfg w && file_exists Y cfg.snapshot w
      then V.contents cfg.snapshot w
      else V.contents cfg.rootdir w

  module _
      (apart : (eqb cfg.rootdir cfg.snapshot ≡ false)
        × (eqb cfg.snapshot cfg.rootdir ≡ false)) where
    revert_snapshot-root :
        (w : Y.World)
        → (revert_snapshot Y N cfg w).0 ≡ true
        → V.contents cfg.rootdir (revert_snapshot Y N cfg w).1 ≡ V.contents cfg.snapshot w
    unfolding revert_snapshot
    revert_snapshot-root w e =
        let (gone, w₁) = delete_snapshot Y cfg cfg.rootdir w in
        let (restored, w₂) = create_snapshot Y cfg cfg.snapshot cfg.rootdir false w₁ in
        let (dropped, w₃) = delete_snapshot Y cfg cfg.snapshot w₂ in
        let (g, r, d) : (gone ≡ true) × (restored ≡ true) × (dropped ≡ true) =
          all_true gone restored dropped e in
        delete_snapshot-contents cfg.snapshot w₂ d cfg.rootdir apart.0
        ∙ (create_snapshot-contents cfg.snapshot cfg.rootdir false w₁ r).0
        ∙ delete_snapshot-contents cfg.rootdir w g cfg.snapshot apart.1
      where
        all_true : (a b c : Bool) → (a && b && c) ≡ true → (a ≡ true) × (b ≡ true) × (c ≡ true)
        all_true a b c h = ground arith

    revert_unfinished-root :
        (w : Y.World)
        → (revert_unfinished Y N cfg w).0 ≡ true
        → V.contents cfg.rootdir (revert_unfinished Y N cfg w).1 ≡ before w
    unfolding revert_unfinished
    revert_unfinished-root w e = choose (unfinished Y N cfg w && file_exists Y cfg.snapshot w) e
      where
        choose :
            (b : Bool)
            → (if b then revert_snapshot Y N cfg w else (true, w)).0 ≡ true
            → V.contents cfg.rootdir (if b then revert_snapshot Y N cfg w else (true, w)).1
              ≡ (if b then V.contents cfg.snapshot w else V.contents cfg.rootdir w)
        choose true h = revert_snapshot-root w h
        choose false h = refl

    drop_stale-root :
        (ok : Bool) (w : Y.World)
        → (drop_stale Y N cfg ok w).0 ≡ true
        → (ok ≡ true)
          × (V.contents cfg.rootdir (drop_stale Y N cfg ok w).1 ≡ V.contents cfg.rootdir w)
    unfolding drop_stale
    drop_stale-root false w e = cc
    drop_stale-root true w e = (refl, choose (file_exists Y cfg.snapshot w) e)
      where
        choose :
            (b : Bool)
            → (if b then delete_snapshot Y cfg cfg.snapshot w else (true, w)).0 ≡ true
            → V.contents cfg.rootdir
                (if b then delete_snapshot Y cfg cfg.snapshot w else (true, w)).1
              ≡ V.contents cfg.rootdir w
        choose true h = delete_snapshot-contents cfg.snapshot w h cfg.rootdir apart.0
        choose false h = refl

    take_snapshot-contents :
        (ok : Bool) (w : Y.World)
        → (take_snapshot Y N cfg ok w).0 ≡ true
        → (let w' = (take_snapshot Y N cfg ok w).1 in
            (ok ≡ true)
            × (V.contents cfg.rootdir w' ≡ V.contents cfg.rootdir w)
            × (V.contents cfg.snapshot w' ≡ V.contents cfg.rootdir w))
    unfolding take_snapshot
    take_snapshot-contents false w e = cc
    take_snapshot-contents true w e =
        let (copied, others) = create_snapshot-contents cfg.rootdir cfg.snapshot true w e in
        (refl, others cfg.rootdir apart.0, copied)

    mark_started-contents :
        (id : CString) (ok : Bool) (w : Y.World)
        → (mark_started Y N cfg id ok w).0 ≡ true
        → (let w' = (mark_started Y N cfg id ok w).1 in
            (ok ≡ true)
            × (V.contents cfg.rootdir w' ≡ V.contents cfg.rootdir w)
            × (V.contents cfg.snapshot w' ≡ V.contents cfg.snapshot w))
    unfolding mark_started
    mark_started-contents id false w e = cc
    mark_started-contents id true w e = (
      refl,
      V.id_outside id w,
      write_sync_id-keeps Y (V.contents cfg.snapshot) V.read_only id (sync_id_path cfg) w,
    )

    -- A prepared session starts from what was there before an unfinished one, and has it in the
    -- snapshot.
    pub prepare-contents :
        (id : CString) (w : Y.World)
        → (prepare Y N cfg id w).0 ≡ true
        → (let w' = (prepare Y N cfg id w).1 in
            (V.contents cfg.rootdir w' ≡ before w) × (V.contents cfg.snapshot w' ≡ before w))
    unfolding prepare
    prepare-contents id w e =
        let (ok₁, w₁) = revert_unfinished Y N cfg w in
        let (ok₂, w₂) = drop_stale Y N cfg ok₁ w₁ in
        let (ok₃, w₃) = take_snapshot Y N cfg ok₂ w₂ in
        let (e₃, root₄, snap₄) = mark_started-contents id ok₃ w₃ e in
        let (e₂, root₃, snap₃) = take_snapshot-contents ok₂ w₂ e₃ in
        let (e₁, root₂) = drop_stale-root ok₁ w₁ e₂ in
        let start : V.contents cfg.rootdir w₂ ≡ before w = root₂ ∙ revert_unfinished-root w e₁ in
        (root₄ ∙ root₃ ∙ start, snap₄ ∙ snap₃ ∙ start)
