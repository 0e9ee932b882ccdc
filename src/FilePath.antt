-- ===== src/FilePath.antt =====
-- syncedfs-common/path_functions.c, and `sfs_fullpath` of syncedfs/syncedfs.c.
-- A path is the characters before its NUL. `none` is a read outside the string. The root directories
-- come from a configuration whose fields hold less than PATH_MAX characters.
pub mod RoundTrip
use syncedfs.Prelude.{
  ℕ, ◌+◌, ◌-◌, Bool, true, false, ◌&&◌, not, Option, none, some, List, [], ◌∷◌, ◌++◌, ltb, leb,
  ◌==◌, if◌then◌else◌, length, take, drop,
}
use syncedfs.CString.{CString}

-- PATH_MAX - 1: the longest string that a path's buffer holds with its NUL.
abbrev pub path_limit : ℕ
path_limit = 4095

abbrev pub slash : ℕ
slash = 47

-- `*path == '/'`
abbrev pub begins_with_slash : CString → Bool
begins_with_slash [] = false
begins_with_slash (c ∷ path) = c == slash

-- `getAbsolutePath`
unfoldable pub absolute_path : CString → CString → CString
absolute_path rootdir path =
    take path_limit (rootdir ++ (if not (begins_with_slash path) then slash ∷ path else path))

-- `getRelativePath`: the characters of `path` from `rdirlen` on, if the first is a slash, and from
-- `rdirlen - 1` on if it is not. The code does not terminate a result of PATH_MAX - 1 characters.
unfoldable pub relative_path : CString → CString → Option CString
relative_path rootdir path =
    let rdirlen = length rootdir in
    if ltb (length path) rdirlen
    then none
    else if begins_with_slash (drop rdirlen path)
    then some (take path_limit (drop rdirlen path))
    else if rdirlen == 0
    then none
    else some (take path_limit (drop (rdirlen - 1) path))

-- `getCanonincalPath`: drops one slash from the end.
unfoldable pub canonical_path : CString → CString
canonical_path [] = []
canonical_path (c ∷ []) = if c == slash then [] else c ∷ []
canonical_path (c ∷ d ∷ path) = c ∷ canonical_path (d ∷ path)

-- `sfs_fullpath`, over `config.rootdir` and `config.rootdir_len`. A length behind the end of the
-- root directory leaves the NUL of the root directory in place.
unfoldable pub full_path : CString → ℕ → CString → CString
full_path rootdir rootdir_len path =
    if ltb (length rootdir) rootdir_len
    then rootdir
    else take path_limit
        (take rootdir_len rootdir ++ (if not (begins_with_slash path) then slash ∷ path else path))
