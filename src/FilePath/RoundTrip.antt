-- ===== src/FilePath/RoundTrip.antt =====
-- A path that is made absolute and relative again.
use syncedfs.Prelude.{
  ℕ, zero, suc, ◌≤◌, ◌≡◌, refl, not, List, [], ◌∷◌, ◌++◌, ltb, if◌then◌else◌, length, take, arith,
  ap,
}
use syncedfs.CString.{CString}
use syncedfs.FilePath.{path_limit, slash, begins_with_slash, absolute_path, full_path}

take_whole {ℓ} : {A : Type ℓ} (n : ℕ) (xs : List A) → length xs ≤ n → take n xs ≡ xs
take_whole zero [] h = refl
take_whole zero (x ∷ xs) h = absurd (omega arith)
take_whole (suc n) [] h = refl
take_whole (suc n) (x ∷ xs) h = ap (λ r. x ∷ r) (take_whole n xs (omega arith))

-- A path with a slash in front.
abbrev pub rooted : CString → CString
rooted path = if not (begins_with_slash path) then slash ∷ path else path

-- The file system's own `sfs_fullpath` agrees with `getAbsolutePath` if its stored length is that of
-- the root directory.
pub full_path-absolute_path :
    (rootdir : CString) (rootdir_len : ℕ) (path : CString)
    → rootdir_len ≡ length rootdir
    → full_path rootdir rootdir_len path ≡ absolute_path rootdir path
unfolding full_path absolute_path
full_path-absolute_path rootdir rootdir_len path e =
    rw (e, take_whole (length rootdir) rootdir (omega arith)) (choose (length rootdir))
  where
    choose :
        (n : ℕ)
        → (if ltb n n then rootdir else take path_limit (rootdir ++ rooted path))
          ≡ take path_limit (rootdir ++ rooted path)
    choose n = ground arith
