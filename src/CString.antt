-- ===== src/CString.antt =====
-- C strings: the character codes before the terminating NUL. `eqb` is `strcmp(s, t) == 0`.
use Prim.Native.Char.{code}
use Prim.Native.String.{String}
use syncedfs.Prelude.{
  ℕ, ◌≡◌, refl, ◌↔◌, Bool, true, false, ◌&&◌, List, [], ◌∷◌, arith, ◌==◌, ==_iff,
}

abbrev pub CString : Type 0
CString = List ℕ

abbrev pub codes : String → CString
codes String.[] = []
codes (String.◌∷◌ c s) = code c ∷ codes s

unfoldable pub eqb : CString → CString → Bool
eqb [] [] = true
eqb (a ∷ s) (b ∷ t) = a == b && eqb s t
eqb _ _ = false

eqb-eq : (s t : CString) → eqb s t ≡ true → s ≡ t
unfolding eqb
eqb-eq [] [] h = refl
eqb-eq [] (b ∷ t) h = ground arith
eqb-eq (a ∷ s) [] h = ground arith
eqb-eq (a ∷ s) (b ∷ t) h = ground (arith, ==_iff a b, eqb-eq s t)

pub eqb_refl : (s : CString) → eqb s s ≡ true
unfolding eqb
eqb_refl [] = refl
eqb_refl (a ∷ s) = ground (arith, eqb_refl s)

pub eqb_iff : (s t : CString) → (eqb s t ≡ true) ↔ (s ≡ t)
eqb_iff s t = (eqb-eq s t, λ e. rw e (eqb_refl t))
