-- ===== src/Logger/History.antt =====
-- syncedfs/log.c, `logGeneric`, and syncedfs/sighandlers.c: all that was logged, across switches.
use mathlib.Core.List.{append_assoc, append-nil}
use syncedfs.Prelude.{
  ℕ, ◌≡◌, refl, sym, ◌∙◌, ap, Bool, true, false, not, List, [], ◌∷◌, ◌++◌, if◌then◌else◌,
}
use syncedfs.Logger.{
  Entry, Log, Disk, open_op_log, rename_log, switch_log, confirm_switch, switch_now, handle_sigusr1,
  deliver,
}

abbrev pub concat {ℓ} : {A : Type ℓ} → List (List A) → List A
concat [] = []
concat (xs ∷ xss) = xs ++ concat xss

concat-snoc {ℓ} :
    {A : Type ℓ} (xss : List (List A)) (xs : List A) → concat (xss ++ xs ∷ []) ≡ concat xss ++ xs
concat-snoc [] xs = append-nil xs
concat-snoc (ys ∷ xss) xs =
    ap (λ zs. ys ++ zs) (concat-snoc xss xs) ∙ sym (append_assoc ys (concat xss) xs)

-- All that was logged, in the logs that were switched and in the current one.
abbrev pub history : Log → List Entry
history l = concat l.switched ++ l.current

pub if_not-true : (b : Bool) (l l' : Log) → b ≡ true → (if not b then l else l') ≡ l'
if_not-true true l l' e = refl
if_not-true false l l' e = cc

if-history :
    (b : Bool) (l l' : Log) (h : List Entry)
    → history l ≡ h
    → history l' ≡ h
    → history (if b then l else l') ≡ h
if-history true l l' h e e' = e
if-history false l l' h e e' = e'

module _ (D : Disk) where
  rename_log-history : (l : Log) → history (rename_log D l).1 ≡ history l
  unfolding rename_log
  rename_log-history l = choose (D.renames l)
    where
      choose :
          (b : Bool)
          → (let r : Bool × Log =
                if b
                then (true, record l { current = []; switched = l.switched ++ l.current ∷ [] })
                else (false, l) in
              history r.1)
            ≡ history l
      choose true = append-nil _ ∙ concat-snoc l.switched l.current
      choose false = refl

  confirm_switch-history :
      (pid : ℕ) (r : Bool × Log) → history (confirm_switch D pid r) ≡ history r.1
  confirm_switch-history pid (true, l) = refl
  confirm_switch-history pid (false, l) = refl

  -- A switch keeps what was logged, also where it fails.
  pub switch_now-history : (pid : ℕ) (l : Log) → history (switch_now D pid l) ≡ history l
  unfolding switch_now switch_log open_op_log
  switch_now-history pid l = confirm_switch-history pid (switch_log D l) ∙ rename_log-history l

  pub handle_sigusr1-history : (pid : ℕ) (l : Log) → history (handle_sigusr1 D pid l) ≡ history l
  unfolding handle_sigusr1
  handle_sigusr1-history pid l =
      if-history l.write_pending (record l { switch_pending = true; pid_pending = pid })
        (switch_now D pid l) (history l) refl (switch_now-history pid l)

  pub deliver-history : (pids : List ℕ) (l : Log) → history (deliver D pids l) ≡ history l
  unfolding deliver
  deliver-history [] l = refl
  deliver-history (pid ∷ pids) l =
      deliver-history pids (handle_sigusr1 D pid l) ∙ handle_sigusr1-history pid l
