-- ===== src/Logger/Switch.antt =====
-- syncedfs/log.c, `logGeneric`, and syncedfs/sighandlers.c: when the log is switched.
use syncedfs.Prelude.{
  ℕ, ◌≡◌, refl, sym, ◌∙◌, ap, true, false, Option, none, some, List, [], ◌∷◌, ◌++◌,
}
use syncedfs.Logger.{
  Entry, Log, Disk, Interrupts, open_op_log, rename_log, switch_log, switch_now, handle_sigusr1,
  deliver, write_entry, run_pending, begin_write, end_write, log_generic,
}
use syncedfs.Logger.History.{if_not-true}

pub record Works (D : Disk) : Type 0 where
  pub closes : (l : Log) → D.closes l ≡ true
  pub renames : (l : Log) → D.renames l ≡ true
  pub opens : (l : Log) → D.opens l ≡ true
  pub writes : (e : Entry) (l : Log) → D.writes e l ≡ true

-- No write is pending and no switch is put off.
pub record IsIdle (l : Log) : Type 0 where
  pub opened : l.opened ≡ true
  pub no_write : l.write_pending ≡ false
  pub no_switch : l.switch_pending ≡ false

abbrev pub last_of : Option ℕ → List ℕ → Option ℕ
last_of o [] = o
last_of o (pid ∷ pids) = last_of (some pid) pids

-- The log with its entry, switched if a signal came.
abbrev pub settled : Entry → Option ℕ → Log → Log
settled e none l = record l { current = l.current ++ e ∷ [] }
settled e (some pid) l = record l {
  current = [];
  switched = l.switched ++ (l.current ++ e ∷ []) ∷ [];
  pid_pending = pid;
  signalled = l.signalled ++ pid ∷ [];
}

-- A switch that is put off
abbrev put_off : Option ℕ → Log → Log
put_off none l = l
put_off (some pid) l = record l { switch_pending = true; pid_pending = pid }

last_of-append : (o : Option ℕ) (xs ys : List ℕ) → last_of o (xs ++ ys) ≡ last_of (last_of o xs) ys
last_of-append o [] ys = refl
last_of-append o (x ∷ xs) ys = last_of-append (some x) xs ys

module _ (D : Disk) where
  deliver-put_off :
      (o : Option ℕ) (pids : List ℕ) (l : Log)
      → deliver D pids (put_off o (begin_write D l)) ≡ put_off (last_of o pids) (begin_write D l)
  unfolding deliver handle_sigusr1
  deliver-put_off o [] l = refl
  deliver-put_off none (pid ∷ pids) l = deliver-put_off (some pid) pids l
  deliver-put_off (some p) (pid ∷ pids) l = deliver-put_off (some pid) pids l

  write_entry-put_off :
      (o : Option ℕ) (e : Entry) (l : Log)
      → Works D
      → write_entry D e (put_off o (begin_write D l))
        ≡ put_off o (begin_write D (record l { current = l.current ++ e ∷ [] }))
  unfolding write_entry
  write_entry-put_off none e l k = rw (k.writes e (begin_write D l)) refl
  write_entry-put_off (some p) e l k = rw (k.writes e (put_off (some p) (begin_write D l))) refl

  pub switch_now-Works :
      (pid : ℕ) (l : Log)
      → Works D
      → switch_now D pid l ≡ record l {
        opened = true;
        current = [];
        switched = l.switched ++ l.current ∷ [];
        switch_pending = false;
        signalled = l.signalled ++ pid ∷ [];
      }
  unfolding switch_now switch_log open_op_log rename_log
  switch_now-Works pid l k = rw (k.renames l, k.closes l, k.opens) refl

  run_pending-put_off :
      (o : Option ℕ) (e : Entry) (l : Log)
      → Works D
      → IsIdle l
      → run_pending D
          (end_write D (put_off o (begin_write D (record l { current = l.current ++ e ∷ [] }))))
        ≡ settled e o l
  unfolding run_pending
  run_pending-put_off none e l k h = rw (h.no_switch, h.no_write) refl
  run_pending-put_off (some p) e l k h =
      switch_now-Works p _ k ∙ rw (h.opened, h.no_write, h.no_switch) refl

  -- While an entry is written, signals are put off: the entry goes to the log that was open when
  -- the write began. Behind it the log is switched once, if any signal came, and the process of
  -- the last signal is answered, if the files of the log can be used.
  pub log_generic-settled :
      (e : Entry) (i : Interrupts) (l : Log)
      → Works D
      → IsIdle l
      → log_generic D e i l ≡ settled e (last_of none (i.before ++ i.behind)) l
  unfolding log_generic
  log_generic-settled e i l k h =
      if_not-true l.opened l _ h.opened
      ∙ ap (λ l'. run_pending D (end_write D (deliver D i.behind (write_entry D e l'))))
          (deliver-put_off none i.before l)
      ∙ ap (λ l'. run_pending D (end_write D (deliver D i.behind l')))
          (write_entry-put_off (last_of none i.before) e l k)
      ∙ ap (λ l'. run_pending D (end_write D l'))
          (deliver-put_off (last_of none i.before) i.behind
            (record l { current = l.current ++ e ∷ [] }))
      ∙ run_pending-put_off _ e l k h
      ∙ ap (λ o. settled e o l) (sym (last_of-append none i.before i.behind))
