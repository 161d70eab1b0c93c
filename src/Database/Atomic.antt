-- ===== src/Database/Atomic.antt =====
-- Transactions are all or nothing, whatever the server does.
use eventflow_commerce.Common.{ℕ, ◌≡◌, refl, sym, ◌∙◌, ◌⊎◌, inl, inr}
use eventflow_commerce.Errors.{
  Error, Result, ok, err, driver, begin_transaction, commit_transaction,
}
use eventflow_commerce.Database.{
  Prog, done, call, run, ◌>>=◌, World, Reply, answers, fails, lost, exec, begin, commit, in_tx,
  tick, rollback, start, finish, close,
}

pub Reply-cases : (r : Reply) → (r ≡ answers) ⊎ ((r ≡ fails) ⊎ (r ≡ lost))
Reply-cases answers = inl refl
Reply-cases fails = inr (inl refl)
Reply-cases lost = inr (inr refl)

-- The rows after a run that the server answered throughout: an error is rolled back.
module _ {S A : Type 0} where
  abbrev pub settled : Result A × S → S → S
  settled (ok a, s) before = s
  settled (err e, s) before = before

module _ {S C A : Type 0} where
  -- What a body leaves alone, and what it has done when no statement failed.
  pub record Ran (p : Prog S A) (w : World S C) (o : Result A × World S C) : Type 0 where
    pub same_rows : o.1.committed ≡ w.committed
    pub same_calls : o.1.calls ≡ w.calls
    pub same_replies : o.1.replies ≡ w.replies
    pub as_run : (a : A) → o.0 ≡ ok a → run p w.view ≡ (ok a, o.1.view)

  pub exec-Ran : (p : Prog S A) (w : World S C) → Ran p w (exec p w)
  unfolding exec run
  exec-Ran (done r) w = record {
    same_rows = refl;
    same_calls = refl;
    same_replies = refl;
    as_run = λ a e. cc e;
  }
  exec-Ran (call k u) w = elim (Reply-cases (w.replies w.clock)) [
    | inl e ↦
        let w' : World S C = record (tick w) { view = u w.view } in
        let h : Ran (k w.view) w' (exec (k w.view) w') = exec-Ran (k w.view) w' in
        rw (e, exec)
          (record {
            same_rows = h.same_rows;
            same_calls = h.same_calls;
            same_replies = h.same_replies;
            as_run = h.as_run;
          })
    | inr (inl e) ↦
        rw (e, exec)
          (record { same_rows = refl; same_calls = refl; same_replies = refl; as_run = λ a e. cc })
    | inr (inr e) ↦
        rw (e, exec)
          (record { same_rows = refl; same_calls = refl; same_replies = refl; as_run = λ a e. cc })
  ]

  -- The end of a transaction: the caller has an error and no row has changed, or every statement
  -- took effect on the rows that were committed before; then the caller has the result, or the
  -- error of a commit whose reply was lost.
  pub data Outcome (p : Prog S A) (before : S) (o : Result A × World S C) : Type 0 where
    unchanged : (e : Error) → o.0 ≡ err e → o.1.committed ≡ before → Outcome p before o
    applied :
        (a : A)
        → run p before ≡ (ok a, o.1.committed)
        → (o.0 ≡ ok a) ⊎ (o.0 ≡ err (driver commit_transaction))
        → Outcome p before o

  finish-Outcome :
      (p : Prog S A) (w : World S C) (o : Result A × World S C)
      → w.view ≡ w.committed
      → Ran p w o
      → Outcome p w.committed (finish o)
  unfolding commit
  finish-Outcome p w (err e, v) h r = Outcome.unchanged e refl (r.same_rows)
  finish-Outcome p w (ok a, v) h r = elim (Reply-cases (v.replies v.clock)) [
    | inl e ↦
        Outcome.applied a (rw (e, commit, close) (rw (← h) (r.as_run a refl)))
          (rw (e, commit, close) (inl refl))
    | inr (inl e) ↦
        Outcome.unchanged (driver commit_transaction) (rw (e, commit, close))
          (rw (e, commit, close) r.same_rows)
    | inr (inr e) ↦
        Outcome.applied a (rw (e, commit, close) (rw (← h) (r.as_run a refl)))
          (rw (e, commit, close) (inr refl))
  ]

  -- Every transaction is all or nothing, under every behaviour of the server.
  pub in_tx-Outcome : (p : Prog S A) (w : World S C) → Outcome p w.committed (in_tx p w)
  unfolding in_tx
  in_tx-Outcome p w = elim (Reply-cases (w.replies w.clock)) [
    | inl e ↦
        let v : World S C = record (tick w) { view = w.committed } in
        rw (e, begin, start) (finish-Outcome p v (exec p v) refl (exec-Ran p v))
    | inr (inl e) ↦ rw (e, begin, start) (Outcome.unchanged (driver begin_transaction) refl refl)
    | inr (inr e) ↦ rw (e, begin, start) (Outcome.unchanged (driver begin_transaction) refl refl)
  ]

  pub in_tx-unbegun :
      (p : Prog S A) (w : World S C)
      → w.replies w.clock ≡ fails
      → in_tx p w ≡ (err (driver begin_transaction), rollback (tick w))
  unfolding in_tx
  in_tx-unbegun p w h = rw (h, begin, start) refl

  -- What every successful run of the body keeps, the transaction keeps.
  pub in_tx-keeps :
      (P : S → Type 0) (p : Prog S A) (w : World S C)
      → ((a : A) (s : S) → run p w.committed ≡ (ok a, s) → P s)
      → P w.committed
      → P (in_tx p w).1.committed
  in_tx-keeps P p w h base = elim (in_tx-Outcome p w) [
    | Outcome.unchanged e failed same ↦ rw same base
    | Outcome.applied a ran result ↦ h a _ ran
  ]

  -- A caller that has a result knows what was committed.
  pub in_tx-ok :
      (p : Prog S A) (w : World S C) (a : A)
      → (in_tx p w).0 ≡ ok a
      → run p w.committed ≡ (ok a, (in_tx p w).1.committed)
  in_tx-ok p w a h = elim (in_tx-Outcome p w) [
    | Outcome.unchanged e failed same ↦ absurd (cc)
    | Outcome.applied b ran (inl result) ↦ rw ran (cc)
    | Outcome.applied b ran (inr result) ↦ absurd (cc)
  ]

  exec-answered :
      (p : Prog S A) (w : World S C)
      → ((n : ℕ) → w.replies n ≡ answers)
      → ((exec p w).0 ≡ (run p w.view).0) × ((exec p w).1.view ≡ (run p w.view).1)
  unfolding exec run
  exec-answered (done r) w h = (refl, refl)
  exec-answered (call k u) w h =
      rw (h w.clock, exec) (exec-answered (k w.view) (record (tick w) { view = u w.view }) h)

  finish-answered :
      (o : Result A × World S C)
      → ((n : ℕ) → o.1.replies n ≡ answers)
      → ((finish o).0 ≡ o.0) × ((finish o).1.committed ≡ settled (o.0, o.1.view) o.1.committed)
  unfolding commit
  finish-answered (ok a, w) h = rw (h w.clock, commit, close) (refl, refl)
  finish-answered (err e, w) h = (refl, refl)

  -- When the server answers every call, the caller has the result of the body, and the rows are
  -- those that the body left, or those before it if it returned an error.
  pub in_tx-answered :
      (p : Prog S A) (w : World S C)
      → ((n : ℕ) → w.replies n ≡ answers)
      → ((in_tx p w).0 ≡ (run p w.committed).0)
        × ((in_tx p w).1.committed ≡ settled (run p w.committed) w.committed)
  unfolding in_tx
  in_tx-answered p w h =
      let v : World S C = record (tick w) { view = w.committed } in
      let r : Ran p v (exec p v) = exec-Ran p v in
      let e : ((exec p v).0 ≡ (run p v.view).0) × ((exec p v).1.view ≡ (run p v.view).1) =
        exec-answered p v h in
      let f : ((finish (exec p v)).0 ≡ (exec p v).0)
          × ((finish (exec p v)).1.committed
              ≡ settled ((exec p v).0, (exec p v).1.view) (exec p v).1.committed) =
        finish-answered (exec p v) (rw r.same_replies h) in
      rw (h w.clock, begin, start) (cc, cc)

module _ {S A B : Type 0} where
  abbrev pub continue : Result A × S → (A → Prog S B) → Result B × S
  continue (ok a, s) f = run (f a) s
  continue (err e, s) f = (err e, s)

  pub run-bind : (m : Prog S A) (f : A → Prog S B) (s : S) → run (m >>= f) s ≡ continue (run m s) f
  unfolding run
  run-bind (done (ok a)) f s = refl
  run-bind (done (err e)) f s = refl
  run-bind (call k u) f s = run-bind (k s) f (u s)

module _ {S A B : Type 0} where
  -- The two parts of a body that returned no error.
  pub record Split (m : Prog S A) (f : A → Prog S B) (s : S) (b : B) (t : S) : Type 0 where
    pub between : A
    pub middle : S
    pub first : run m s ≡ (ok between, middle)
    pub second : run (f between) middle ≡ (ok b, t)

  continue-Split :
      (m : Prog S A) (f : A → Prog S B) (s : S) (b : B) (t : S) (o : Result A × S)
      → run m s ≡ o
      → continue o f ≡ (ok b, t)
      → Split m f s b t
  continue-Split m f s b t (ok a, u) p e = record { between = a; middle = u; first = p; second = e }
  continue-Split m f s b t (err x, u) p e = absurd (cc)

  pub bind-Split :
      (m : Prog S A) (f : A → Prog S B) (s : S) (b : B) (t : S)
      → run (m >>= f) s ≡ (ok b, t)
      → Split m f s b t
  bind-Split m f s b t e = continue-Split m f s b t (run m s) refl (sym (run-bind m f s) ∙ e)
