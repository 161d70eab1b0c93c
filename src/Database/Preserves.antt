-- ===== src/Database/Preserves.antt =====
-- What every successful run of a body keeps, and the rules to show it.
use eventflow_commerce.Common.{
  ◌≡◌, refl, sym, ap, ◌∙◌, subst, Bool, true, false, inl, inr, if◌then◌else◌,
}
use eventflow_commerce.Errors.{Result, ok, err}
use eventflow_commerce.Database.{
  Prog, done, run, sql, ◌>>=◌, World, in_tx, exec, begin, commit, finish, start, close, tick,
}
use eventflow_commerce.Database.Atomic.{in_tx-keeps, continue, run-bind, Reply-cases, exec-Ran}

-- A body that keeps `P` whenever it returns no error; an error is rolled back.
pub record Preserves {S A : Type 0} (P : S → Type 0) (m : Prog S A) : Type 0 where
  pub keep : (s t : S) (a : A) → run m s ≡ (ok a, t) → P s → P t

module _ {S A : Type 0} {P : S → Type 0} where
  pub Preserves-done : (r : Result A) → Preserves P (done r)
  unfolding run
  Preserves-done r = record { keep = λ s t a e h. subst P (ap (λ (o : Result A × S). o.1) e) h }

  pub Preserves-call :
      (f : S → Result A) (u : S → S) → ((s : S) → P s → P (u s)) → Preserves P (sql f u)
  unfolding run
  Preserves-call f u k = record {
    keep = λ s t a e h. subst P (ap (λ (o : Result A × S). o.1) e) (k s h);
  }

  pub Preserves-if :
      (b : Bool) (m n : Prog S A) → Preserves P m → Preserves P n → Preserves P (if b then m else n)
  Preserves-if true m n km kn = km
  Preserves-if false m n km kn = kn

  -- A transaction keeps on the committed rows what its body keeps.
  pub in_tx-Preserves :
      {C : Type 0} (m : Prog S A) (w : World S C)
      → Preserves P m
      → P w.committed
      → P (in_tx m w).1.committed
  in_tx-Preserves m w k h = in_tx-keeps P m w (λ a s e. k.keep w.committed s a e h) h

module _ {S A B : Type 0} {P : S → Type 0} where
  continue-Preserves :
      (f : A → Prog S B) (o : Result A × S) (t : S) (b : B)
      → ((a : A) → Preserves P (f a))
      → ((a : A) → o.0 ≡ ok a → P o.1)
      → continue o f ≡ (ok b, t)
      → P t
  continue-Preserves f (ok a, s) t b k h e = (k a).keep s t b e (h a refl)
  continue-Preserves f (err x, s) t b k h e = absurd (cc)

  pub Preserves-bind :
      (m : Prog S A) (f : A → Prog S B)
      → Preserves P m
      → ((a : A) → Preserves P (f a))
      → Preserves P (m >>= f)
  Preserves-bind m f km kf = record {
    keep = λ s t b e h.
        continue-Preserves f (run m s) t b kf (λ a r. km.keep s (run m s).1 a (cc) h)
          (sym (run-bind m f s) ∙ e);
  }

pub ruleset preserves_rules = (Preserves-done, Preserves-bind, Preserves-if)

module _ {S A C : Type 0} where
  finish_calls : (o : Result A × World S C) → (finish o).1.calls ≡ o.1.calls
  unfolding commit
  finish_calls (ok a, w) = elim (Reply-cases (w.replies w.clock)) [
    | inl e ↦ rw (e, commit, close) refl
    | inr (inl e) ↦ rw (e, commit, close) refl
    | inr (inr e) ↦ rw (e, commit, close) refl
  ]
  finish_calls (err e, w) = refl

  -- A transaction calls no other service.
  pub in_tx_calls : (p : Prog S A) (w : World S C) → (in_tx p w).1.calls ≡ w.calls
  unfolding in_tx
  in_tx_calls p w = elim (Reply-cases (w.replies w.clock)) [
    | inl e ↦
        let v : World S C = record (tick w) { view = w.committed } in
        rw (e, begin, start) (finish_calls (exec p v) ∙ (exec-Ran p v).same_calls)
    | inr (inl e) ↦ rw (e, begin, start) refl
    | inr (inr e) ↦ rw (e, begin, start) refl
  ]
