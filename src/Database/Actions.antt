-- ===== src/Database/Actions.antt =====
-- Calls in their order, outside or around transactions: an error ends the function, and what was
-- committed or sent before it stays.
use eventflow_commerce.Common.{◌++◌, ◌∷◌, []}
use eventflow_commerce.Errors.{Error, Result, ok, err}
use eventflow_commerce.Database.{Action, World}

module _ {S C : Type 0} where
  abbrev pub return : {A : Type 0} → A → Action S C A
  return a w = (ok a, w)

  abbrev pub raise : {A : Type 0} → Error → Action S C A
  raise e w = (err e, w)

  abbrev pub lift : {A : Type 0} → Result A → Action S C A
  lift r w = (r, w)

  abbrev pub resume :
      {A B : Type 0} → (A → Action S C B) → Result A × World S C → Result B × World S C
  resume f (ok a, w) = f a w
  resume f (err e, w) = (err e, w)

  infixl 5 ◌>>=◌ ◌>>◌
  abbrev pub ◌>>=◌ : {A B : Type 0} → Action S C A → (A → Action S C B) → Action S C B
  ◌>>=◌ m f w = resume f (m w)

  abbrev pub ◌>>◌ : {A B : Type 0} → Action S C A → Action S C B → Action S C B
  m >> k = m >>= λ _. k

  -- A call that reached another service.
  abbrev pub log_call : C → World S C → World S C
  log_call c w = record w { calls = w.calls ++ c ∷ [] }
