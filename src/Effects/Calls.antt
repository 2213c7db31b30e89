-- ===== src/Effects/Calls.antt =====
-- Code that calls out of the program. A call of code that is not in the repository is an event: it
-- is put in front of the history of all calls so far, and its answer is a function of that history,
-- so that a theorem about every such function covers every behaviour.
use yurt.Prelude.{List, ◌∷◌, ◌≡◌, arith, ap, refl}
use yurt.Effects.{Error, Result, ok, err}

-- The calls so far, the newest first.
abbrev pub Exec {ℓ} : Type ℓ → Type ℓ → Type ℓ
Exec E A = List E → Result A × List E

module _ {ℓ} {E A : Type ℓ} where
  abbrev pub pure : A → Exec E A
  pure a h = (ok a, h)

  abbrev pub raise : Error → Exec E A
  raise e h = (err e, h)

  abbrev pub lift : Result A → Exec E A
  lift r h = (r, h)

  -- a call `e` of outside code, which answers by what has happened before it
  abbrev pub call : E → (List E → Result A) → Exec E A
  call e answer h = (answer h, e ∷ h)

  -- `v, err := m`, where the code goes on in either case
  abbrev pub attempt : Exec E A → Exec E (Result A)
  attempt m h = let (r, h') = m h in (ok r, h')

module _ {ℓ} {E A B : Type ℓ} where
  abbrev pub continue : Result A → (A → Exec E B) → Exec E B
  continue (ok a) f h = f a h
  continue (err e) f h = (err e, h)

  infixl 5 ◌>>=◌ ◌>>◌
  abbrev pub ◌>>=◌ : Exec E A → (A → Exec E B) → Exec E B
  ◌>>=◌ m f h = let (r, h') = m h in continue r f h'

  abbrev pub ◌>>◌ : Exec E A → Exec E B → Exec E B
  m >> k = m >>= λ _. k

module _ {ℓ} {E A B : Type ℓ} where
  continue_ok :
      (r : Result A) (f : A → Exec E B) (h1 : List E) {b : B} {h' : List E}
      → continue r f h1 ≡ (ok b, h')
      → (a : A) × (r ≡ ok a) × (f a h1 ≡ (ok b, h'))
  continue_ok (ok a) f h1 e = (a, refl, e)
  continue_ok (err x) f h1 e = absurd (ground arith)

  -- A chain that succeeds has a first step that succeeds, and goes on from its history.
  pub bind-eq-ok :
      (m : Exec E A) (f : A → Exec E B) (h : List E) {b : B} {h' : List E}
      → (m >>= f) h ≡ (ok b, h')
      → (a : A) × (h1 : List E) × (m h ≡ (ok a, h1)) × (f a h1 ≡ (ok b, h'))
  bind-eq-ok m f h e =
      let (a, r, k) = continue_ok (m h).0 f (m h).1 e in
      (a, (m h).1, ap (λ (x : Result A). (x, (m h).1)) r, k)
