-- ===== src/Effects/Methods.antt =====
-- Methods with a pointer receiver: code that calls out of the program and changes an object, which
-- keeps its changes when the code returns an error.
use yurt.Prelude.{List, ◌≡◌, arith, ap, refl}
use yurt.Effects.{Error, Result, ok, err}
use yurt.Effects.Calls.{Exec}

-- The object and the calls so far.
abbrev pub Method {ℓ} : Type ℓ → Type ℓ → Type ℓ → Type ℓ
Method S E A = S × List E → Result A × (S × List E)

module _ {ℓ} {S E A : Type ℓ} where
  abbrev pub pure : A → Method S E A
  pure a s = (ok a, s)

  abbrev pub raise : Error → Method S E A
  raise e s = (err e, s)

  abbrev pub lift : Result A → Method S E A
  lift r s = (r, s)

  -- code that leaves the object alone
  abbrev pub calling : Exec E A → Method S E A
  calling m s = ((m s.1).0, (s.0, (m s.1).1))

  -- a read of the object
  abbrev pub reading : (S → A) → Method S E A
  reading f s = (ok (f s.0), s)

module _ {ℓ} {S E : Type ℓ} where
  abbrev pub change : (S → S) → Method S E (Unit {ℓ})
  change f s = (ok tt, (f s.0, s.1))

module _ {ℓ} {S E A B : Type ℓ} where
  abbrev pub continue : Result A → (A → Method S E B) → Method S E B
  continue (ok a) f s = f a s
  continue (err e) f s = (err e, s)

  infixl 5 ◌>>=◌ ◌>>◌
  abbrev pub ◌>>=◌ : Method S E A → (A → Method S E B) → Method S E B
  ◌>>=◌ m f s = let (r, s') = m s in continue r f s'

  abbrev pub ◌>>◌ : Method S E A → Method S E B → Method S E B
  m >> k = m >>= λ _. k

  continue_ok :
      (r : Result A) (f : A → Method S E B) (s1 : S × List E) {b : B} {s' : S × List E}
      → continue r f s1 ≡ (ok b, s')
      → (a : A) × (r ≡ ok a) × (f a s1 ≡ (ok b, s'))
  continue_ok (ok a) f s1 e = (a, refl, e)
  continue_ok (err x) f s1 e = absurd (ground arith)

  -- A chain that succeeds has a first step that succeeds, and goes on from where it ends.
  pub bind-eq-ok :
      (m : Method S E A) (f : A → Method S E B) (s : S × List E) {b : B} {s' : S × List E}
      → (m >>= f) s ≡ (ok b, s')
      → (a : A) × (s1 : S × List E) × (m s ≡ (ok a, s1)) × (f a s1 ≡ (ok b, s'))
  bind-eq-ok m f s e =
      let (a, r, k) = continue_ok (m s).0 f (m s).1 e in
      (a, (m s).1, ap (λ (x : Result A). (x, (m s).1)) r, k)

  -- What the first step and then every continuation keeps, the chain keeps, also when it fails.
  pub bind-keeps {κ} :
      (P : S × List E → Type κ) (m : Method S E A) (f : A → Method S E B)
      → ((s : S × List E) → P s → P (m s).1)
      → ((a : A) (s : S × List E) → P s → P (f a s).1)
      → (s : S × List E) → P s
      → P ((m >>= f) s).1
  bind-keeps P m f first later s p = next (m s) (first s p)
    where
      next : (r : Result A × (S × List E)) → P r.1 → P (continue r.0 f r.1).1
      next (ok a, s1) q = later a s1 q
      next (err e, s1) q = q
