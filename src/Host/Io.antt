-- ===== src/Host/Io.antt =====
-- The program's functions as state passing over the world, with and without an error.
use k8s_sidecar_rs.Base.{Text, [], ◌∷◌, ◌++◌, Result, ok, err, ◌≡◌, refl}
use k8s_sidecar_rs.Logger.Level.{Level}
use k8s_sidecar_rs.Host.World.{Host, World, Event, logged}

abbrev pub Io : Host → Type 0 → Type 0
Io H A = World H → A × World H

-- A function that returns a `Result`, whose `?` leaves early.
abbrev pub Act : Host → Type 0 → Type 0 → Type 0
Act H E A = Io H (Result A E)

module _ {H : Host} {A : Type 0} where
  abbrev pub pure : A → Io H A
  pure a w = (a, w)

module _ {H : Host} {A B : Type 0} where
  infixl 5 ◌>>=◌
  abbrev pub ◌>>=◌ : Io H A → (A → Io H B) → Io H B
  ◌>>=◌ m f w = f (m w).0 (m w).1

  infixl 5 ◌>>◌
  abbrev pub ◌>>◌ : Io H A → Io H B → Io H B
  ◌>>◌ m f w = f (m w).1

module _ {H : Host} {E A B : Type 0} where
  abbrev pub continue : Result A E → (A → Act H E B) → Act H E B
  continue (ok a) f w = f a w
  continue (err e) f w = (err e, w)

  infixl 5 ◌>>=?◌
  abbrev pub ◌>>=?◌ : Act H E A → (A → Act H E B) → Act H E B
  ◌>>=?◌ m f w = continue (m w).0 f (m w).1

module _ (H : Host) where
  abbrev pub tell : Event H.F64 → Io H Unit
  tell e w = (tt, record w { trace = w.trace ++ (e ∷ []) })

  abbrev pub log : Level → Text → Io H Unit
  log level msg = tell (logged level msg)

  abbrev pub debug : Text → Io H Unit
  debug = log Level.debug

  abbrev pub info : Text → Io H Unit
  info = log Level.info

  abbrev pub warning : Text → Io H Unit
  warning = log Level.warning

  abbrev pub error : Text → Io H Unit
  error = log Level.error

-- What holds after a step that may fail: of the world on both outcomes, and by inversion of success.
module _ {H : Host} {E A B : Type 0} where
  pub continue-keeps {ℓ} :
      (P : World H → Type ℓ) (r : Result A E) (f : A → Act H E B) (w : World H)
      → P w
      → ((a : A) → P (f a w).1)
      → P (continue r f w).1
  continue-keeps P (ok a) f w h k = k a
  continue-keeps P (err e) f w h k = h

  pub continue-eq-ok :
      (r : Result A E) (f : A → Act H E B) (w : World H) {b : B}
      → (continue r f w).0 ≡ ok b
      → (a : A) × (r ≡ ok a) × ((f a w).0 ≡ ok b)
  continue-eq-ok (ok a) f w h = (a, refl, h)
  continue-eq-ok (err e) f w h = cc
