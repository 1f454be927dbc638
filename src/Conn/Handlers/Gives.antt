-- ===== src/Conn/Handlers/Gives.antt =====
-- What holds of the connection that a handler returns (peermsghandlers.go).
use totorrent.Base.{
  ◌≡◌, refl, Bool, true, false, Outcome, ok, err, panic, blocked, ◌>>=◌, if◌then◌else◌, Option,
  Error, subst,
}
use totorrent.Conn.State.{Conn}
use totorrent.Conn.Handlers.{Handled, try}

-- A handler that does not return gives nothing.
abbrev pub Gives : (Conn → Type 0) → Handled → Type 0
Gives P (ok (d, e)) = P d
Gives P (err e) = Unit {0}
Gives P panic = Unit {0}
Gives P blocked = Unit {0}

module _ (P : Conn → Type 0) where
  pub Gives-ok : (h : Handled) {d : Conn} {e : Option Error} → h ≡ ok (d, e) → Gives P h → P d
  Gives-ok h e g = subst (Gives P) e g

  pub bind-Gives {ℓ} :
      {A : Type ℓ} (m : Outcome A) (f : A → Handled)
      → ((a : A) → m ≡ ok a → Gives P (f a))
      → Gives P (m >>= f)
  bind-Gives (ok a) f h = h a refl
  bind-Gives (err e) f h = tt
  bind-Gives panic f h = tt
  bind-Gives blocked f h = tt

  pub try-Gives {ℓ} :
      {A : Type ℓ} (c : Conn) (m : Outcome A) (f : A → Handled)
      → P c
      → ((a : A) → m ≡ ok a → Gives P (f a))
      → Gives P (try c m f)
  try-Gives c (ok a) f h k = k a refl
  try-Gives c (err e) f h k = h
  try-Gives c panic f h k = tt
  try-Gives c blocked f h k = tt

  pub if-Gives :
      (b : Bool) (x y : Handled)
      → (b ≡ true → Gives P x)
      → (b ≡ false → Gives P y)
      → Gives P (if b then x else y)
  if-Gives true x y h k = h refl
  if-Gives false x y h k = k refl
