-- ===== src/Prelude/Exec.antt =====
-- Python code that changes state and may raise. What was written before a raise stays written, so
-- the state comes back beside the exception too. Awaiting a call runs it to its end.
pub mod Keeps
use Prim.Native.String.{String}

-- The exceptions that the service tells apart, each with its `str(exc)`.
pub data Exn : Type 0 where
  timeout_error no_script_error value_error key_error authentication_error : String → Exn
  -- any other `Exception`
  exception : String → Exn

abbrev pub str : Exn → String
str (timeout_error s) = s
str (no_script_error s) = s
str (value_error s) = s
str (key_error s) = s
str (authentication_error s) = s
str (exception s) = s

pub data Result {ℓ} (A : Type ℓ) : Type ℓ where
  ok : A → Result A
  err : Exn → Result A

abbrev pub Exec : Type 0 → Type 0 → Type 0
Exec S A = S → Result A × S

module _ {S A : Type 0} where
  abbrev pub pure : A → Exec S A
  pure a s = (ok a, s)

  abbrev pub raise : Exn → Exec S A
  raise e s = (err e, s)

  -- a pure computation that may raise
  abbrev pub lift : Result A → Exec S A
  lift r s = (r, s)

  -- `try: m except Exception as e: h e`
  abbrev pub catch : Exec S A → (Exn → Exec S A) → Exec S A
  catch m h s = let (r, s') = m s in elim r [ ok a ↦ (ok a, s') | err e ↦ h e s' ]

infixl 5 ◌>>=◌ ◌>>◌
abbrev pub ◌>>=◌ : {S A B : Type 0} → Exec S A → (A → Exec S B) → Exec S B
◌>>=◌ m f s = let (r, s') = m s in elim r [ ok a ↦ f a s' | err e ↦ (err e, s') ]

abbrev pub ◌>>◌ : {S A B : Type 0} → Exec S A → Exec S B → Exec S B
m >> k = m >>= λ _. k

-- `try: m finally: f`; an exception of `f` takes the place of that of `m`.
abbrev pub with_finally : {S A : Type 0} → Exec S A → Exec S (Unit {0}) → Exec S A
with_finally m f s =
    let (r, s') = m s in let (u, s'') = f s' in elim u [ ok v ↦ (r, s'') | err e ↦ (err e, s'') ]

-- A call to another process: it is served, or an exception is raised, before or after the other
-- side has carried it out.
pub data Delivery : Type 0 where
  served : Delivery
  lost_before lost_after : Exn → Delivery

unfoldable pub attempt : {S A : Type 0} → Delivery → Exec S A → Exec S A
attempt served m s = m s
attempt (lost_before e) m s = (err e, s)
attempt (lost_after e) m s = (err e, (m s).1)
