-- ===== src/Prelude/Exec/Keeps.antt =====
-- What a part of a `do` block keeps, the whole keeps.
use transcribe_service.Prelude.Exec.{Exn, Result, ok, err, Exec, catch, lift, ◌>>=◌}

module _ {W : Type 0} (P : W → Type 0) where
  -- The rest of a `do` block after a call that ended as `d`.
  pub tail-keeps :
      {A B : Type 0} (d : Result A × W) (f : A → Exec W B) (w : W)
      → P d.1
      → ((a : A) → P (f a d.1).1)
      → P (((λ _. d) >>= f) w).1
  tail-keeps (ok a, w') f w h k = k a
  tail-keeps (err e, w') f w h k = h

  -- A handler that only answers keeps what the failed call left.
  pub catch-keeps :
      {A : Type 0} (d : Result A × W) (f : Exn → Result A) (w : W)
      → P d.1
      → P (catch (λ _. d) (λ e. lift (f e)) w).1
  catch-keeps (ok a, w') f w h = h
  catch-keeps (err e, w') f w h = h
