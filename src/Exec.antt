-- ===== src/Exec.antt =====
-- A request handler: it reads and writes a state, and returns or raises an `HTTPException`. What
-- was committed before a raise stays committed, so the state comes back beside an error too.
pub mod Preserves
pub mod Yields
use onecrawler_backend.Prelude.{ℕ, ◌≡◌, refl, ap, String, Bool, true, false, Option, none, some}

-- `err c d` is `HTTPException(status_code=c, detail=d)`.
pub data Result (A : Type 0) : Type 0 where
  ok : A → Result A
  err : ℕ → String → Result A

abbrev pub Exec : Type 0 → Type 0 → Type 0
Exec S A = S → Result A × S

module _ {S A : Type 0} where
  unfoldable pub pure : A → Exec S A
  pure a s = (ok a, s)

  unfoldable pub raise : ℕ → String → Exec S A
  raise c d s = (err c d, s)

  unfoldable pub gets : (S → A) → Exec S A
  gets f s = (ok (f s), s)

  -- `if x is None: raise HTTPException(c, d)`
  unfoldable pub or_raise : Option A → ℕ → String → Exec S A
  or_raise none c d s = (err c d, s)
  or_raise (some a) c d s = (ok a, s)

module _ {S : Type 0} where
  -- `if b: raise HTTPException(c, d)`
  unfoldable pub raise_if : Bool → ℕ → String → Exec S (Unit {0})
  raise_if true c d s = (err c d, s)
  raise_if false c d s = (ok tt, s)

  unfoldable pub modify : (S → S) → Exec S (Unit {0})
  modify f s = (ok tt, f s)

module _ {S A B : Type 0} where
  abbrev pub proceed : Result A → (A → Exec S B) → Exec S B
  proceed (ok a) f s = f a s
  proceed (err c d) f s = (err c d, s)

  infixl 5 ◌>>=◌ ◌>>◌
  -- to unfold this is to unfold all of the above
  unfoldable pub ◌>>=◌ : Exec S A → (A → Exec S B) → Exec S B
  unfolding pure raise gets or_raise raise_if modify
  ◌>>=◌ m f s = let (r, s') = m s in proceed r f s'

  abbrev pub ◌>>◌ : Exec S A → Exec S B → Exec S B
  m >> k = m >>= λ _. k

  -- A step that returns hands its value and its state on; one that raises is the end.
  pub bind-ok :
      (m : Exec S A) (f : A → Exec S B) (s s' : S) (a : A) → m s ≡ (ok a, s') → (m >>= f) s ≡ f a s'
  unfolding ◌>>=◌
  bind-ok m f s s' a e = rw e

  pub bind-err :
      (m : Exec S A) (f : A → Exec S B) (s s' : S) (c : ℕ) (d : String)
      → m s ≡ (err c d, s')
      → (m >>= f) s ≡ (err c d, s')
  unfolding ◌>>=◌
  bind-err m f s s' c d e = rw e

  proceed-inv :
      (r : Result A) (f : A → Exec S B) (s s' : S) (b : B)
      → proceed r f s ≡ (ok b, s')
      → (a : A) × (r ≡ ok a) × (f a s ≡ (ok b, s'))
  proceed-inv (ok a) f s s' b h = (a, refl, h)
  proceed-inv (err c d) f s s' b h = cc

  -- A handler that returns has returned at each of its steps.
  pub bind-inv :
      (m : Exec S A) (f : A → Exec S B) (s s' : S) (b : B)
      → (m >>= f) s ≡ (ok b, s')
      → (a : A) × (t : S) × (m s ≡ (ok a, t)) × (f a t ≡ (ok b, s'))
  unfolding ◌>>=◌
  bind-inv m f s s' b h =
      let (a, e, k) = proceed-inv (m s).0 f (m s).1 s' b h in
      (a, (m s).1, ap (λ r. (r, (m s).1)) e, k)

module _ {S A B C : Type 0} where
  proceed_same :
      (r : Result A) (f : A → Exec S B) (g : A → Exec S C) (s : S)
      → ((a : A) (t : S) → (f a t).1 ≡ (g a t).1)
      → (proceed r f s).1 ≡ (proceed r g s).1
  proceed_same (ok a) f g s h = h a s
  proceed_same (err c d) f g s h = refl

  -- Handlers that begin alike and end in the same states leave the same state.
  pub bind_same :
      (m : Exec S A) (f : A → Exec S B) (g : A → Exec S C) (s : S)
      → ((a : A) (t : S) → (f a t).1 ≡ (g a t).1)
      → ((m >>= f) s).1 ≡ ((m >>= g) s).1
  unfolding ◌>>=◌
  bind_same m f g s h = proceed_same (m s).0 f g (m s).1 h
