-- ===== src/Exec/Yields.antt =====
-- What a handler returns, when it returns.
use onecrawler_backend.Exec.{Exec, Result, ok, err, pure, gets, ◌>>=◌}
use onecrawler_backend.Exec.Preserves.{Preserves}

module _ {A : Type 0} (Q : A → Type 0) where
  abbrev pub Returned : Result A → Type 0
  Returned (ok a) = Q a
  Returned (err c d) = Unit {0}

-- Each value that the handler returns satisfies `Q`.
pub record Yields {S A : Type 0} (Q : A → Type 0) (m : Exec S A) : Type 0 where
  pub holds : (s : S) → Returned Q (m s).0

module _ {S A : Type 0} {Q : A → Type 0} where
  pub Yields-pure : (a : A) → Q a → Yields {S = S} Q (pure a)
  unfolding pure
  Yields-pure a h = record { holds = λ s. h }

module _ {S A B : Type 0} {P : A → Type 0} {Q : B → Type 0} where
  proceed-Yields :
      (r : Result A) (s : S) (f : A → Exec S B)
      → Returned P r
      → ((a : A) → P a → Yields Q (f a))
      → Returned Q (((λ (_ : S). (r, s)) >>= f) s).0
  unfolding ◌>>=◌
  proceed-Yields (ok a) s f h k = (k a h).holds s
  proceed-Yields (err c d) s f h k = tt

  pub Yields-bind :
      (m : Exec S A) (f : A → Exec S B)
      → Yields P m
      → ((a : A) → P a → Yields Q (f a))
      → Yields Q (m >>= f)
  unfolding ◌>>=◌
  Yields-bind m f p k = record {
    holds = λ s. let (r, s') = m s in proceed-Yields r s' f (p.holds s) k;
  }

-- Of a step whose value does not matter, nothing need be known.
any_value : {A : Type 0} (r : Result A) → Returned (λ (a : A). Unit {0}) r
any_value (ok a) = tt
any_value (err c d) = tt

pub Yields-any : {S A : Type 0} (m : Exec S A) → Yields (λ (a : A). Unit {0}) m
Yields-any m = record { holds = λ s. any_value (m s).0 }

pub Yields-after :
    {S A B : Type 0} {Q : B → Type 0} (m : Exec S A) (f : A → Exec S B)
    → ((a : A) → Yields Q (f a))
    → Yields Q (m >>= f)
Yields-after m f k = Yields-bind m f (Yields-any m) (λ a h. k a)

-- Each value that the handler returns satisfies `Q`, if the state satisfies `P`.
pub record YieldsFrom {S A : Type 0} (P : S → Type 0) (Q : A → Type 0) (m : Exec S A) : Type 0 where
  pub holds : (s : S) → P s → Returned Q (m s).0

module _ {S A : Type 0} {P : S → Type 0} {Q : A → Type 0} where
  pub YieldsFrom-gets : (f : S → A) → ((s : S) → P s → Q (f s)) → YieldsFrom P Q (gets f)
  unfolding gets
  YieldsFrom-gets f h = record { holds = h }

module _ {S A B : Type 0} {P : S → Type 0} {Q : B → Type 0} where
  proceed-YieldsFrom :
      (r : Result A) (s : S) (f : A → Exec S B)
      → P s
      → ((a : A) → YieldsFrom P Q (f a))
      → Returned Q (((λ (_ : S). (r, s)) >>= f) s).0
  unfolding ◌>>=◌
  proceed-YieldsFrom (ok a) s f h k = (k a).holds s h
  proceed-YieldsFrom (err c d) s f h k = tt

  pub YieldsFrom-after :
      (m : Exec S A) (f : A → Exec S B)
      → Preserves P m
      → ((a : A) → YieldsFrom P Q (f a))
      → YieldsFrom P Q (m >>= f)
  unfolding ◌>>=◌
  YieldsFrom-after m f p k = record {
    holds = λ s h. let (r, s') = m s in proceed-YieldsFrom r s' f (p.holds s h) k;
  }
