-- ===== src/Exec/Preserves.antt =====
-- Invariants of handlers: one rule for each way to build a handler, so that `search` proves the
-- invariant of a `do` block.
use onecrawler_backend.Prelude.{ℕ, String, Bool, true, false, Option, none, some, if◌then◌else◌}
use onecrawler_backend.Exec.{Exec, Result, ok, err, pure, gets, or_raise, raise_if, modify, ◌>>=◌}

-- The state keeps `P`, whether the handler returns or raises.
pub record Preserves {S A : Type 0} (P : S → Type 0) (m : Exec S A) : Type 0 where
  pub holds : (s : S) → P s → P (m s).1

module _ {S A : Type 0} where
  or_raise_keeps :
      (Q : S → Type 0) (o : Option A) (c : ℕ) (d : String) (s : S) → Q s → Q (or_raise o c d s).1
  unfolding or_raise
  or_raise_keeps Q none c d s h = h
  or_raise_keeps Q (some a) c d s h = h

module _ {S : Type 0} where
  raise_if_keeps :
      (Q : S → Type 0) (b : Bool) (c : ℕ) (d : String) (s : S) → Q s → Q (raise_if b c d s).1
  unfolding raise_if
  raise_if_keeps Q true c d s h = h
  raise_if_keeps Q false c d s h = h

module _ {S A : Type 0} {P : S → Type 0} where
  pub Preserves-pure : (a : A) → Preserves P (pure a)
  unfolding pure
  Preserves-pure a = record { holds = λ s h. h }

  pub Preserves-gets : (f : S → A) → Preserves P (gets f)
  unfolding gets
  Preserves-gets f = record { holds = λ s h. h }

  pub Preserves-or_raise : (o : Option A) (c : ℕ) (d : String) → Preserves P (or_raise o c d)
  Preserves-or_raise o c d = record { holds = or_raise_keeps P o c d }

  pub Preserves-if :
      (b : Bool) (m n : Exec S A) → Preserves P m → Preserves P n → Preserves P (if b then m else n)
  Preserves-if true m n p q = p
  Preserves-if false m n p q = q

module _ {S : Type 0} {P : S → Type 0} where
  pub Preserves-raise_if : (b : Bool) (c : ℕ) (d : String) → Preserves P (raise_if b c d)
  Preserves-raise_if b c d = record { holds = raise_if_keeps P b c d }

  pub Preserves-modify : (f : S → S) → ((s : S) → P s → P (f s)) → Preserves P (modify f)
  unfolding modify
  Preserves-modify f k = record { holds = k }

module _ {S A B : Type 0} {P : S → Type 0} where
  proceed_keeps :
      (r : Result A) (s : S) (f : A → Exec S B)
      → P s
      → ((a : A) → Preserves P (f a))
      → P (((λ (_ : S). (r, s)) >>= f) s).1
  unfolding ◌>>=◌
  proceed_keeps (ok a) s f h k = (k a).holds s h
  proceed_keeps (err c d) s f h k = h

  pub Preserves-bind :
      (m : Exec S A) (f : A → Exec S B)
      → Preserves P m
      → ((a : A) → Preserves P (f a))
      → Preserves P (m >>= f)
  unfolding ◌>>=◌
  Preserves-bind m f p k = record {
    holds = λ s h. let (r, s') = m s in proceed_keeps r s' f (p.holds s h) k;
  }

pub ruleset preserves_rules = (
  Preserves-pure, Preserves-gets, Preserves-or_raise, Preserves-if, Preserves-raise_if,
  Preserves-bind,
)
