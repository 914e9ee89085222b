-- ===== src/Segment/Supported/Verdicts.antt =====
-- Whether a step returns or throws, whatever was bound before: rules for do blocks.
use nudgeon_platform.Common.{
  ◌≡◌, refl, ap, ◌∙◌, Bool, true, false, ◌&&◌, List, if◌then◌else◌, Result, ok, err,
}
use nudgeon_platform.Segment.{Value, CompileError}
use nudgeon_platform.Segment.Params.{M, ◌>>=◌, pure, throw, lift, add}
use nudgeon_platform.Segment.Supported.{is_ok}

pub record Verdict {A : Type 0} (b : Bool) (m : M A) : Type 0 where
  pub verdict : (p : List Value) → is_ok (m p) ≡ b

pub Verdict-pure : {A : Type 0} (a : A) → Verdict true (pure a)
unfolding pure
Verdict-pure a = record { verdict = λ p. refl }

pub Verdict-throw : {A : Type 0} (e : CompileError) → Verdict {A = A} false (throw e)
unfolding throw
Verdict-throw e = record { verdict = λ p. refl }

pub Verdict-add : (v : Value) → Verdict true (add v)
unfolding add
Verdict-add v = record { verdict = λ p. refl }

pub if-Verdict :
    {A : Type 0} {c d : Bool} (b : Bool) {t u : M A}
    → Verdict c t
    → Verdict d u
    → Verdict (if b then c else d) (if b then t else u)
if-Verdict true h k = h
if-Verdict false h k = k

module _ {A B : Type 0} {b c : Bool} {f : A → M B} where
  pub Verdict-lift :
      (r : Result CompileError A)
      → is_ok r ≡ b
      → ((a : A) → r ≡ ok a → Verdict c (f a))
      → Verdict (b && c) (lift r >>= f)
  unfolding lift ◌>>=◌
  Verdict-lift (ok a) h later = record {
    verdict = λ p. (later a refl).verdict p ∙ ap (λ x. x && c) h;
  }
  Verdict-lift (err e) h later = record { verdict = λ p. ap (λ x. x && c) h }

  result-Verdict :
      (r : Result CompileError (A × List Value))
      → is_ok r ≡ b
      → ((a : A) → Verdict c (f a))
      → is_ok {A = B × List Value} (elim r [ ok (a, q) ↦ f a q | err e ↦ err e ]) ≡ b && c
  result-Verdict (ok (a, q)) h later = (later a).verdict q ∙ ap (λ x. x && c) h
  result-Verdict (err e) h later = ap (λ x. x && c) h

  pub Verdict-bind :
      {m : M A} → Verdict b m → ((a : A) → Verdict c (f a)) → Verdict (b && c) (m >>= f)
  unfolding ◌>>=◌
  Verdict-bind {m} first later = record {
    verdict = λ p. result-Verdict (m p) (first.verdict p) later;
  }
