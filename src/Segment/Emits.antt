-- ===== src/Segment/Emits.antt =====
-- What a step of the compiler binds, and the places `?` that its text holds: rules for do blocks.
pub mod Attribute
pub mod Condition
pub mod Query
use Prim.Native.String.{String}
use mathlib.Core.List.{append-nil, append_assoc}
use nudgeon_platform.Common.{
  ℕ, ◌+◌, ◌≡◌, refl, subst, sym, ap, ◌∙◌, List, [], ◌∷◌, ◌++◌, arith, Result, ok, err, length,
  length-append, Bool, true, false, if◌then◌else◌, occurrences, occurrences_in, template,
  occurrences-template,
}
use nudgeon_platform.Segment.{Value, CompileError}
use nudgeon_platform.Segment.Params.{M, ◌>>=◌, pure, throw, lift, add}

-- The places of a text, and of several.
abbrev pub holes : String → ℕ
holes = occurrences b'?'

abbrev pub holes_in : List String → ℕ
holes_in = occurrences_in b'?'

abbrev pub Post :
    {A : Type 0} → Result CompileError (A × List Value) → (A → List Value → Type 0) → Type 0
Post (ok (a, q)) P = P a q
Post (err e) P = Unit

-- Where `m` returns, it has added values behind those that it was given, and its result weighs as
-- many as these and `n` more, which earlier steps have added.
pub record Owes {A : Type 0} (n : ℕ) (weight : A → ℕ) (m : M A) : Type 0 where
  pub post :
      (p : List Value)
      → Post (m p) (λ a q. (new : List Value) × (q ≡ p ++ new) × (weight a ≡ n + length new))

module _ {A : Type 0} {n : ℕ} {weight : A → ℕ} where
  pub Owes-pure : (a : A) → weight a ≡ n → Owes n weight (pure a)
  unfolding pure
  Owes-pure a h = record { post = λ p. ([], sym (append-nil p), omega arith) }

  pub Owes-throw : (e : CompileError) → Owes n weight (throw e)
  unfolding throw
  Owes-throw e = record { post = λ p. tt }

module _ {A B : Type 0} {n : ℕ} {weight : B → ℕ} where
  pub Owes-lift :
      (r : Result CompileError A) {f : A → M B}
      → ((a : A) → Owes n weight (f a))
      → Owes n weight (lift r >>= f)
  unfolding lift ◌>>=◌
  Owes-lift (ok a) h = record { post = λ p. (h a).post p }
  Owes-lift (err e) h = record { post = λ p. tt }

module _ {A B : Type 0} (n : ℕ) (own : A → ℕ) (weight : B → ℕ) (f : A → M B) where
  Post-bind :
      (p : List Value) (r : Result CompileError (A × List Value))
      → Post r (λ a q. (new : List Value) × (q ≡ p ++ new) × (own a ≡ 0 + length new))
      → ((a : A) → Owes (n + own a) weight (f a))
      → Post {A = B}
          (elim r [ ok (a, q) ↦ f a q | err e ↦ err e ])
          (λ b q. (new : List Value) × (q ≡ p ++ new) × (weight b ≡ n + length new))
  Post-bind p (err e) first later = tt
  Post-bind p (ok (a, q)) (new, e, w) later = grow (f a q) ((later a).post q)
    where
      grow :
          (r : Result CompileError (B × List Value))
          → Post r (λ b q'.
            (more : List Value) × (q' ≡ q ++ more) × (weight b ≡ n + own a + length more))
          → Post r (λ b q'. (more : List Value) × (q' ≡ p ++ more) × (weight b ≡ n + length more))
      grow (err e) h = tt
      grow (ok (b, q')) (more, e', w') = (
        new ++ more,
        e' ∙ ap (λ (xs : List Value). xs ++ more) e ∙ append_assoc p new more,
        omega (arith, length-append new more),
      )

module _ {A B : Type 0} {n : ℕ} {own : A → ℕ} {weight : B → ℕ} {f : A → M B} where
  pub Owes-bind :
      {m : M A} → Owes 0 own m → ((a : A) → Owes (n + own a) weight (f a)) → Owes n weight (m >>= f)
  unfolding ◌>>=◌
  Owes-bind {m} first later = record {
    post = λ p. Post-bind n own weight f p (m p) (first.post p) later;
  }

pub Owes-add : (v : Value) → Owes 0 holes (add v)
unfolding add occurrences
Owes-add v = record { post = λ p. (v ∷ [], refl, refl) }

-- A branch.
pub if-Owes :
    {A : Type 0} {n : ℕ} {weight : A → ℕ} (b : Bool) {t u : M A}
    → Owes n weight t
    → Owes n weight u
    → Owes n weight (if b then t else u)
if-Owes true h k = h
if-Owes false h k = k

pub pure-if-Owes :
    {A : Type 0} {n : ℕ} {weight : A → ℕ} (b : Bool) (x y : A)
    → Owes n weight (pure x)
    → Owes n weight (pure y)
    → Owes n weight (pure (if b then x else y))
pure-if-Owes true x y h k = h
pure-if-Owes false x y h k = k

-- The last step of most do blocks: a text whose places are those of its parts.
pub Owes-template :
    {n : ℕ} (parts : List String) → holes_in parts ≡ n → Owes n holes (pure (template parts))
Owes-template parts h = Owes-pure (template parts) (occurrences-template b'?' parts ∙ h)

-- What is known of a step that has returned.
pub Owes-ok :
    {A : Type 0} {n : ℕ} {weight : A → ℕ} {m : M A} (p : List Value) {a : A} {q : List Value}
    → Owes n weight m
    → m p ≡ ok (a, q)
    → (new : List Value) × (q ≡ p ++ new) × (weight a ≡ n + length new)
Owes-ok {n} {weight} p o e =
    subst (λ r. Post r (λ a q. (new : List Value) × (q ≡ p ++ new) × (weight a ≡ n + length new))) e
      (o.post p)

-- Inversion of a bind that has returned.
pub bind-eq-ok :
    {A B : Type 0} (m : M A) (f : A → M B) (p : List Value) {b : B × List Value}
    → (m >>= f) p ≡ ok b
    → (a : A) × (q : List Value) × (m p ≡ ok (a, q)) × (f a q ≡ ok b)
unfolding ◌>>=◌
bind-eq-ok {A} {B} m f p {b} e = by_result (m p) refl e
  where
    by_result :
        (r : Result CompileError (A × List Value))
        → m p ≡ r
        → (elim r [ ok (a, q) ↦ f a q | err x ↦ err x ]) ≡ ok b
        → (a : A) × (q : List Value) × (m p ≡ ok (a, q)) × (f a q ≡ ok b)
    by_result (ok (a, q)) same h = (a, q, same, h)
    by_result (err x) same h = cc
