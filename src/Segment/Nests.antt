-- ===== src/Segment/Nests.antt =====
-- The brackets of the texts that packages/segment-dsl/src/index.ts builds: what closes them, and rules for the
-- steps of the compiler whose texts close all that they open.
pub mod Attribute
pub mod Condition
pub mod Query
use Prim.Native.Char.{code}
use Prim.Native.String.{String}
use Prim.Native.String
use text.Mathlib.TextLemmas.{cons-append, nil-append}
use nudgeon_platform.Common.{
  ℕ, zero, suc, ◌≡◌, refl, subst, ◌∙◌, List, [], ◌∷◌, Option, none, some, arith, Result, ok, err,
  Bool, true, false, if◌then◌else◌, ◌==◌, template, join,
}
use nudgeon_platform.Segment.{Value, CompileError}
use nudgeon_platform.Segment.Params.{M, ◌>>=◌, pure, throw, lift, add}
use nudgeon_platform.Segment.Emits.{Post}

-- How many brackets are open behind a character; none if it closes one that is not.
abbrev closed : ℕ → Option ℕ
closed zero = none
closed (suc depth) = some depth

abbrev stepped : ℕ → ℕ → Option ℕ
stepped depth c =
    if c == b'(' then some (suc depth) else if c == b')' then closed depth else some depth

abbrev and_then : Option ℕ → (ℕ → Option ℕ) → Option ℕ
and_then none next = none
and_then (some depth) next = next depth

-- How many are open behind a text, of those that are open before it and in it.
unfoldable pub nest : ℕ → String → Option ℕ
nest depth String.[] = some depth
nest depth (String.◌∷◌ x s) = and_then (stepped depth (code x)) (λ d. nest d s)

unfoldable pub nest_all : ℕ → List String → Option ℕ
nest_all depth [] = some depth
nest_all depth (x ∷ xs) = and_then (nest depth x) (λ d. nest_all d xs)

-- A text that closes all brackets that it opens, and no other.
abbrev pub IsBalanced : String → Type 0
IsBalanced text = (depth : ℕ) → nest depth text ≡ some depth

abbrev pub AreBalanced : List String → Type 0
AreBalanced [] = Unit
AreBalanced (x ∷ xs) = IsBalanced x × AreBalanced xs

nest-append :
    (s t : String) (depth : ℕ)
    → nest depth (String.◌++◌ s t) ≡ and_then (nest depth s) (λ d. nest d t)
unfolding nest
nest-append String.[] t depth = rw nil-append refl
nest-append (String.◌∷◌ x s) t depth =
    rw cons-append (by_step (stepped depth (code x)) (nest-append s t))
  where
    by_step :
        (o : Option ℕ)
        → ((d : ℕ) → nest d (String.◌++◌ s t) ≡ and_then (nest d s) (λ d'. nest d' t))
        → and_then o (λ d. nest d (String.◌++◌ s t))
          ≡ and_then (and_then o (λ d. nest d s)) (λ d. nest d t)
    by_step none h = refl
    by_step (some d) h = h d

nest-template :
    (parts : List String) (depth : ℕ) → nest depth (template parts) ≡ nest_all depth parts
unfolding template nest nest_all
nest-template [] depth = refl
nest-template (x ∷ xs) depth =
    nest-append x (template xs) depth ∙ by_first (nest depth x) (nest-template xs)
  where
    by_first :
        (o : Option ℕ)
        → ((d : ℕ) → nest d (template xs) ≡ nest_all d xs)
        → and_then o (λ d. nest d (template xs)) ≡ and_then o (λ d. nest_all d xs)
    by_first none h = refl
    by_first (some d) h = h d

pub join-IsBalanced :
    (separator : String) (parts : List String)
    → IsBalanced separator
    → AreBalanced parts
    → IsBalanced (join separator parts)
unfolding join nest
join-IsBalanced separator [] h _ depth = refl
join-IsBalanced separator (x ∷ []) h (hx, _) depth = hx depth
join-IsBalanced separator (x ∷ (y ∷ rest)) h (hx, hs) depth =
    rw (nest-append, hx depth, nest-append, h depth)
      (join-IsBalanced separator (y ∷ rest) h hs depth)

-- Where `m` returns, its result has the property.
pub record Gives {A : Type 0} (P : A → Type 0) (m : M A) : Type 0 where
  pub post : (p : List Value) → Post (m p) (λ a q. P a)

module _ {A : Type 0} {P : A → Type 0} where
  pub Gives-pure : (a : A) → P a → Gives P (pure a)
  unfolding pure
  Gives-pure a h = record { post = λ p. h }

  pub Gives-throw : (e : CompileError) → Gives P (throw e)
  unfolding throw
  Gives-throw e = record { post = λ p. tt }

  pub if-Gives : (b : Bool) {t u : M A} → Gives P t → Gives P u → Gives P (if b then t else u)
  if-Gives true h k = h
  if-Gives false h k = k

  pub Gives-ok :
      {m : M A} (p : List Value) {a : A} {q : List Value} → Gives P m → m p ≡ ok (a, q) → P a
  Gives-ok {m} p g e = by_result (m p) (g.post p) e
    where
      by_result :
          {a : A} {q : List Value} (r : Result CompileError (A × List Value))
          → Post r (λ a q. P a)
          → r ≡ ok (a, q)
          → P a
      by_result (ok (b, q')) h e = subst P (ground arith) h
      by_result (err x) h e = cc

module _ {A B : Type 0} {Q : B → Type 0} {f : A → M B} where
  pub Gives-lift : (r : Result CompileError A) → ((a : A) → Gives Q (f a)) → Gives Q (lift r >>= f)
  unfolding lift ◌>>=◌
  Gives-lift (ok a) h = record { post = λ p. (h a).post p }
  Gives-lift (err e) h = record { post = λ p. tt }

module _ {A B : Type 0} {P : A → Type 0} {Q : B → Type 0} {f : A → M B} where
  Post-bind :
      (r : Result CompileError (A × List Value))
      → Post r (λ a q. P a)
      → ((a : A) → P a → Gives Q (f a))
      → Post {A = B} (elim r [ ok (a, q) ↦ f a q | err e ↦ err e ]) (λ b q. Q b)
  Post-bind (err e) first later = tt
  Post-bind (ok (a, q)) first later = (later a first).post q

  pub Gives-bind : {m : M A} → Gives P m → ((a : A) → P a → Gives Q (f a)) → Gives Q (m >>= f)
  unfolding ◌>>=◌
  Gives-bind {m} first later = record { post = λ p. Post-bind (m p) (first.post p) later }

pub Gives-add : (v : Value) → Gives IsBalanced (add v)
unfolding add nest
Gives-add v = record { post = λ p. λ depth. refl }

-- The last step of most do blocks: the brackets of a text are those of its parts.
pub template-IsBalanced :
    (parts : List String)
    → ((depth : ℕ) → nest_all depth parts ≡ some depth)
    → IsBalanced (template parts)
template-IsBalanced parts h depth = nest-template parts depth ∙ h depth

pub Gives-template :
    (parts : List String)
    → ((depth : ℕ) → nest_all depth parts ≡ some depth)
    → Gives IsBalanced (pure (template parts))
Gives-template parts h = Gives-pure (template parts) (template-IsBalanced parts h)
