-- ===== src/TwoFactor/Login/Guesses.antt =====
-- MAX_FAILED and LOCK_MINUTES of apps/api/src/auth/totp.service.ts: how many guesses they allow.
use Prim.Native.String.{String}
use nudgeon_platform.Common.{
  ℕ, suc, ◌+◌, ◌-◌, ◌*◌, ◌≤◌, ◌<◌, ◌≡◌, refl, ap, inl, inr, Bool, true, false, List, [], ◌∷◌, some,
  leb, arith, Bool-cases, All, Result, ok, err,
}
use nudgeon_platform.Accounts.{Member, Store}
use nudgeon_platform.TwoFactor.Login.{
  Host, LoginError, max_failed, is_locked, lock_row, set_failed, fail_with, accept_counter,
  reset_failures, verify_for_login,
}
use nudgeon_platform.TwoFactor.Login.Progress.{verify_for_login-true}
use nudgeon_platform.TwoFactor.Login.Steps.{
  IsEnrolled, verify_for_login_of_locked, verify_for_login-false,
}

-- What an attempt adds to the numbers of right and wrong answers. One that is refused adds nothing, and leaves
-- the store.
abbrev pub counted : Result LoginError (Bool × Store) → (Store → ℕ × ℕ) → Store → ℕ × ℕ
counted (ok (true, s')) rest s = (suc (rest s').0, (rest s').1)
counted (ok (false, s')) rest s = ((rest s').0, suc (rest s').1)
counted (err e) rest s = rest s

-- Attempts of one member, each a token and a time, one after the other: how many are answered as right, and how
-- many as wrong.
unfoldable pub tally : Host → ℕ → List (String × ℕ) → Store → ℕ × ℕ
tally host member_id [] s = (0, 0)
tally host member_id ((token, now) ∷ rest) s =
    counted (verify_for_login host member_id token now s) (tally host member_id rest) s

-- The lock's length in milliseconds.
abbrev pub lock_ms : ℕ
lock_ms = 900000

abbrev pub IsWithin : ℕ → (String × ℕ) → Type 0
IsWithin start attempt = (start ≤ attempt.1) × (attempt.1 < start + lock_ms)

module _ (host : Host) where
  refused-while-locked :
      (member_id : ℕ) (attempts : List (String × ℕ)) (start until : ℕ) (s : Store) (m : Member)
      (at : ℕ) (sealed : List ℕ)
      → IsEnrolled member_id s m at sealed
      → m.totp_locked_until ≡ some until
      → start + lock_ms ≤ until
      → All (IsWithin start) attempts
      → tally host member_id attempts s ≡ (0, 0)
  unfolding tally
  refused-while-locked member_id [] start until s m at sealed enrolled shut long within = refl
  refused-while-locked member_id ((token, now) ∷ rest) start until s m at sealed enrolled shut long
        (h, hs) =
      let early : is_locked m.totp_locked_until now ≡ true = rw shut (ground arith) in
      rw (verify_for_login_of_locked host member_id token now s m at sealed enrolled early)
        (refused-while-locked member_id rest start until s m at sealed enrolled shut long hs)

  -- The wrong answers that a count of failures leaves, beside four for each right one.
  abbrev IsBounded : ℕ → ℕ × ℕ → Type 0
  IsBounded failed (right, wrong) = wrong ≤ 4 * right + suc (4 - failed)

  -- The row after a right answer is enrolled, and has no failures.
  after_right :
      (member_id : ℕ) (token : String) (now : ℕ) (s after : Store) (m : Member) (at : ℕ)
      (sealed : List ℕ)
      → IsEnrolled member_id s m at sealed
      → verify_for_login host member_id token now s ≡ ok (true, after)
      → (n : Member) × IsEnrolled member_id after n at sealed × (n.totp_failed_count ≡ 0)
  after_right member_id token now s after m at sealed enrolled e =
      elim ((verify_for_login-true host member_id token now s after m at sealed enrolled e).1) [
        | inl (secret, counter, reads, right, there, codes) ↦
            (accept_counter counter m, there, refl)
        | inr (there, used) ↦ (reset_failures m, there, refl)
      ]

  -- One attempt, where the bound holds of those that follow.
  counted-IsBounded :
      (member_id : ℕ) (token : String) (now : ℕ) (rest : List (String × ℕ)) (start : ℕ) (s : Store)
      (m : Member) (at : ℕ) (sealed : List ℕ) (r : Result LoginError (Bool × Store))
      → IsEnrolled member_id s m at sealed
      → start ≤ now
      → All (IsWithin start) rest
      → ((t : Store) (n : Member)
          → IsEnrolled member_id t n at sealed
          → IsBounded n.totp_failed_count (tally host member_id rest t))
      → verify_for_login host member_id token now s ≡ r
      → IsBounded m.totp_failed_count (counted r (tally host member_id rest) s)
  unfolding fail_with
  counted-IsBounded member_id token now rest start s m at sealed (err x) enrolled late hs ih e =
      ih s m enrolled
  counted-IsBounded member_id token now rest start s m at sealed (ok (true, next)) enrolled late hs
        ih e =
      let (n, there, none_failed) = after_right member_id token now s next m at sealed enrolled e in
      let fewer = ih next n there in omega (arith, fewer, none_failed)
  counted-IsBounded member_id token now rest start s m at sealed (ok (false, next)) enrolled late hs
        ih e =
      let (_, again) =
        verify_for_login-false host member_id token now s next m at sealed enrolled e in
      elim (Bool-cases (leb max_failed (suc m.totp_failed_count))) [
        | inl full ↦
            let shut : IsEnrolled member_id next (lock_row now m) at sealed = rw full at again in
            let none_left =
              refused-while-locked member_id rest start (now + lock_ms) next (lock_row now m) at
                sealed shut refl (omega arith) hs in
            omega (arith, ap (λ (p : ℕ × ℕ). p.1) none_left)
        | inr more ↦
            let there : IsEnrolled member_id next (set_failed (suc m.totp_failed_count) m) at
                sealed =
              rw more at again in
            let fewer = ih next (set_failed (suc m.totp_failed_count) m) there in
            ground (arith, fewer)
      ]

  tally-IsBounded :
      (member_id : ℕ) (attempts : List (String × ℕ)) (start : ℕ) (at : ℕ) (sealed : List ℕ)
      → All (IsWithin start) attempts
      → (s : Store) (m : Member) → IsEnrolled member_id s m at sealed
      → IsBounded m.totp_failed_count (tally host member_id attempts s)
  unfolding tally
  tally-IsBounded member_id [] start at sealed within s m enrolled = omega arith
  tally-IsBounded member_id ((token, now) ∷ rest) start at sealed (h, hs) s m enrolled =
      counted-IsBounded member_id token now rest start s m at sealed
        (verify_for_login host member_id token now s) enrolled h.0 hs
        (tally-IsBounded member_id rest start at sealed hs) refl

  -- Of any attempts at the second factor of a member within 15 minutes, at most five are answered as wrong, and
  -- four more for each that is answered as right, whatever the tokens, their order and what the row held before.
  pub guesses-bound_of_window :
      (member_id : ℕ) (attempts : List (String × ℕ)) (start : ℕ) (s : Store) (m : Member) (at : ℕ)
      (sealed : List ℕ)
      → IsEnrolled member_id s m at sealed
      → All (IsWithin start) attempts
      → (tally host member_id attempts s).1 ≤ max_failed + 4 * (tally host member_id attempts s).0
  guesses-bound_of_window member_id attempts start s m at sealed enrolled within =
      omega (arith, tally-IsBounded member_id attempts start at sealed within s m enrolled)
