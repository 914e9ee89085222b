-- ===== src/InApp/Access.antt =====
-- apps/api/src/in-app/delivery.service.ts: `register` and `auth`, and what all transactions end with.
use Prim.Native.Char.{Char, code}
use Prim.Native.String.{String}
use text.Mathlib.Text.{◌==◌ as str_eq}
use nudgeon_platform.Common.{
  ℕ, ◌+◌, Bool, false, not, ◌&&◌, ◌||◌, List, [], ◌∷◌, Option, none, some, ◌==◌, ltb, leb,
  if◌then◌else◌, any, first_row, count_rows, Result, ok, err,
}
use nudgeon_platform.TwoFactor.Totp.{units}
use nudgeon_platform.InApp.{
  Platform, Device, Store, InAppError, unauthorized, disabled, installation_daily_limit,
  unique_violation, Clock,
}

-- `Installation`, which `auth` finds for a request.
pub record Installation : Type 0 where
  pub id : ℕ
  pub tenant : ℕ
  pub app : ℕ
  pub platform : Platform

-- What follows a transaction: the new store and an answer, or the store as it was and the exception.
abbrev pub settle {ℓ} :
    {A : Type ℓ} → Store → Result InAppError (Store × A) → Store × Result InAppError A
settle s (ok (s', a)) = (s', ok a)
settle s (err e) = (s, err e)

abbrev pub is_device : ℕ → ℕ → ℕ → Device → Bool
is_device tenant app id d = d.tenant == tenant && (d.app == app && d.id == id)

abbrev pub max_installations : ℕ
max_installations = 10000

-- Those of one day.
abbrev pub is_recent_device : ℕ → ℕ → ℕ → Device → Bool
is_recent_device tenant app now d =
    d.tenant == tenant && (d.app == app && ltb now (d.created_at + 86400000))

-- `register`, with the id and the secret that Node draws, and the hash of the secret.
unfoldable pub register :
    (String → String)
    → Bool
    → ℕ
    → ℕ
    → Platform
    → ℕ
    → String
    → Clock
    → Store
    → Store × Result InAppError (ℕ × String)
register hash live tenant app platform id secret clock s = settle s (
    if not live
    then err disabled
    else if leb max_installations
        (count_rows (is_recent_device tenant app clock.sql) s.installations)
    then err installation_daily_limit
    else if any (λ d. d.id == id) s.installations
    then err unique_violation
    else ok (
      record s {
        installations =
            record {
              id = id;
              tenant = tenant;
              app = app;
              platform = platform;
              credential_hash = hash secret;
              revoked = false;
              created_at = clock.sql;
              last_seen_at = clock.sql;
            }
            ∷ s.installations;
      },
      (id, secret),
    ))

-- A part in front of what a text is split into.
abbrev pub onto : Char → List String → List String
onto c [] = String.◌∷◌ c "" ∷ []
onto c (part ∷ parts) = String.◌∷◌ c part ∷ parts

-- `token.split(".")`.
unfoldable pub split_dots : String → List String
split_dots String.[] = "" ∷ []
split_dots (String.◌∷◌ c t) =
    let parts = split_dots t in if code c == 46 then "" ∷ parts else onto c parts

abbrev pub found_device : Option Device → Result InAppError Installation
found_device none = err unauthorized
found_device (some d) =
    ok (record { id = d.id; tenant = d.tenant; app = d.app; platform = d.platform })

-- The row that the two parts of a token name, which the query takes where it is not revoked.
abbrev pub is_credential : (String → String) → ℕ → ℕ → ℕ → String → Device → Bool
is_credential hash tenant app id secret d =
    is_device tenant app id d && (str_eq d.credential_hash (hash secret) && not d.revoked)

abbrev pub checked_parts :
    (String → String)
    → (String → Option ℕ)
    → ℕ
    → ℕ
    → String
    → List String
    → Store
    → Result InAppError Installation
checked_parts hash uuid tenant app token (id ∷ (secret ∷ [])) s = elim (uuid id) [
  | none ↦ err unauthorized
  | some n ↦
      if str_eq secret "" || ltb 100 (units token)
      then err unauthorized
      else found_device (first_row (is_credential hash tenant app n secret) s.installations)
]
checked_parts hash uuid tenant app token _ s = err unauthorized

-- `auth`; `uuid` reads the text of an id.
unfoldable pub auth :
    (String → String)
    → (String → Option ℕ)
    → Bool
    → ℕ
    → ℕ
    → String
    → Store
    → Result InAppError Installation
auth hash uuid live tenant app token s =
    if live then checked_parts hash uuid tenant app token (split_dots token) s else err disabled
