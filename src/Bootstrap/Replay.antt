-- ===== src/Bootstrap/Replay.antt =====
-- apps/api/src/auth/bootstrap.service.ts: a setup whose answer is lost, and asked for again.
use Prim.Native.String.{String}
use text.Mathlib.Text.{◌==◌ as str_eq}
use nudgeon_platform.Common.{
  ℕ, ◌≡◌, refl, sym, ap, ◌∙◌, inl, inr, true, false, not, ◌&&◌, ◌||◌, List, Option, none, some,
  Bool-cases, arith, ltb, if◌then◌else◌, Result, ok, err, and_then, ok-injective,
}
use nudgeon_platform.Bootstrap.{
  no_cookie, InstallationRow, SetupResult, Workspace, World, BootstrapError, Host, Draw, SetupInput,
  ended, same, is_secured, is_claimed, lasts, Created, create_workspace,
}
use nudgeon_platform.Bootstrap.Claims.{
  request_hash, SetupAnswer, set_up, replay, setup_row, setup, result_row, setup_result, Attempt,
  run_all, secured_row,
}
use nudgeon_platform.Bootstrap.Once.{IsSecured, run_all_of_secured}
use nudgeon_platform.Bootstrap.Grant.{IsDigest, same_refl, answer-err}

module _ (host : Host) where
  -- The setup made a workspace, for the holder of the row's lease.
  pub record IsFresh (cookie key : String) (input : SetupInput) (draw : Draw) (now : ℕ)
      (w w' : World) (answer : SetupAnswer) (row : InstallationRow) : Type 0 where
    pub made : Workspace × Created
    pub mine : same row.claim_session_hash (host.sha256 cookie) ≡ true
    pub left : w' ≡ (set_up host key input now row made).0
    pub answered : answer ≡ (set_up host key input now row made).1

  replay-answer :
      (key : String) (input : SetupInput) (row : InstallationRow) (w w' : World)
      (answer : SetupAnswer)
      → answer.replayed ≡ false
      → ¬ (ended w (replay host key input row w) ≡ (w', ok answer))
  replay-answer key input row w w' answer fresh h =
      elim (Bool-cases (same row.setup_request_hash (request_hash host input))) [
        | inl again ↦
            let e : ◌≡◌ {A = World × Result BootstrapError SetupAnswer}
                (w, ok (record { result = row.setup_result; keys = none; replayed = true }))
                (w', ok answer) =
              rw again at h in
            let t : answer ≡ record { result = row.setup_result; keys = none; replayed = true } =
              ok-injective refl
                (sym (ap (λ (p : World × Result BootstrapError SetupAnswer). p.1) e)) in
            let u : answer.replayed ≡ true = ap (λ (a : SetupAnswer). a.replayed) t in cc
        | inr other ↦ answer-err (rw other at h)
      ]

  made-eq-ok :
      (cookie key : String) (input : SetupInput) (draw : Draw) (now : ℕ) (row : InstallationRow)
      (w w' : World) (answer : SetupAnswer) (r : Result BootstrapError (Workspace × Created))
      → same row.claim_session_hash (host.sha256 cookie) ≡ true
      → ended w (and_then r (λ made. ok (set_up host key input now row made))) ≡ (w', ok answer)
      → IsFresh cookie key input draw now w w' answer row
  made-eq-ok cookie key input draw now row w w' answer (err e) mine h = absurd (answer-err h)
  made-eq-ok cookie key input draw now row w w' answer (ok made) mine h = record {
    made = made;
    mine = mine;
    left = sym (ap (λ (p : World × Result BootstrapError SetupAnswer). p.0) h);
    answered =
        ok-injective refl (sym (ap (λ (p : World × Result BootstrapError SetupAnswer). p.1) h));
  }

  setup_row-eq-ok :
      (cookie key : String) (input : SetupInput) (draw : Draw) (now : ℕ) (row : InstallationRow)
      (w w' : World) (answer : SetupAnswer)
      → answer.replayed ≡ false
      → ended w (setup_row host cookie key input draw now (some row) w) ≡ (w', ok answer)
      → IsFresh cookie key input draw now w w' answer row
  setup_row-eq-ok cookie key input draw now row w w' answer fresh h =
      let holder = same row.claim_session_hash (host.sha256 cookie) in
      let again =
        same row.setup_idempotency_key_hash (host.sha256 key) && lasts now row.claim_expires_at in
      elim (Bool-cases (is_secured row.state)) [
        | inl closed ↦ elim (Bool-cases (holder && again)) [
          | inl e ↦ absurd (replay-answer key input row w w' answer fresh (rw (closed, e) at h))
          | inr e ↦ absurd (answer-err (rw (closed, e) at h))
        ]
        | inr still ↦ elim (Bool-cases (not (is_claimed row.state) || not holder)) [
          | inl e ↦ absurd (answer-err (rw (still, e) at h))
          | inr e ↦ elim (Bool-cases (not (lasts now row.claim_expires_at))) [
            | inl late ↦ absurd (answer-err (rw (still, e, late) at h))
            | inr early ↦
                made-eq-ok cookie key input draw now row w w' answer
                  (create_workspace host input draw w.workspace) (ground arith)
                  (rw (still, e, early) at h)
          ]
        ]
      ]

  -- What the locked installation answers to the one who set it up.
  setup_row_of_done :
      (cookie key : String) (input : SetupInput) (draw : Draw) (made : Workspace × Created)
      (now later until_at : ℕ) (row : InstallationRow) (w : World)
      → IsDigest host.sha256
      → same row.claim_session_hash (host.sha256 cookie) ≡ true
      → row.claim_expires_at ≡ some until_at
      → ltb later until_at ≡ true
      → ended w (
          setup_row host cookie key input draw later
            (some (secured_row host key input made.1 now row))
            w)
        ≡ (
          w,
          ok (record {
            result = (set_up host key input now row made).1.result;
            keys = none;
            replayed = true;
          }),
        )
  setup_row_of_done cookie key input draw made now later until_at row w digest mine ends early =
      rw
        (
          mine,
          same_refl (host.sha256 key) (digest key),
          ends,
          early,
          same_refl (request_hash host input) (digest _),
        )
        refl

  result_row_of_done :
      (cookie key : String) (input : SetupInput) (made : Workspace × Created)
      (now later until_at : ℕ) (row : InstallationRow)
      → IsDigest host.sha256
      → same row.claim_session_hash (host.sha256 cookie) ≡ true
      → row.claim_expires_at ≡ some until_at
      → ltb later until_at ≡ true
      → result_row host cookie key later (some (secured_row host key input made.1 now row))
        ≡ ok (set_up host key input now row made).1.result
  result_row_of_done cookie key input made now later until_at row digest mine ends early =
      rw (mine, same_refl (host.sha256 key) (digest key), ends, early) refl

  -- The answer to a setup whose result is `r`, asked for again.
  abbrev pub repeated : SetupAnswer → SetupAnswer
  repeated a = record { result = a.result; keys = none; replayed = true }

  setup_of_done :
      (cookie key : String) (input : SetupInput) (draw : Draw) (now later until_at : ℕ)
      (row : InstallationRow) (w w' u : World) (answer : SetupAnswer)
      → IsDigest host.sha256
      → str_eq cookie "" ≡ false
      → IsFresh cookie key input draw now w w' answer row
      → u ≡ w'
      → row.claim_expires_at ≡ some until_at
      → ltb later until_at ≡ true
      → ((again : Draw)
          → setup host (some cookie) key input again later u ≡ (u, ok (repeated answer)))
        × (setup_result host (some cookie) key later u ≡ ok answer.result)
  unfolding setup setup_result
  setup_of_done cookie key input draw now later until_at row w w' u answer digest full fresh same
        ends early =
      let found : u.installation ≡ some (secured_row host key input fresh.made.1 now row) =
        ap (λ (v : World). v.installation) (same ∙ fresh.left) in
      let told : (set_up host key input now row fresh.made).1.result ≡ answer.result =
        sym (ap (λ (a : SetupAnswer). a.result) fresh.answered) in
      (
        λ again.
            (ap
                (λ b.
                  if b
                  then (u, err no_cookie)
                  else ended u (setup_row host cookie key input again later u.installation u))
                full
              ∙ (ap (λ o. ended u (setup_row host cookie key input again later o u)) found
                  ∙ (setup_row_of_done cookie key input again fresh.made now later until_at row u
                        digest fresh.mine ends early
                      ∙ ap {B = World × Result BootstrapError SetupAnswer}
                          (λ (r : Option SetupResult).
                            (u, ok (record { result = r; keys = none; replayed = true })))
                          told))),
        ap (λ b. if b then err no_cookie else result_row host cookie key later u.installation) full
            ∙ (ap (λ o. result_row host cookie key later o) found
                ∙ (result_row_of_done cookie key input fresh.made now later until_at row digest
                      fresh.mine ends early
                    ∙ ap ok told)),
      )

  -- An answer of a setup that is lost can be had again: whatever reaches the service after a setup that made a
  -- workspace, until the lease of its cookie ends, the same request with the same cookie and key gives the same
  -- result, without the keys, and changes nothing, and so does the question for the result. No hash is empty.
  pub setup-repeated :
      (cookie key : String) (input : SetupInput) (draw again : Draw) (now later until_at : ℕ)
      (row : InstallationRow) (w w' : World) (answer : SetupAnswer) (calls : List (ℕ × Attempt))
      → IsDigest host.sha256
      → w.installation ≡ some row
      → row.claim_expires_at ≡ some until_at
      → setup host (some cookie) key input draw now w ≡ (w', ok answer)
      → answer.replayed ≡ false
      → ltb later until_at ≡ true
      → (setup host (some cookie) key input again later (run_all host calls w')
          ≡ (run_all host calls w', ok (repeated answer)))
        × (setup_result host (some cookie) key later (run_all host calls w') ≡ ok answer.result)
  unfolding setup
  setup-repeated cookie key input draw again now later until_at row w w' answer calls digest found
        ends h fresh early =
      elim (Bool-cases (str_eq cookie "")) [
        | inl empty ↦ absurd (answer-err (rw empty at h))
        | inr full ↦
            let f : IsFresh cookie key input draw now w w' answer row =
              setup_row-eq-ok cookie key input draw now row w w' answer fresh (
                sym (ap (λ o. ended w (setup_row host cookie key input draw now o w)) found)
                ∙ (rw full at h)) in
            let locked : IsSecured w' = record {
              row = secured_row host key input f.made.1 now row;
              found = ap (λ (v : World). v.installation) f.left;
              closed = refl;
            } in
            let (twice, asked) =
              setup_of_done cookie key input draw now later until_at row w w'
                (run_all host calls w') answer digest full f
                (run_all_of_secured host calls w' locked) ends early in
            (twice again, asked)
      ]
