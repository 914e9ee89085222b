-- ===== src/InApp/Campaigns/Recorded.antt =====
-- What is published in apps/api/src/in-app/campaign.service.ts.
use Prim.Native.String.{String}
use nudgeon_platform.Common.{
  ℕ, ◌≡◌, refl, sym, subst, inl, inr, Bool, true, not, ◌&&◌, List, [], ◌∷◌, Option, none, some,
  Memᴰ, arith, Bool-cases, leb, ◌==◌, any, count_rows, first_row, first_row-eq-some, update_rows,
  All, any-false, Keyed, Keyed-unique, Keyed-update_rows, Result,
}
use nudgeon_platform.InApp.{Campaign, Publication, Review, TestRun, Store, InAppError}
use nudgeon_platform.InApp.Decision.{is_published, is_publication}
use nudgeon_platform.InApp.Access.{settle}
use nudgeon_platform.InApp.Display.{is_campaign}
use nudgeon_platform.InApp.Campaigns.{
  Switches, is_live, is_valid_config, refused_app, CampaignInput, is_saved_over, overwrite, Target,
  over, fresh, stored, unless, save, max_campaigns, is_campaign_in, is_review, is_reviewable,
  ReviewInput, put_review, review_run, review, is_run, is_reviewed, publication_of, publish_row,
  pause_row, update_campaign, publish_found, pause_found, transition_found, transition, Edit,
  saving, reviewing, transitioning, edit,
}

-- The version of the campaign is recorded, with what it shows and to whom.
pub record IsRecorded (ps : List Publication) (c : Campaign) : Type 0 where
  pub publication : Publication
  pub there : Memᴰ publication ps
  pub version : is_publication c.tenant c.app c.id c.version publication ≡ true
  pub revision : publication.revision_id ≡ c.revision_id
  pub config : publication.config ≡ c.config

-- Ids are unique, and what is published is recorded.
pub record IsBacked (s : Store) : Type 0 where
  pub keyed : Keyed (λ (c : Campaign). c.id) s.campaigns
  pub recorded :
      All (λ (c : Campaign). is_published c.state ≡ true → IsRecorded s.publications c) s.campaigns

abbrev Backs : List Publication → Campaign → Type 0
Backs ps c = is_published c.state ≡ true → IsRecorded ps c

All-update_rows {ℓ κ} :
    {A : Type ℓ} (P Q : A → Type κ) (p : A → Bool) (f : A → A) (xs : List A)
    → ((x : A) → Memᴰ x xs → p x ≡ true → Q (f x))
    → ((x : A) → P x → Q x)
    → All P xs
    → All Q (update_rows p f xs)
All-update_rows P Q p f [] new old h = tt
All-update_rows P Q p f (x ∷ xs) new old (h, hs) =
    let rest = All-update_rows P Q p f xs (λ y m e. new y (Memᴰ.tail m) e) old hs in
    elim (Bool-cases (p x)) [
      | inl hit ↦ rw hit (new x (Memᴰ.head refl) hit, rest)
      | inr miss ↦ rw miss (old x h, rest)
    ]

IsRecorded-cons :
    (p : Publication) (ps : List Publication) (c : Campaign)
    → IsRecorded ps c
    → IsRecorded (p ∷ ps) c
IsRecorded-cons p ps c h = record {
  publication = h.publication;
  there = Memᴰ.tail h.there;
  version = h.version;
  revision = h.revision;
  config = h.config;
}

-- What a transaction leaves, when it keeps to it.
abbrev Leaves {ℓ} : {A : Type ℓ} → Store → Result InAppError (Store × A) → Type 0
Leaves s r = IsBacked (settle s r).0

Leaves-unless {ℓ} :
    {A : Type ℓ} (s : Store) (o : Option InAppError) (r : Result InAppError (Store × A))
    → IsBacked s
    → Leaves s r
    → Leaves s (unless o r)
Leaves-unless s none r h k = k
Leaves-unless s (some e) r h k = h

stored-Leaves :
    (tenant app now : ℕ) (value : CampaignInput) (target : Target) (s : Store)
    → IsBacked s
    → Leaves s (stored tenant app now value target s)
stored-Leaves tenant app now value (over id version) s h =
    elim (Bool-cases (any (is_saved_over tenant app id version) s.campaigns)) [
      | inr missing ↦ rw missing h
      | inl there ↦ rw there (record {
        keyed =
            Keyed-update_rows (λ c. c.id) (is_saved_over tenant app id version) (overwrite value)
              s.campaigns (λ c. refl) h.keyed;
        recorded =
            All-update_rows (Backs s.publications) (Backs s.publications)
              (is_saved_over tenant app id version) (overwrite value) s.campaigns
              (λ c _ e published. absurd (ground arith)) (λ c k. k) h.recorded;
      })
    ]
stored-Leaves tenant app now value (fresh id) s h =
    elim (Bool-cases (leb max_campaigns (count_rows (is_campaign_in tenant app) s.campaigns))) [
      | inl full ↦ rw full h
      | inr room ↦ elim (Bool-cases (any (λ (c : Campaign). c.id == id) s.campaigns)) [
        | inl taken ↦ rw (room, taken) h
        | inr new ↦
            rw (room, new)
              (record {
                keyed = (any-false (λ c. c.id == id) s.campaigns new, h.keyed);
                recorded = (λ published. cc, h.recorded);
              })
      ]
    ]

save-IsBacked :
    (is_zone : String → Bool) (assets : ℕ → ℕ → ℕ → Bool) (on : Switches) (tenant app : ℕ)
    (value : CampaignInput) (target : Target) (now : ℕ) (s : Store)
    → IsBacked s
    → IsBacked (save is_zone assets on tenant app value target now s).0
unfolding save
save-IsBacked is_zone assets on tenant app value target now s h =
    Leaves-unless s (refused_app on tenant app s) _ h
      (elim (Bool-cases (is_valid_config is_zone value.config)) [
        | inr invalid ↦ rw invalid h
        | inl valid ↦ elim (Bool-cases (assets tenant app value.revision_id)) [
          | inr missing ↦ rw (valid, missing) h
          | inl there ↦ rw (valid, there) (stored-Leaves tenant app now value target s h)
        ]
      ])

put_review-IsBacked : (r : Review) (s : Store) → IsBacked s → IsBacked (put_review r s)
unfolding put_review
put_review-IsBacked r s h =
    elim (Bool-cases (any (is_review r.tenant r.app r.revision_id r.platform) s.reviews)) [
      | inl again ↦ rw again (record { keyed = h.keyed; recorded = h.recorded })
      | inr first ↦ rw first (record { keyed = h.keyed; recorded = h.recorded })
    ]

review_run-Leaves :
    (tenant app member : ℕ) (b : ReviewInput) (o : Option TestRun) (s : Store)
    → IsBacked s
    → Leaves s (review_run tenant app member b o s)
review_run-Leaves tenant app member b none s h = h
review_run-Leaves tenant app member b (some run) s h =
    elim (Bool-cases (b.passed && not (is_reviewable b run))) [
      | inl unready ↦ rw unready h
      | inr done ↦ rw done (put_review-IsBacked _ s h)
    ]

-- Publishing records what is published.
published-IsBacked :
    (member : ℕ) (c : Campaign) (s : Store)
    → Memᴰ c s.campaigns
    → IsBacked s
    → IsBacked (record s {
      publications = publication_of member c ∷ s.publications;
      campaigns = update_campaign c publish_row s.campaigns;
    })
published-IsBacked member c s there h = record {
  keyed =
      Keyed-update_rows (λ x. x.id) (is_campaign c.tenant c.app c.id) publish_row s.campaigns
        (λ x. refl) h.keyed;
  recorded =
      All-update_rows (Backs s.publications) (Backs (publication_of member c ∷ s.publications))
        (is_campaign c.tenant c.app c.id) publish_row s.campaigns
        (λ x m e published.
          let same : x ≡ c =
            Keyed-unique (λ y. y.id) s.campaigns x c h.keyed m there (ground arith) in
          subst (λ y. IsRecorded (publication_of member c ∷ s.publications) (publish_row y))
            (sym same)
            (record {
              publication = publication_of member c;
              there = Memᴰ.head refl;
              version = ground arith;
              revision = refl;
              config = refl;
            }))
        (λ x k published. IsRecorded-cons (publication_of member c) s.publications x (k published))
        h.recorded;
}

publish_found-Leaves :
    (assets : ℕ → ℕ → ℕ → Bool) (member now : ℕ) (c : Campaign) (s : Store)
    → Memᴰ c s.campaigns
    → IsBacked s
    → Leaves s (publish_found assets member now c s)
unfolding publish_found
publish_found-Leaves assets member now c s there h = elim (Bool-cases (is_published c.state)) [
  | inl already ↦ rw already h
  | inr first ↦ elim (Bool-cases (leb c.config.ends_at now)) [
    | inl ended ↦ rw (first, ended) h
    | inr running ↦ elim (Bool-cases (is_reviewed c s)) [
      | inr unreviewed ↦ rw (first, running, unreviewed) h
      | inl reviewed ↦ elim (Bool-cases (assets c.tenant c.app c.revision_id)) [
        | inr missing ↦ rw (first, running, reviewed, missing) h
        | inl found ↦
            elim (Bool-cases (any (is_publication c.tenant c.app c.id c.version) s.publications)) [
              | inl twice ↦ rw (first, running, reviewed, found, twice) h
              | inr once ↦
                  rw (first, running, reviewed, found, once) (published-IsBacked member c s there h)
            ]
      ]
    ]
  ]
]

pause_found-IsBacked : (c : Campaign) (s : Store) → IsBacked s → IsBacked (pause_found c s)
unfolding pause_found
pause_found-IsBacked c s h = record {
  keyed =
      Keyed-update_rows (λ x. x.id) (is_campaign c.tenant c.app c.id) pause_row s.campaigns
        (λ x. refl) h.keyed;
  recorded =
      All-update_rows (Backs s.publications) (Backs s.publications)
        (is_campaign c.tenant c.app c.id) pause_row s.campaigns (λ x _ e published. cc) (λ x k. k)
        h.recorded;
}

transition-IsBacked :
    (assets : ℕ → ℕ → ℕ → Bool) (on : Switches) (tenant app id member expected_version : ℕ)
    (publish : Bool) (now : ℕ) (s : Store)
    → IsBacked s
    → IsBacked (transition assets on tenant app id member expected_version publish now s).0
unfolding transition
transition-IsBacked assets on tenant app id member expected_version publish now s h =
    Leaves-unless s (refused_app on tenant app s) _ h
      (elim (Bool-cases (publish && not (is_live on))) [
        | inl off ↦ rw off h
        | inr live ↦
            rw live (found (first_row (is_campaign tenant app id) s.campaigns) refl publish)
      ])
  where
    found :
        (o : Option Campaign)
        → first_row (is_campaign tenant app id) s.campaigns ≡ o
        → (p : Bool) → Leaves s (transition_found assets member expected_version p now o s)
    found none at p = h
    found (some c) at p = elim (Bool-cases (c.version == expected_version)) [
      | inr changed ↦ rw changed h
      | inl same ↦ elim (Bool-cases p) [
        | inl on_air ↦
            rw (same, on_air)
              (publish_found-Leaves assets member now c s
                (first_row-eq-some (is_campaign tenant app id) s.campaigns at).0 h)
        | inr off_air ↦ rw (same, off_air) (pause_found-IsBacked c s h)
      ]
    ]

-- Saving, reviewing, publishing and pausing a campaign keep the ids of campaigns unique, and each published
-- campaign recorded: a publication of its version has the revision and the configuration that it has.
pub edit-IsBacked :
    (is_zone : String → Bool) (assets : ℕ → ℕ → ℕ → Bool) (on : Switches) (tenant app : ℕ)
    (e : Edit) (s : Store)
    → IsBacked s
    → IsBacked (edit is_zone assets on tenant app e s)
unfolding edit review
edit-IsBacked is_zone assets on tenant app (saving value target now) s h =
    save-IsBacked is_zone assets on tenant app value target now s h
edit-IsBacked is_zone assets on tenant app (reviewing member b) s h =
    Leaves-unless s (refused_app on tenant app s) _ h
      (review_run-Leaves tenant app member b (first_row (is_run tenant app b.run_id) s.runs) s h)
edit-IsBacked is_zone assets on tenant app (transitioning id member expected_version publish now) s
      h =
    transition-IsBacked assets on tenant app id member expected_version publish now s h
