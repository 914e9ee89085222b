-- ===== src/InApp/Campaigns.antt =====
-- apps/api/src/in-app/campaign.service.ts: `requireLive`, `save`, `review` and `transition`, and the limits of
-- `campaignConfigSchema` (campaign-contract.ts). A transaction is one step, and one that is rolled back leaves
-- the store. `assets` tells whether `assets.read` finds the files of a revision.
pub mod Recorded
pub mod Reviewed
use Prim.Native.String.{String}
use text.Mathlib.Text.{◌==◌ as str_eq}
use nudgeon_platform.Common.{
  ℕ, ◌+◌, Bool, true, not, ◌&&◌, List, [], ◌∷◌, Option, none, some, ◌==◌, ltb, leb, if◌then◌else◌,
  any, all, length, first_row, update_rows, count_rows, Result, ok, err,
}
use nudgeon_platform.InApp.{
  Platform, same_platform, CampaignConfig, draft, published, paused, App, Campaign, Publication,
  DeliveryState, Delivery, EventKind, impression, dismiss, Review, TestRun, Store, InAppError,
  not_found, disabled, campaign_changed_or_published, campaign_limit, review_requires_checklist,
  campaign_changed, campaign_ended, platform_review_required, unique_violation, asset_error,
  invalid_input,
}
use nudgeon_platform.InApp.Decision.{is_open, is_published, is_publication, set_state}
use nudgeon_platform.InApp.Access.{settle}
use nudgeon_platform.InApp.Display.{is_campaign}
use nudgeon_platform.InApp.Display.Events.{same_kind}

-- What `assets.requireEnabled` asks for, and `IN_APP_CAMPAIGNS_ENABLED`.
pub record Switches : Type 0 where
  pub workbench : Bool
  pub campaigns : Bool

-- `requireLive`.
abbrev pub is_live : Switches → Bool
is_live on = on.workbench && on.campaigns

abbrev pub has_platform : List Platform → Platform → Bool
has_platform ps p = any (same_platform p) ps

abbrev pub is_between : ℕ → ℕ → ℕ → Bool
is_between lo hi n = leb lo n && leb n hi

abbrev pub distinct_platforms : List Platform → Bool
distinct_platforms [] = true
distinct_platforms (p ∷ ps) = not (has_platform ps p) && distinct_platforms ps

-- `campaignConfigSchema`, whose zone `is_zone` knows.
unfoldable pub is_valid_config : (String → Bool) → CampaignConfig → Bool
is_valid_config is_zone cfg =
    is_between 1 2 (length cfg.platforms)
    && (distinct_platforms cfg.platforms
        && (elim cfg.time_zone [ none ↦ true | some zone ↦ is_zone zone ]
            && (is_between 60 31536000 cfg.cooldown_seconds
                && (is_between 1 10 cfg.max_per_day
                    && (is_between 1 100 cfg.max_total
                        && (is_between 0 100 cfg.priority && ltb cfg.starts_at cfg.ends_at))))))

abbrev pub is_app : ℕ → ℕ → App → Bool
is_app tenant id a = a.tenant == tenant && a.id == id

-- `workbench.app`, which passes, or throws.
unfoldable pub refused_app : Switches → ℕ → ℕ → Store → Option InAppError
refused_app on tenant app s =
    if not on.workbench
    then some disabled
    else if any (is_app tenant app) s.apps
    then none
    else some not_found

-- A campaign that is given, as `campaignSchema` reads it.
pub record CampaignInput : Type 0 where
  pub name : String
  pub revision_id : ℕ
  pub config : CampaignConfig

abbrev pub is_saved_over : ℕ → ℕ → ℕ → ℕ → Campaign → Bool
is_saved_over tenant app id version c =
    is_campaign tenant app id c && (c.version == version && not (is_published c.state))

abbrev pub overwrite : CampaignInput → Campaign → Campaign
overwrite value c = record c {
  name = value.name;
  revision_id = value.revision_id;
  config = value.config;
  version = c.version + 1;
}

abbrev pub max_campaigns : ℕ
max_campaigns = 100

abbrev pub is_campaign_in : ℕ → ℕ → Campaign → Bool
is_campaign_in tenant app c = c.tenant == tenant && c.app == app

abbrev pub new_campaign : ℕ → ℕ → ℕ → ℕ → CampaignInput → Campaign
new_campaign tenant app id now value = record {
  id = id;
  tenant = tenant;
  app = app;
  name = value.name;
  revision_id = value.revision_id;
  config = value.config;
  version = 1;
  state = draft;
  created_at = now;
}

-- Where to save: over a version of a campaign, or under the id that `randomUUID` gives.
pub data Target : Type 0 where
  over : (id expected_version : ℕ) → Target
  fresh : (id : ℕ) → Target

abbrev pub stored :
    ℕ → ℕ → ℕ → CampaignInput → Target → Store → Result InAppError (Store × Unit {0})
stored tenant app now value (over id version) s =
    if any (is_saved_over tenant app id version) s.campaigns
    then ok (
      record s {
        campaigns = update_rows (is_saved_over tenant app id version) (overwrite value) s.campaigns;
      },
      tt,
    )
    else err campaign_changed_or_published
stored tenant app now value (fresh id) s =
    if leb max_campaigns (count_rows (is_campaign_in tenant app) s.campaigns)
    then err campaign_limit
    else if any (λ c. c.id == id) s.campaigns
    then err unique_violation
    else ok (record s { campaigns = new_campaign tenant app id now value ∷ s.campaigns }, tt)

-- What throws, or else a result.
abbrev pub unless {ℓ} : {A : Type ℓ} → Option InAppError → Result InAppError A → Result InAppError A
unless none r = r
unless (some e) r = err e

-- `save`.
unfoldable pub save :
    (String → Bool)
    → (ℕ → ℕ → ℕ → Bool)
    → Switches
    → ℕ
    → ℕ
    → CampaignInput
    → Target
    → ℕ
    → Store
    → Store × Result InAppError (Unit {0})
save is_zone assets on tenant app value target now s = settle s (
    unless (refused_app on tenant app s) (
      if not (is_valid_config is_zone value.config)
      then err invalid_input
      else if not (assets tenant app value.revision_id)
      then err asset_error
      else stored tenant app now value target s))

pub record ReviewInput : Type 0 where
  pub run_id : ℕ
  pub passed : Bool
  pub layout_checked : Bool
  pub close_checked : Bool
  pub actions_checked : Bool

abbrev pub is_run : ℕ → ℕ → ℕ → TestRun → Bool
is_run tenant app id r = r.tenant == tenant && (r.app == app && r.id == id)

abbrev pub is_impression : EventKind × String → Bool
is_impression e = same_kind e.0 impression

abbrev pub is_native_close : EventKind × String → Bool
is_native_close e = same_kind e.0 dismiss && str_eq e.1 "close_button"

-- What a review that passes asks for.
unfoldable pub is_reviewable : ReviewInput → TestRun → Bool
is_reviewable b run =
    run.is_completed
    && (b.layout_checked
        && (b.close_checked
            && (b.actions_checked
                && (any is_impression run.events && any is_native_close run.events))))

abbrev pub is_review : ℕ → ℕ → ℕ → Platform → Review → Bool
is_review tenant app revision_id platform r =
    r.tenant == tenant
    && (r.app == app && (r.revision_id == revision_id && same_platform r.platform platform))

abbrev pub rewrite_review : Review → Review → Review
rewrite_review new r = record r {
  run_id = new.run_id;
  passed = new.passed;
  reviewed_by = new.reviewed_by;
}

-- `INSERT … ON CONFLICT … DO UPDATE`.
unfoldable pub put_review : Review → Store → Store
put_review r s =
    if any (is_review r.tenant r.app r.revision_id r.platform) s.reviews
    then record s {
      reviews =
          update_rows (is_review r.tenant r.app r.revision_id r.platform) (rewrite_review r)
            s.reviews;
    }
    else record s { reviews = r ∷ s.reviews }

abbrev pub review_run :
    ℕ → ℕ → ℕ → ReviewInput → Option TestRun → Store → Result InAppError (Store × Unit {0})
review_run tenant app member b none s = err not_found
review_run tenant app member b (some run) s =
    if b.passed && not (is_reviewable b run)
    then err review_requires_checklist
    else ok (
      put_review
          (record {
            tenant = tenant;
            app = app;
            revision_id = run.revision_id;
            platform = run.platform;
            run_id = run.id;
            passed = b.passed;
            reviewed_by = member;
          })
          s,
      tt,
    )

-- `review`.
unfoldable pub review :
    Switches → ℕ → ℕ → ℕ → ReviewInput → Store → Store × Result InAppError (Unit {0})
review on tenant app member b s = settle s (
    unless (refused_app on tenant app s)
      (review_run tenant app member b (first_row (is_run tenant app b.run_id) s.runs) s))

abbrev pub is_passed : ℕ → ℕ → ℕ → Platform → Review → Bool
is_passed tenant app revision_id platform r =
    r.tenant == tenant
    && (r.app == app
        && (r.revision_id == revision_id && (r.passed && same_platform r.platform platform)))

-- Each platform of the campaign has a review that passed.
abbrev pub is_reviewed : Campaign → Store → Bool
is_reviewed c s =
    all (λ p. any (is_passed c.tenant c.app c.revision_id p) s.reviews) c.config.platforms

abbrev pub publication_of : ℕ → Campaign → Publication
publication_of member c = record {
  tenant = c.tenant;
  app = c.app;
  campaign_id = c.id;
  version = c.version;
  revision_id = c.revision_id;
  config = c.config;
  published_by = member;
}

abbrev pub publish_row : Campaign → Campaign
publish_row c = record c { state = published }

abbrev pub pause_row : Campaign → Campaign
pause_row c = record c { state = paused; version = c.version + 1 }

abbrev pub update_campaign : Campaign → (Campaign → Campaign) → List Campaign → List Campaign
update_campaign c f cs = update_rows (is_campaign c.tenant c.app c.id) f cs

-- The branch of `transition` that publishes.
unfoldable pub publish_found :
    (ℕ → ℕ → ℕ → Bool) → ℕ → ℕ → Campaign → Store → Result InAppError (Store × Campaign)
publish_found assets member now c s =
    if is_published c.state
    then ok (s, c)
    else if leb c.config.ends_at now
    then err campaign_ended
    else if not (is_reviewed c s)
    then err platform_review_required
    else if not (assets c.tenant c.app c.revision_id)
    then err asset_error
    else if any (is_publication c.tenant c.app c.id c.version) s.publications
    then err unique_violation
    else ok (
      record s {
        publications = publication_of member c ∷ s.publications;
        campaigns = update_campaign c publish_row s.campaigns;
      },
      publish_row c,
    )

abbrev pub is_open_for : Campaign → Delivery → Bool
is_open_for c d =
    d.tenant == c.tenant && (d.app == c.app && (d.campaign_id == c.id && is_open d.state))

-- The branch that pauses.
unfoldable pub pause_found : Campaign → Store → Store
pause_found c s = record s {
  campaigns = update_campaign c pause_row s.campaigns;
  deliveries = update_rows (is_open_for c) (set_state DeliveryState.cancelled) s.deliveries;
}

abbrev pub transition_found :
    (ℕ → ℕ → ℕ → Bool)
    → ℕ
    → ℕ
    → Bool
    → ℕ
    → Option Campaign
    → Store
    → Result InAppError (Store × Campaign)
transition_found assets member expected_version publish now none s = err not_found
transition_found assets member expected_version publish now (some c) s =
    if c.version == expected_version
    then (if publish
        then publish_found assets member now c s
        else ok (pause_found c s, pause_row c))
    else err campaign_changed

-- `transition`.
unfoldable pub transition :
    (ℕ → ℕ → ℕ → Bool)
    → Switches
    → ℕ
    → ℕ
    → ℕ
    → ℕ
    → ℕ
    → Bool
    → ℕ
    → Store
    → Store × Result InAppError Campaign
transition assets on tenant app id member expected_version publish now s = settle s (
    unless (refused_app on tenant app s) (
      if publish && not (is_live on)
      then err disabled
      else transition_found assets member expected_version publish now
          (first_row (is_campaign tenant app id) s.campaigns) s))

-- What members of an app do with its campaigns.
pub data Edit : Type 0 where
  saving : CampaignInput → Target → (now : ℕ) → Edit
  reviewing : (member : ℕ) → ReviewInput → Edit
  transitioning : (id member expected_version : ℕ) → (publish : Bool) → (now : ℕ) → Edit

unfoldable pub edit : (String → Bool) → (ℕ → ℕ → ℕ → Bool) → Switches → ℕ → ℕ → Edit → Store → Store
edit is_zone assets on tenant app (saving value target now) s =
    (save is_zone assets on tenant app value target now s).0
edit is_zone assets on tenant app (reviewing member b) s = (review on tenant app member b s).0
edit is_zone assets on tenant app (transitioning id member expected_version publish now) s =
    (transition assets on tenant app id member expected_version publish now s).0
