-- ===== src/InApp/Campaigns/Reviewed.antt =====
-- What publishing by `transition` of apps/api/src/in-app/campaign.service.ts asks for.
use nudgeon_platform.Common.{
  ℕ, ◌<◌, ◌≡◌, ◌⊎◌, ◌∷◌, update_rows, Result, Bool, true, false, some, Memᴰ, any, first_row, ok,
}
use nudgeon_platform.InApp.{Platform, Campaign, Publication, Review, Store, InAppError}
use nudgeon_platform.InApp.Decision.{is_published, is_publication}
use nudgeon_platform.InApp.Display.{is_campaign}
use nudgeon_platform.InApp.Campaigns.{is_passed, publish_row}

-- The campaign `c` may be published at the time `now`: it has not ended, and may start later.
pub record IsReady (assets : ℕ → ℕ → ℕ → Bool) (now : ℕ) (s : Store) (c : Campaign) : Type 0 where
  pub unended : now < c.config.ends_at
  pub complete : assets c.tenant c.app c.revision_id ≡ true
  pub reviewed :
      (p : Platform)
      → Memᴰ p c.config.platforms
      → (r : Review) × Memᴰ r s.reviews × (is_passed c.tenant c.app c.revision_id p r ≡ true)
  pub unpublished : any (is_publication c.tenant c.app c.id c.version) s.publications ≡ false

-- What the store `s'` is when the campaign `c` was published: the row of the campaign alone is rewritten, and the
-- version is recorded as it is, with the member.
pub record IsPublication (member : ℕ) (s s' : Store) (c : Campaign) : Type 0 where
  pub record_of : Publication
  pub recorded : s'.publications ≡ record_of ∷ s.publications
  pub version : is_publication c.tenant c.app c.id c.version record_of ≡ true
  pub revision : record_of.revision_id ≡ c.revision_id
  pub config : record_of.config ≡ c.config
  pub by_member : record_of.published_by ≡ member
  pub row : first_row (is_campaign c.tenant c.app c.id) s'.campaigns ≡ some (publish_row c)
  pub rows : s'.campaigns ≡ update_rows (is_campaign c.tenant c.app c.id) publish_row s.campaigns
  pub deliveries : s'.deliveries ≡ s.deliveries
  pub reviews : s'.reviews ≡ s.reviews

-- What an answer to publishing the campaign `c` means, and the store behind it.
abbrev pub Publishes : (ℕ → ℕ → ℕ → Bool) → ℕ → ℕ → Store → Store → Campaign → Campaign → Type 0
Publishes assets member now s s' c c' =
    ((is_published c.state ≡ true) × (c' ≡ c) × (s' ≡ s))
    ⊎ (IsReady assets now s c × (c' ≡ publish_row c) × IsPublication member s s' c)

abbrev Answers :
    (ℕ → ℕ → ℕ → Bool)
    → ℕ
    → ℕ
    → Store
    → Campaign
    → Campaign
    → Store × Result InAppError Campaign
    → Type 0
Answers assets member now s c c' after =
    after.1 ≡ ok c' → Publishes assets member now s after.0 c c'
