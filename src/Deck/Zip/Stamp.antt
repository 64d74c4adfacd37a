-- ===== src/Deck/Zip/Stamp.antt =====
-- When a deck is stamped as downloaded, and what was downloaded then.
use news2reel.Base.{ℕ, ◌+◌, ◌≤◌, ◌≡◌, Option, some, List, [], ◌∷◌, Text, length}
use news2reel.Core.Config.{Settings}
use news2reel.Model.{Instant, Carousel}
use news2reel.Store.{Db, get_carousel_row}
use news2reel.Deck.Zip.{Zipped, zipped, Payload, Member, decode_jpeg, member, build_archive}

-- the bytes of all payloads
abbrev pub total_bytes : List Payload → ℕ
total_bytes [] = 0
total_bytes (p ∷ payloads) = length p + total_bytes payloads

-- The payloads under their numbers.
abbrev pub numbered_from : (ℕ → Text) → ℕ → List Payload → List Member
numbered_from two_digits index [] = []
numbered_from two_digits index (p ∷ payloads) =
    member two_digits index p ∷ numbered_from two_digits (index + 1) payloads

-- The images decode to these payloads, one by one.
abbrev pub Decodes : (Text → Option Payload) → List Text → List Payload → Type 0
Decodes b64decode [] [] = Unit
Decodes b64decode (encoded ∷ images) (payload ∷ payloads) =
    (decode_jpeg b64decode encoded ≡ zipped payload) × Decodes b64decode images payloads
Decodes b64decode images payloads = ⊥

module _ (b64decode : Text → Option Payload) (two_digits : ℕ → Text) {F : Type 0}
    (settings : Settings F) where
  abbrev archive_from : ℕ → ℕ → List Text → Zipped (List Member)
  archive_from index total images = build_archive b64decode two_digits settings index total images

  abbrev Built : ℕ → ℕ → List Text → List Member → Type 0
  Built index total images archive =
      (payloads : List Payload) × Decodes b64decode images payloads
      × (total + total_bytes payloads ≤ settings.zip_max_total_bytes)
      × (archive ≡ numbered_from two_digits index payloads)

  module _ (db : Db F) (carousel_id : ℕ) (images : List Text) (now : Instant) where
    -- What a download needs: payloads for the images, within the cap, and the deck.
    pub record Needs (payloads : List Payload) (carousel : Carousel) : Type 0 where
      pub decodes : Decodes b64decode images payloads
      pub fits : total_bytes payloads ≤ settings.zip_max_total_bytes
      pub found : get_carousel_row db carousel_id ≡ some carousel
