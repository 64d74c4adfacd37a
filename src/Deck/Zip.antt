-- ===== src/Deck/Zip.antt =====
-- `zip_slides` of `app/api/v1/endpoints/carousels.py`: the download of a deck, and the stamp that
-- makes it "downloaded". The archive is the list of its members; `base64` and the formatting of a
-- member's number are parameters.
pub mod Stamp
use news2reel.Base.{
  ℕ, ◌+◌, Bool, Option, none, some, List, [], ◌∷◌, ◌++◌, if◌then◌else◌, ltb, leb, ◌&&◌, Text, codes,
  length, drop,
}
use news2reel.Core.Config.{Settings}
use news2reel.Model.{Instant, Carousel}
use news2reel.Store.{Db, get_carousel_row}
use news2reel.Ingest.Entry.{starts_with}
use news2reel.Deck.{put_carousel}

-- The ways in which a download is refused: a 422, a 422, a 413 and a 404.
pub data ZipError : Type 0 where
  not_a_jpeg not_base64 too_large no_such_carousel : ZipError

pub data Zipped (A : Type 0) : Type 0 where
  zipped : A → Zipped A
  rejected : ZipError → Zipped A

infixl 5 ◌>>=◌
abbrev pub ◌>>=◌ : {A B : Type 0} → Zipped A → (A → Zipped B) → Zipped B
zipped a >>= f = f a
rejected e >>= f = rejected e

abbrev pub Payload : Type 0
Payload = List ℕ

-- A file of the archive: its name and what it holds.
pub record Member : Type 0 where
  pub name : Text
  pub content : Payload

abbrev pub jpeg_prefix : Text
jpeg_prefix = codes "data:image/jpeg;base64,"

abbrev pub or_reject : {A : Type 0} → ZipError → Option A → Zipped A
or_reject e none = rejected e
or_reject e (some a) = zipped a

-- `b64decode` is that of `base64` with `validate=True`, where none is an error.
unfoldable pub decode_jpeg : (Text → Option Payload) → Text → Zipped Payload
decode_jpeg b64decode encoded =
    if starts_with jpeg_prefix encoded
    then or_reject not_base64 (b64decode (drop (length jpeg_prefix) encoded))
    else rejected not_a_jpeg

-- `two_digits` is `f"{index:02d}"`.
abbrev pub member : (ℕ → Text) → ℕ → Payload → Member
member two_digits index payload = record {
  name = codes "slide-" ++ (two_digits index ++ codes ".jpg");
  content = payload;
}

abbrev pub stamped : {F : Type 0} → Carousel → Instant → Db F → Db F
stamped carousel now db = record db {
  carousels = put_carousel (record carousel { last_downloaded_at = some now }) db.carousels;
}

module _ (b64decode : Text → Option Payload) (two_digits : ℕ → Text) {F : Type 0}
    (settings : Settings F) where
  -- One round of the loop, with its payload; `rest` is the loop behind it.
  abbrev pub written : ℕ → ℕ → Payload → (ℕ → Zipped (List Member)) → Zipped (List Member)
  written index total payload rest =
      let total' = total + length payload in
      let behind =
        rest total' >>= (λ members. zipped (member two_digits index payload ∷ members)) in
      if ltb settings.zip_max_total_bytes total' then rejected too_large else behind

  -- `for index, encoded in enumerate(data.images, start=1)`, with `total`.
  unfoldable pub build_archive : ℕ → ℕ → List Text → Zipped (List Member)
  build_archive index total [] = zipped []
  build_archive index total (encoded ∷ images) = decode_jpeg b64decode encoded >>= (λ payload.
      written index total payload (λ total'. build_archive (index + 1) total' images))

  -- The archive that is streamed, and the tables.
  unfoldable pub zip_slides : Db F → ℕ → List Text → Instant → Zipped (List Member × Db F)
  zip_slides db carousel_id images now = build_archive 1 0 images >>= (λ archive.
      or_reject no_such_carousel (get_carousel_row db carousel_id)
      >>= (λ carousel. zipped (archive, stamped carousel now db)))
