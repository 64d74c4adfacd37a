-- ===== src/Store.antt =====
-- The database as the modelled code reads and writes it: the tables as lists of rows, the next
-- value of each id sequence, and the lookups by primary key. The foreign keys of
-- `app/db/models` are kept by every operation that writes; an inner join drops a row that has no
-- partner.
use news2reel.Base.{ℕ, Option, none, some, List, Text, text_eq, ◌==◌, find?, filter_map}
use news2reel.Model.{City, Source, Article, Carousel, Selection, User}

pub record Db (F : Type 0) : Type 0 where
  pub cities : List City
  pub sources : List Source
  pub articles : List (Article F)
  pub carousels : List Carousel
  pub selections : List (Selection F)
  pub users : List User
  pub next_city : ℕ
  pub next_source : ℕ
  pub next_carousel : ℕ

-- A row of `select(Article, Source).join(Source, …)` with `joinedload(Source.city)`.
pub record StoryRow (F : Type 0) : Type 0 where
  pub article : Article F
  pub source : Source
  pub city : City

module _ {F : Type 0} (db : Db F) where
  -- `db.get(City, id)`, and so for the other tables
  unfoldable pub get_city_row : ℕ → Option City
  get_city_row city_id = find? (λ c. c.id == city_id) db.cities

  unfoldable pub get_source_row : ℕ → Option Source
  get_source_row source_id = find? (λ s. s.id == source_id) db.sources

  unfoldable pub get_article_row : Text → Option (Article F)
  get_article_row article_id = find? (λ a. text_eq a.id article_id) db.articles

  unfoldable pub get_carousel_row : ℕ → Option Carousel
  get_carousel_row carousel_id = find? (λ c. c.id == carousel_id) db.carousels

  unfoldable pub get_user_row : ℕ → Option User
  get_user_row user_id = find? (λ u. u.id == user_id) db.users

  -- one article joined with its source and that source's city
  unfoldable pub story_row : Article F → Option (StoryRow F)
  story_row article = elim (get_source_row article.source_id) [
    | none ↦ none
    | some source ↦ elim (get_city_row source.city_id) [
      | none ↦ none
      | some city ↦ some (record { article = article; source = source; city = city })
    ]
  ]

  unfoldable pub story_rows : List (StoryRow F)
  story_rows = filter_map story_row db.articles
