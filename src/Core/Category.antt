-- ===== src/Core/Category.antt =====
-- `Category` of `app/core/enums.py`, with the strings that the column stores.
use news2reel.Base.{Text, codes}

pub data Category : Type 0 where
  crime accident civic transport politics business education health : Category
  sport weather environment agriculture culture religion technology other : Category

-- `category.value`
abbrev pub category_value : Category → Text
category_value crime = codes "crime"
category_value accident = codes "accident"
category_value civic = codes "civic"
category_value transport = codes "transport"
category_value politics = codes "politics"
category_value business = codes "business"
category_value education = codes "education"
category_value health = codes "health"
category_value sport = codes "sport"
category_value weather = codes "weather"
category_value environment = codes "environment"
category_value agriculture = codes "agriculture"
category_value culture = codes "culture"
category_value religion = codes "religion"
category_value technology = codes "technology"
category_value other = codes "other"
