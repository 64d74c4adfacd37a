-- ===== src/Rank/Order.antt =====
-- The keys order the stories: Python's comparison of two keys is a weak order, and keys that end
-- on different ids are told apart.
use news2reel.Base.{Bool, true, false, ◌≡◌, ◌||◌, arith, text_eq, Text}
use news2reel.Base.{
  IsWeakOrder, lex-IsWeakOrder, on-IsWeakOrder, ltb-IsWeakOrder, text_lt-IsWeakOrder,
  text_lt-differ,
}
use news2reel.Core.Floats.{FloatOps, FloatLaws, ltf}
use news2reel.Rank.{Key, key_lt}

-- the id that a key ends on
abbrev pub key_id : (F : Type 0) (by : Bool) → Key F by → Text
key_id F true k = k.2
key_id F false k = k.2

module _ {F : Type 0} (fl : FloatOps F) (laws : FloatLaws fl) where
  ltf-IsWeakOrder : IsWeakOrder (ltf fl)
  ltf-IsWeakOrder = record {
    asym = λ a b h. ground (arith, laws.le_total a b, laws.le_total b a);
    ntrans = λ a b c h k. ground (arith, laws.le_trans a b c);
  }

  pub key_lt-IsWeakOrder : (by : Bool) → IsWeakOrder (key_lt fl by)
  unfolding key_lt
  key_lt-IsWeakOrder true = lex-IsWeakOrder _ _ (on-IsWeakOrder _ (λ k. k.0) ltf-IsWeakOrder) (
      lex-IsWeakOrder _ _ (on-IsWeakOrder _ (λ k. k.1) ltb-IsWeakOrder)
        (on-IsWeakOrder _ (λ k. k.2) text_lt-IsWeakOrder))
  key_lt-IsWeakOrder false = lex-IsWeakOrder _ _ (on-IsWeakOrder _ (λ k. k.0) ltb-IsWeakOrder) (
      lex-IsWeakOrder _ _ (on-IsWeakOrder _ (λ k. k.1) ltf-IsWeakOrder)
        (on-IsWeakOrder _ (λ k. k.2) text_lt-IsWeakOrder))

pub key_lt-differ :
    {F : Type 0} (fl : FloatOps F) (by : Bool) (a b : Key F by)
    → text_eq (key_id F by a) (key_id F by b) ≡ false
    → (key_lt fl by a b || key_lt fl by b a) ≡ true
unfolding key_lt
key_lt-differ fl true a b h = ground (arith, text_lt-differ a.2 b.2)
key_lt-differ fl false a b h = ground (arith, text_lt-differ a.2 b.2)
