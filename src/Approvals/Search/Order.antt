-- ===== src/Approvals/Search/Order.antt =====
-- The order of the items of a search.
use dingtalk_oa_attachment_b.Prelude.{
  ◌≡◌, refl, Bool, true, false, Option, none, some, text_eq, arith,
}
use dingtalk_oa_attachment_b.Prelude.Int.{ℤ, ltb_int, eqb_int}
use dingtalk_oa_attachment_b.Prelude.Sorting.{IsAsymmetric}
use dingtalk_oa_attachment_b.Approvals.Library.{Library}
use dingtalk_oa_attachment_b.Approvals.Catalog.Order.{text_lt_asymm}
use dingtalk_oa_attachment_b.Approvals.Authorization.{Item}
use dingtalk_oa_attachment_b.Approvals.Search.{texts_before, times_before, item_before}

texts_before_asymm : (a b : Item) → texts_before a b ≡ true → texts_before b a ≡ false
texts_before_asymm a b h = ground (
  arith,
  text_lt_asymm b.process_instance_id a.process_instance_id,
  text_lt_asymm b.create_time a.create_time,
)

ltb_int_asymm : (s t : ℤ) → ltb_int s t ≡ true → ltb_int t s ≡ false
ltb_int_asymm s t h = ground arith

eqb_int_comm : (s t : ℤ) → eqb_int s t ≡ eqb_int t s
eqb_int_comm s t = ground arith

times_before_asymm :
    (x y : Bool) (s t : Option ℤ)
    → (x ≡ true → y ≡ false)
    → times_before x s t ≡ true
    → times_before y t s ≡ false
times_before_asymm x y (some s) (some t) h e =
    ground (arith, ltb_int_asymm t s, eqb_int_comm s t, h)
times_before_asymm x y (some s) none h e = refl
times_before_asymm x y none (some t) h e = ground arith
times_before_asymm x y none none h e = h e

pub item_before_asymm : (go : Library) → IsAsymmetric (item_before go)
unfolding item_before
item_before_asymm go a b h =
    times_before_asymm (texts_before a b) (texts_before b a) (go.parse_time a.create_time)
      (go.parse_time b.create_time) (texts_before_asymm a b) h
