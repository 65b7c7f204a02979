-- ===== src/Domain/Json.antt =====
-- internal/domain/approval.go: the attachments that a decoded JSON value describes. An object's
-- fields have distinct names, as the keys of a Go map do.
use dingtalk_oa_attachment_b.Prelude.{
  ℕ, ◌+◌, ◌-◌, ◌*◌, ◌/◌, ◌%◌, ◌^◌, Bool, ◌&&◌, List, [], ◌∷◌, ◌++◌, Option, none, some, Text, lit,
  ◌==◌, text_eq, eqb, ltb, leb, if◌then◌else◌,
}
use dingtalk_oa_attachment_b.Domain.Audit.{is_blank}
use dingtalk_oa_attachment_b.Domain.Approval.{Attachment, form}

-- A value of `any` as Unmarshal makes it. The number is the float64 ± mantissa · 2^up / 2^down.
mutual
  pub data Value : Type 0 where
    null : Value
    boolean : Bool → Value
    number : Bool → ℕ → ℕ → ℕ → Value
    string : Text → Value
    array : Items → Value
    object : Fields → Value

  pub data Items : Type 0 where
    nil : Items
    item : Value → Items → Items

  pub data Fields : Type 0 where
    end : Fields
    field : Text → Value → Fields → Fields

abbrev pub int64_limit : ℕ
int64_limit = 2 ^ 63

-- `value[key]`; a key that is not there reads as nil.
unfoldable pub member : Fields → Text → Value
member end key = null
member (field k v fs) key = if k == key then v else member fs key

-- stringValue
unfoldable pub string_value : Value → Option Text
string_value (string s) = some s
string_value v = none

-- firstString, at its two keys
unfoldable pub first_string : Fields → Text → Text → Option Text
first_string fs first second = elim (string_value (member fs first)) [
  | some s ↦ some s
  | none ↦ string_value (member fs second)
]

abbrev or_blank : Option Text → Text
or_blank none = []
or_blank (some s) = s

is_digit : ℕ → Bool
is_digit c = leb b'0' c && leb c b'9'

-- The digits of strconv.ParseInt in base 10; `none` at a character that is no digit.
unfoldable pub digits : Text → ℕ → Option ℕ
unfolding is_digit
digits [] acc = some acc
digits (c ∷ s) acc =
    let rest = digits s (acc * 10 + (c - b'0')) in if is_digit c then rest else none

abbrev below : ℕ → Option ℕ → Option ℕ
below limit none = none
below limit (some n) = if ltb n limit then some n else none

unfoldable pub unsigned : Text → ℕ → Option ℕ
unfolding digits
unsigned [] limit = none
unsigned (c ∷ s) limit = below limit (digits (c ∷ s) 0)

abbrev only_zero : Option ℕ → Option ℕ
only_zero none = none
only_zero (some n) = if eqb n 0 then some 0 else none

-- strconv.ParseInt(s, 10, 64) where the result is not negative. A sign may stand first; `-0` is 0.
unfoldable pub parse_size : Text → Option ℕ
unfolding unsigned
parse_size [] = none
parse_size (c ∷ s) =
    if eqb c b'+'
    then unsigned s int64_limit
    else if eqb c b'-'
    then only_zero (unsigned s (int64_limit + 1))
    else unsigned (c ∷ s) int64_limit

-- `typed >= 0 && typed == float64(int64(typed))`: a whole number that int64 holds.
unfoldable pub whole_size : Bool → ℕ → ℕ → ℕ → Option ℕ
whole_size negative mantissa up down =
    let scaled = mantissa * 2 ^ up in
    if negative && ltb 0 mantissa
    then none
    else if eqb (scaled % 2 ^ down) 0 && ltb (scaled / 2 ^ down) int64_limit
    then some (scaled / 2 ^ down)
    else none

unfoldable pub size_value : Value → Option ℕ
unfolding parse_size whole_size
size_value (string s) = parse_size s
size_value (number negative mantissa up down) = whole_size negative mantissa up down
size_value v = none

abbrev or_zero : Option ℕ → ℕ
or_zero none = 0
or_zero (some n) = n

-- firstInt64, at its two keys
unfoldable pub first_int64 : Fields → Text → Text → ℕ
unfolding size_value
first_int64 fs first second = elim (size_value (member fs first)) [
  | some n ↦ n
  | none ↦ or_zero (size_value (member fs second))
]

named_attachment : Fields → Text → Option Text → Option Attachment
unfolding first_string first_int64
named_attachment fs file_id none = none
named_attachment fs file_id (some file_name) =
    if is_blank file_name
    then none
    else some (record {
      file_id = file_id;
      file_name = file_name;
      file_size = first_int64 fs (lit "fileSize") (lit "size");
      file_type = or_blank (first_string fs (lit "fileType") (lit "extension"));
      space_id = or_blank (string_value (member fs (lit "spaceId")));
      source = form;
    })

-- attachmentFromMap. It leaves the source empty; every caller sets it.
unfoldable pub attachment_from_map : Fields → Option Attachment
unfolding named_attachment string_value member
attachment_from_map fs = elim (string_value (member fs (lit "fileId"))) [
  | none ↦ none
  | some file_id ↦
      if is_blank file_id
      then none
      else named_attachment fs file_id (first_string fs (lit "fileName") (lit "name"))
]

abbrev listed : Option Attachment → List Attachment
listed none = []
listed (some a) = a ∷ []

-- walkAttachmentJSON. `under` walks the first member of that name, so that the recursion is on the
-- value itself.
unfoldable mutual
  pub walk : Value → List Attachment
  walk (array items) = walk_items items
  walk (object fs) =
      listed (attachment_from_map fs) ++ (under (lit "files") fs ++ under (lit "attachments") fs)
  walk null = []
  walk (boolean b) = []
  walk (number s m u d) = []
  walk (string s) = []

  pub walk_items : Items → List Attachment
  walk_items nil = []
  walk_items (item v vs) = walk v ++ walk_items vs

  pub under : Text → Fields → List Attachment
  under key end = []
  under key (field k v fs) = if k == key then walk v else under key fs
