-- ===== src/Domain/Collect/Laws.antt =====
-- ParseAttachments against a description by the first candidate for each ID.
use dingtalk_oa_attachment_b.Prelude.{
  ◌≡◌, ◌≢◌, refl, ap, ◌∙◌, Bool, true, false, List, [], ◌∷◌, ◌++◌, Option, none, some, Text, ◌==◌,
  text_eq, contains, is_empty, if◌then◌else◌, arith, Bool-cases, inl, inr, All, All-append,
}
use dingtalk_oa_attachment_b.Runes.{trim_space}
use dingtalk_oa_attachment_b.Runes.Trim.{trim_space_idem}
use dingtalk_oa_attachment_b.Domain.Approval.{
  Attachment, AttachmentSource, form, comment, FormValue, OperationRecord, find_in,
}
use dingtalk_oa_attachment_b.Domain.Json.{Value}
use dingtalk_oa_attachment_b.Domain.Collect.{
  Collected, tidy, append_attachment, append_all, parse_json_attachments, collect_forms,
  collect_comments, parse_attachments,
}

-- The first of the candidates with this ID, as it is kept.
abbrev pub first_with : Text → AttachmentSource → List Attachment → Option Attachment
first_with i source [] = none
first_with i source (a ∷ as') =
    if trim_space a.file_id == i then some (tidy source a) else first_with i source as'

infixr 6 ◌or_else◌
abbrev pub ◌or_else◌ : Option Attachment → Option Attachment → Option Attachment
none or_else o = o
some a or_else o = some a

or_else_assoc : (a b c : Option Attachment) → ((a or_else b) or_else c) ≡ (a or_else (b or_else c))
or_else_assoc none b c = refl
or_else_assoc (some x) b c = refl

find_in-append :
    (i : Text) (xs ys : List Attachment)
    → find_in i (xs ++ ys) ≡ (find_in i xs or_else find_in i ys)
unfolding find_in
find_in-append i [] ys = refl
find_in-append i (x ∷ xs) ys = ground (arith, find_in-append i xs ys)

-- `seen` holds the IDs that were kept, none of them empty, and no ID was kept twice.
abbrev is_found : Option Attachment → Bool
is_found none = false
is_found (some a) = true

abbrev pub IsTidy : Attachment → Type 0
IsTidy a = (a.file_id ≢ []) × (trim_space a.file_id ≡ a.file_id)

abbrev pub IsDistinct : List Attachment → Type 0
IsDistinct [] = Unit
IsDistinct (a ∷ as') = (find_in a.file_id as' ≡ none) × IsDistinct as'

record Inv (c : Collected) : Type 0 where
  agree : (i : Text) → contains c.seen i ≡ is_found (find_in i c.attachments)
  clean : All IsTidy c.attachments
  apart : IsDistinct c.attachments

IsDistinct-append :
    (xs : List Attachment) (a : Attachment)
    → IsDistinct xs
    → find_in a.file_id xs ≡ none
    → IsDistinct (xs ++ a ∷ [])
unfolding find_in
IsDistinct-append [] a d h = (refl, tt)
IsDistinct-append (x ∷ xs) a d h =
    (find_in-append x.file_id xs (a ∷ []) ∙ ground arith, IsDistinct-append xs a d.1 (ground arith))

grown-Inv :
    (s : AttachmentSource) (c : Collected) (a : Attachment)
    → Inv c
    → is_empty (trim_space a.file_id) ≡ false
    → contains c.seen (trim_space a.file_id) ≡ false
    → Inv (record {
      seen = trim_space a.file_id ∷ c.seen;
      attachments = c.attachments ++ tidy s a ∷ [];
    })
unfolding tidy find_in
grown-Inv s c a v e k = record {
  agree = λ i. ground (arith, find_in-append i c.attachments (tidy s a ∷ []), v.agree i);
  clean =
      All-append IsTidy c.attachments (tidy s a ∷ []) v.clean
        ((ground arith, trim_space_idem a.file_id), tt);
  apart =
      IsDistinct-append c.attachments (tidy s a) v.apart
        (ground (arith, v.agree (trim_space a.file_id)));
}

append_attachment-Inv :
    (s : AttachmentSource) (c : Collected) (a : Attachment) → Inv c → Inv (append_attachment s c a)
unfolding append_attachment
append_attachment-Inv s c a v = elim (Bool-cases (is_empty (trim_space a.file_id))) [
  | inl blank ↦ rw blank v
  | inr e ↦ elim (Bool-cases (contains c.seen (trim_space a.file_id))) [
    | inl known ↦ rw (e, known) v
    | inr new ↦ rw (e, new) (grown-Inv s c a v e new)
  ]
]

append_all-Inv :
    (s : AttachmentSource) (as' : List Attachment) (c : Collected)
    → Inv c
    → Inv (append_all s c as')
unfolding append_all
append_all-Inv s [] c v = v
append_all-Inv s (a ∷ as') c v =
    append_all-Inv s as' (append_attachment s c a) (append_attachment-Inv s c a v)

find_in-append_attachment :
    (s : AttachmentSource) (c : Collected) (a : Attachment) (i : Text)
    → Inv c
    → i ≢ []
    → find_in i (append_attachment s c a).attachments
      ≡ (find_in i c.attachments or_else first_with i s (a ∷ []))
unfolding append_attachment find_in tidy
find_in-append_attachment s c a i v h =
    ground (arith, find_in-append i c.attachments (tidy s a ∷ []), v.agree (trim_space a.file_id))

find_in-append_all :
    (s : AttachmentSource) (as' : List Attachment) (c : Collected) (i : Text)
    → Inv c
    → i ≢ []
    → find_in i (append_all s c as').attachments
      ≡ (find_in i c.attachments or_else first_with i s as')
unfolding append_all
find_in-append_all s [] c i v h = ground arith
find_in-append_all s (a ∷ as') c i v h = ground (
  arith,
  find_in-append_all s as' (append_attachment s c a) i (append_attachment-Inv s c a v) h,
  find_in-append_attachment s c a i v h,
  or_else_assoc (find_in i c.attachments) (first_with i s (a ∷ [])) (first_with i s as'),
)

module _ (unmarshal : Text → Option Value) where
  -- Everything that the form values describe, in the order of the loops.
  abbrev pub form_candidates : List FormValue → List Attachment
  form_candidates [] = []
  form_candidates (f ∷ fs) =
      parse_json_attachments unmarshal f.value
      ++ (parse_json_attachments unmarshal f.ext_value ++ form_candidates fs)

  abbrev pub comment_candidates : List OperationRecord → List Attachment
  comment_candidates [] = []
  comment_candidates (o ∷ os) = o.attachments ++ comment_candidates os

  append_all-append :
      (s : AttachmentSource) (xs ys : List Attachment) (c : Collected)
      → append_all s c (xs ++ ys) ≡ append_all s (append_all s c xs) ys
  unfolding append_all
  append_all-append s [] ys c = refl
  append_all-append s (x ∷ xs) ys c = append_all-append s xs ys (append_attachment s c x)

  collect_forms_lem :
      (fs : List FormValue) (c : Collected)
      → collect_forms unmarshal c fs ≡ append_all form c (form_candidates fs)
  unfolding collect_forms append_all
  collect_forms_lem [] c = refl
  collect_forms_lem (f ∷ fs) c = simp (append_all-append, collect_forms_lem fs)

  collect_comments_lem :
      (os : List OperationRecord) (c : Collected)
      → collect_comments unmarshal c os ≡ append_all comment c (comment_candidates os)
  unfolding collect_comments append_all
  collect_comments_lem [] c = refl
  collect_comments_lem (o ∷ os) c = simp (append_all-append, collect_comments_lem os)

  abbrev none_yet : Collected
  none_yet = record { seen = []; attachments = [] }

  none_yet-Inv : Inv none_yet
  unfolding find_in
  none_yet-Inv = record { agree = λ i. refl; clean = tt; apart = tt }

  collected_lem :
      (fs : List FormValue) (os : List OperationRecord)
      → parse_attachments unmarshal fs os
        ≡ (append_all comment
            (append_all form none_yet (form_candidates fs))
            (comment_candidates os)).attachments
  unfolding parse_attachments
  collected_lem fs os =
      ap (λ (c : Collected). c.attachments)
        (collect_comments_lem os (collect_forms unmarshal none_yet fs)
          ∙ ap (λ (c : Collected). append_all comment c (comment_candidates os))
              (collect_forms_lem fs none_yet))

  parsed-Inv :
      (fs : List FormValue) (os : List OperationRecord)
      → Inv (
          append_all comment
            (append_all form none_yet (form_candidates fs))
            (comment_candidates os))
  parsed-Inv fs os =
      append_all-Inv comment (comment_candidates os) _
        (append_all-Inv form (form_candidates fs) none_yet none_yet-Inv)

  -- For every ID that is not empty, the attachment that is found under it is the first one that the
  -- form values name with it, or else the first one of the operation records, with its texts trimmed
  -- and its source set.
  pub find_in-parse_attachments :
      (fs : List FormValue) (os : List OperationRecord) (i : Text)
      → i ≢ []
      → find_in i (parse_attachments unmarshal fs os) ≡ (
          first_with i form (form_candidates fs)
          or_else first_with i comment (comment_candidates os))
  unfolding find_in
  find_in-parse_attachments fs os i h = rw collected_lem (
      ground (
        arith,
        find_in-append_all comment (comment_candidates os)
            (append_all form none_yet (form_candidates fs)) i
            (append_all-Inv form (form_candidates fs) none_yet none_yet-Inv) h,
        find_in-append_all form (form_candidates fs) none_yet i none_yet-Inv h,
      ))

  -- The IDs of the result are trimmed, not empty, and distinct.
  pub parse_attachments-IsDistinct :
      (fs : List FormValue) (os : List OperationRecord)
      → All IsTidy (parse_attachments unmarshal fs os)
        × IsDistinct (parse_attachments unmarshal fs os)
  parse_attachments-IsDistinct fs os =
      rw collected_lem ((parsed-Inv fs os).clean, (parsed-Inv fs os).apart)
