-- ===== src/Domain/Access.antt =====
-- internal/domain/approval.go: who CanAccess lets in, and what FindAttachment finds.
use dingtalk_oa_attachment_b.Prelude.{
  ◌≡◌, ◌≢◌, ◌↔◌, ◌⊎◌, true, List, [], ◌∷◌, Text, text_eq, contains, arith, In,
}
use dingtalk_oa_attachment_b.Domain.Approval.{Approval, can_access}

pub contains-In : (xs : List Text) (a : Text) → (contains xs a ≡ true) ↔ In a xs
contains-In [] a = (λ h. cc, λ h. absurd h)
contains-In (x ∷ xs) a = ground (arith, contains-In xs a)

-- A user takes part in an approval as its originator, an approver, a receiver of a copy, or the user
-- of a task.
abbrev pub TakesPart : Approval → Text → Type 0
TakesPart a u =
    (a.originator_user_id ≡ u)
    ⊎ (In u a.approver_user_ids ⊎ (In u a.cc_user_ids ⊎ In u a.task_user_ids))

-- Access is granted exactly to a user with an ID that is not empty who is an administrator or takes
-- part in the approval.
pub can_access_iff :
    (a : Approval) (u : Text) (administrators : List Text)
    → (can_access a u administrators ≡ true) ↔ ((u ≢ []) × (In u administrators ⊎ TakesPart a u))
unfolding can_access
can_access_iff a u administrators = ground (
  arith,
  contains-In administrators u,
  contains-In a.approver_user_ids u,
  contains-In a.cc_user_ids u,
  contains-In a.task_user_ids u,
)
